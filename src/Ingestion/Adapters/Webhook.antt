-- ===== src/Ingestion/Adapters/Webhook.antt =====
-- services/ingestion/internal/adapters/webhook.go. The texts of errors are left out of the answers.
use reconx.Base.{
  ℕ, ◌*◌, String, Bool, ◌&&◌, not, Option, none, some, List, [], ◌∷◌, ◌==◌, if◌then◌else◌, leb,
  take, length,
}
use reconx.Ingestion.Pipeline.{NormalizedRecord}
use reconx.Ingestion.Adapters.{
  Codec, Run, AdapterError, read_failed, bad_json, Queued, skeleton, or_uuid, queue_each,
}
use reconx.Ingestion.Adapters.Lines.{scan_lines, non_empty}

-- A request; `breaks` says that reading its body ends in an error instead of EOF.
pub record WebhookRequest : Type 0 where
  pub method : String
  pub source_system : String
  pub source_header : String
  pub trace_header : String
  pub body : List ℕ
  pub breaks : Bool

-- The status, and of a 202 the count and the trace id.
pub record WebhookReply : Type 0 where
  pub status : ℕ
  pub queued : Option (ℕ × String)

-- bufio's limit of a token, and the limit of a body where none is set.
abbrev pub max_token : ℕ
max_token = 64 * 1024

unfoldable pub max_body : ℕ → ℕ
max_body max_body_bytes = if leb max_body_bytes 0 then 10 * 1024 * 1024 else max_body_bytes

-- io.ReadAll of io.LimitReader: what lies behind the limit is never read.
unfoldable pub read_all : ℕ → WebhookRequest → Option (List ℕ)
read_all limit req =
    if leb limit (length req.body)
    then some (take limit req.body)
    else if req.breaks
    then none
    else some req.body

-- What the first byte says of a body.
pub data Shape : Type 0 where
  nothing array object lines : Shape

unfoldable pub shape_of : List ℕ → Shape
shape_of [] = nothing
shape_of (b ∷ bs) =
    if leb 91 b && leb b 91 then array else if leb 123 b && leb b 123 then object else lines

abbrev refused : ℕ → WebhookReply
refused code = record { status = code; queued = none }

abbrev pub reply_to : String → Option AdapterError → ℕ → WebhookReply
reply_to trace none count = record { status = 202; queued = some (count, trace) }
reply_to trace (some e) count = refused 400

abbrev pub webhook_source : WebhookRequest → String
webhook_source req = if req.source_system == "" then req.source_header else req.source_system

module _ {D : Type 0} (codec : Codec) (zero_decimal : D) where
  unfoldable pub webhook_record : String → String → String → List ℕ → NormalizedRecord D
  webhook_record source trace uuid raw =
      let p = codec.partial_of raw in
      skeleton zero_decimal (or_uuid p.idempotency_key uuid) p.transaction_ref source "webhook"
        trace raw "" []

  abbrev pub queue_array :
      Run → String → String → Option (List (List ℕ)) → List (NormalizedRecord D) → Queued D
  queue_array run source trace none queue = record {
    count = 0;
    error = some bad_json;
    queue = queue;
  }
  queue_array run source trace (some items) queue =
      queue_each run (webhook_record source trace) none 0 items queue

  abbrev pub parse_shape :
      Shape → Run → String → String → List ℕ → List (NormalizedRecord D) → Queued D
  parse_shape nothing run source trace bytes queue = record {
    count = 0;
    error = none;
    queue = queue;
  }
  parse_shape array run source trace bytes queue =
      queue_array run source trace (codec.raw_items bytes) queue
  parse_shape object run source trace bytes queue =
      queue_each run (webhook_record source trace) none 0 (bytes ∷ []) queue
  parse_shape lines run source trace bytes queue =
      let (tokens, error) = scan_lines max_token bytes in
      queue_each run (webhook_record source trace) error 0 (non_empty tokens) queue

  unfoldable pub parse_data : Run → String → String → List ℕ → List (NormalizedRecord D) → Queued D
  unfolding shape_of queue_each webhook_record scan_lines
  parse_data run source trace bytes queue =
      parse_shape (shape_of bytes) run source trace bytes queue

  unfoldable pub parse_and_queue :
      Run → String → String → Option (List ℕ) → List (NormalizedRecord D) → Queued D
  unfolding parse_data
  parse_and_queue run source trace none queue = record {
    count = 0;
    error = some read_failed;
    queue = queue;
  }
  parse_and_queue run source trace (some bytes) queue = parse_data run source trace bytes queue

  unfoldable pub serve_webhook :
      ℕ
      → Run
      → String
      → WebhookRequest
      → List (NormalizedRecord D)
      → WebhookReply × List (NormalizedRecord D)
  unfolding max_body read_all parse_and_queue
  serve_webhook max_body_bytes run trace_uuid req queue =
      let source = webhook_source req in
      let trace = or_uuid req.trace_header trace_uuid in
      let q = parse_and_queue run source trace (read_all (max_body max_body_bytes) req) queue in
      if not (req.method == "POST")
      then (refused 405, queue)
      else if source == ""
      then (refused 400, queue)
      else (reply_to trace q.error q.count, q.queue)
