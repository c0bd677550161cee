-- ===== src/Ingestion/Adapters.antt =====
-- services/ingestion/internal/adapters: what turns the data of a source into records on the queue that
-- cmd/main.go consumes. The queue is the list of what was sent to the channel `out`.
pub mod Lines
pub mod Queueing
pub mod Webhook
pub mod Rest
pub mod File
pub mod Kafka
pub mod Cells
pub mod DbPoll
pub mod Accepted
use reconx.Base.{ℕ, suc, String, Bool, Option, none, some, List, [], ◌∷◌, ◌++◌, ◌==◌, if◌then◌else◌}
use reconx.Ingestion.Pipeline.{Tags, NormalizedRecord}

-- The fields that an adapter reads of a payload; "" where the payload does not give one.
pub record Partial : Type 0 where
  pub idempotency_key : String
  pub transaction_ref : String
  pub source_system : String

-- What the adapters call of encoding/json and encoding/csv: Unmarshal into a Partial, whose error is
-- dropped, and into []json.RawMessage; Marshal of a row; the results of successive calls of a CSV
-- reader's Read up to EOF, none for an error.
pub record Codec : Type 0 where
  pub partial_of : List ℕ → Partial
  pub raw_items : List ℕ → Option (List (List ℕ))
  pub marshal_row : List (String × String) → List ℕ
  pub read_csv : List ℕ → List (Option (List String))

-- What one run meets, by the number of records that it has sent: whether the send finds the context
-- done, and the next uuid.
pub record Run : Type 0 where
  pub cancelled : ℕ → Bool
  pub new_uuid : ℕ → String

pub data AdapterError : Type 0 where
  context_done token_too_long read_failed bad_json bad_csv : AdapterError

-- What a parser returns, and the queue that it leaves.
pub record Queued (D : Type 0) : Type 0 where
  pub count : ℕ
  pub error : Option AdapterError
  pub queue : List (NormalizedRecord D)

-- A record as the adapters fill it in: the other fields are zero.
abbrev pub skeleton :
    {D : Type 0} (zero_decimal : D)
    → (idempotency_key transaction_ref source_system adapter_type trace_id : String) → List ℕ
    → (payload_schema : String) → Tags
    → NormalizedRecord D
skeleton zero_decimal key ref source adapter trace payload schema tags = record {
  internal_id = "";
  idempotency_key = key;
  transaction_ref = ref;
  source_system = source;
  adapter_type = adapter;
  amount = zero_decimal;
  currency = "";
  record_timestamp = 0;
  server_received_at = 0;
  raw_payload = payload;
  payload_schema = schema;
  tags = tags;
  trace_id = trace;
}

abbrev pub or_uuid : String → String → String
or_uuid key uuid = if key == "" then uuid else key

-- The loop that the parsers share: `make` builds the record of an item, given a uuid, and the send
-- ends the loop where the context is done. `last` is the error that follows the last item.
unfoldable pub queue_each :
    {I D : Type 0}
    → Run
    → (String → I → NormalizedRecord D)
    → Option AdapterError
    → ℕ
    → List I
    → List (NormalizedRecord D)
    → Queued D
queue_each run make last n [] queue = record { count = n; error = last; queue = queue }
queue_each run make last n (item ∷ items) queue =
    let rest = queue_each run make last (suc n) items (queue ++ make (run.new_uuid n) item ∷ []) in
    if run.cancelled n then record { count = n; error = some context_done; queue = queue } else rest
