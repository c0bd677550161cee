-- ===== src/Ingestion/Adapters/Rest.antt =====
-- services/ingestion/internal/adapters/rest.go. The timer is left out: a run is the list of what the
-- polls meet, and ends where the context is done.
use reconx.Base.{ℕ, ◌*◌, String, ◌&&◌, Option, none, some, List, [], ◌∷◌, if◌then◌else◌, leb}
use reconx.Ingestion.Pipeline.{NormalizedRecord}
use reconx.Ingestion.Adapters.{Codec, Run, read_failed, Queued, skeleton, or_uuid, queue_each}
use reconx.Ingestion.Adapters.Lines.{scan_lines, non_empty}

-- The buffer of rest.go and file.go, 1 MB.
abbrev pub max_buffer : ℕ
max_buffer = 1 * 1024 * 1024

module _ {D : Type 0} (codec : Codec) (zero_decimal : D) (source_system : String) where
  unfoldable pub rest_record : String → List ℕ → NormalizedRecord D
  rest_record uuid raw =
      let p = codec.partial_of raw in
      skeleton zero_decimal (or_uuid p.idempotency_key uuid) p.transaction_ref source_system "rest"
        "" raw "" []

  unfoldable pub parse_rest : Run → List ℕ → List (NormalizedRecord D) → Queued D
  unfolding scan_lines queue_each rest_record
  parse_rest run body queue =
      let (tokens, error) = scan_lines max_buffer body in
      queue_each run rest_record error 0 (non_empty tokens) queue

  abbrev pub failed_poll : List (NormalizedRecord D) → Queued D
  failed_poll queue = record { count = 0; error = some read_failed; queue = queue }

  -- A poll, given the status and the body of the response; none where there is no response.
  unfoldable pub rest_poll : Run → Option (ℕ × List ℕ) → List (NormalizedRecord D) → Queued D
  unfolding parse_rest
  rest_poll run none queue = failed_poll queue
  rest_poll run (some (status, body)) queue =
      if leb 200 status && leb status 200 then parse_rest run body queue else failed_poll queue

  -- The loop of Start: the error of a poll is logged only.
  unfoldable pub rest_start :
      List (Run × Option (ℕ × List ℕ)) → List (NormalizedRecord D) → List (NormalizedRecord D)
  unfolding rest_poll
  rest_start [] queue = queue
  rest_start ((run, response) ∷ polls) queue = rest_start polls (rest_poll run response queue).queue
