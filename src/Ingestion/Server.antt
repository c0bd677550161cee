-- ===== src/Ingestion/Server.antt =====
-- services/ingestion/internal/server/server.go and the queue of cmd/main.go: the gRPC server, and the
-- consumer that hands it what the adapters queue. Metrics, log lines and the texts of errors are left
-- out; every error of the pipeline is a StageError, so that the fallback for others is never taken.
pub mod Once
pub mod Accounted
pub mod Grows
pub mod Drained
pub mod Between
use reconx.Base.{
  ℕ, ◌+◌, ◌*◌, ◌%◌, ◌^◌, String, Bool, true, false, not, Option, none, some, List, [], ◌∷◌, ◌==◌,
  if◌then◌else◌, leb,
}
use reconx.Base.Exec.{Result, ok, err, pure, raise, ◌>>=◌, ◌>>◌, ◌or_raise◌, ignored}
use reconx.Proto.{Code, resource_exhausted, internal}
use reconx.Ingestion.Pipeline.{
  Tags, set_tag, NormalizedRecord, Libs, StageError, ingestion_pipeline,
}
use reconx.Ingestion.Stores.{
  CachedResponse, Record, Entry, Tables, Env, StoreError, Store, get_response, set_response,
  insert_record, enqueue,
}

pub record Metadata : Type 0 where
  pub source_system : String
  pub trace_id : String
  pub tags : Tags

pub record IngestRequest : Type 0 where
  pub idempotency_key : String
  pub transaction_ref : String
  pub payload : List ℕ
  pub metadata : Option Metadata

pub record IngestResponse : Type 0 where
  pub internal_id : String
  pub success : Bool
  pub error : Option String

-- `req.Metadata.SourceSystem`, where there is metadata.
abbrev pub source_of : Option Metadata → String
source_of none = ""
source_of (some m) = m.source_system

abbrev pub trace_of : Option Metadata → String
trace_of none = ""
trace_of (some m) = m.trace_id

abbrev pub tags_of : Option Metadata → Tags
tags_of none = []
tags_of (some m) = m.tags

module _ {D : Type 0} (libs : Libs D) where
  unfoldable pub proto_to_record : Env → IngestRequest → NormalizedRecord D
  proto_to_record env req = record {
    internal_id = env.uuid;
    idempotency_key = req.idempotency_key;
    transaction_ref = req.transaction_ref;
    source_system = source_of req.metadata;
    adapter_type = "grpc";
    amount = libs.zero_decimal;
    currency = "";
    record_timestamp = 0;
    server_received_at = 0;
    raw_payload = req.payload;
    payload_schema = "";
    tags = tags_of req.metadata;
    trace_id = trace_of req.metadata;
  }

  -- `if !r.RecordTimestamp.IsZero()`
  abbrev pub known_time : ℕ → Option ℕ
  known_time t = if leb t 0 then none else some t

  abbrev pub stored : NormalizedRecord D → Record
  stored rec = record {
    internal_id = rec.internal_id;
    idempotency_key = rec.idempotency_key;
    transaction_ref = rec.transaction_ref;
    source_system = rec.source_system;
    adapter_type = rec.adapter_type;
    amount = libs.to_text rec.amount;
    currency = rec.currency;
    record_timestamp = known_time rec.record_timestamp;
    server_received_at = rec.server_received_at;
    raw_payload = rec.raw_payload;
    payload_schema = rec.payload_schema;
    tags = rec.tags;
    trace_id = rec.trace_id;
    status = "PENDING";
  }

abbrev pub dead_letter : {D : Type 0} → Env → NormalizedRecord D → String → String → Entry
dead_letter env rec stage reason = record {
  id = env.serial;
  idempotency_key = rec.idempotency_key;
  transaction_ref = rec.transaction_ref;
  source_system = rec.source_system;
  adapter_type = rec.adapter_type;
  raw_payload = rec.raw_payload;
  error_stage = stage;
  error_reason = reason;
  retry_count = 0;
  created_at = env.now;
  last_attempt_at = env.now;
}

abbrev pub error_of : String → Option String
error_of code = if code == "" then none else some code

abbrev pub cached_to_response : CachedResponse → IngestResponse
cached_to_response c = record {
  internal_id = c.internal_id;
  success = c.success;
  error = error_of c.error_code;
}

abbrev pub failure : String → IngestResponse
failure reason = record { internal_id = ""; success = false; error = some reason }

abbrev pub accepted : String → IngestResponse
accepted id = record { internal_id = id; success = true; error = none }

abbrev pub cached_success : Env → String → CachedResponse
cached_success env id = record {
  internal_id = id;
  success = true;
  error_code = "";
  stored_at = env.now;
}

-- An int32 counter, by its bits.
abbrev pub count_up : ℕ → ℕ
count_up n = (n + 1) % 2 ^ 32

pub record BulkSummary : Type 0 where
  pub total_processed : ℕ
  pub total_failed : ℕ

abbrev pub counted : Result Code IngestResponse → BulkSummary → BulkSummary
counted (err c) s = record s { total_failed = count_up s.total_failed }
counted (ok resp) s =
    if resp.success
    then record s { total_processed = count_up s.total_processed }
    else record s { total_failed = count_up s.total_failed }

unfoldable pub normalized_to_proto : {D : Type 0} → NormalizedRecord D → IngestRequest
normalized_to_proto rec = record {
  idempotency_key = rec.idempotency_key;
  transaction_ref = rec.transaction_ref;
  payload = rec.raw_payload;
  metadata = some (record {
    source_system = rec.source_system;
    trace_id = rec.trace_id;
    tags = set_tag "adapter_type" rec.adapter_type rec.tags;
  });
}

module _ {D : Type 0} (libs : Libs D) (ttl : ℕ) where
  -- The reply after `storeRecord`.
  abbrev pub on_stored :
      Env → IngestRequest → NormalizedRecord D → Result StoreError Unit → Store Code IngestResponse
  on_stored env req rec (ok _) = do
    ignored (
        set_response env ttl req.idempotency_key (source_of req.metadata)
          (cached_success env rec.internal_id))
    pure (accepted rec.internal_id)
  on_stored env req rec (err _) = do
    ignored (enqueue env (dead_letter env rec "storage" "db_error"))
    raise internal

  -- What follows the pipeline, given its result and the record that it leaves.
  abbrev pub on_processed :
      Env → IngestRequest → Result StageError Unit → NormalizedRecord D → Store Code IngestResponse
  on_processed env req (ok _) rec tables =
      let (result, tables') = insert_record env (stored libs rec) tables in
      on_stored env req rec result tables'
  on_processed env req (err e) rec tables =
      (do ignored (enqueue env (dead_letter env rec e.stage e.reason)); pure (failure e.reason))
        tables

  unfoldable pub process : Env → IngestRequest → Store Code IngestResponse
  unfolding insert_record set_response enqueue
  process env req tables =
      let (result, rec) = ingestion_pipeline libs env.now (proto_to_record libs env req) in
      on_processed env req result rec tables

  -- A failed read of the idempotency table is not fatal: the request is processed.
  abbrev pub on_cached :
      Env → IngestRequest → Result StoreError CachedResponse → Store Code IngestResponse
  on_cached env req (ok cached) = pure (cached_to_response cached)
  on_cached env req (err _) = process env req

  unfoldable pub submit_record : Env → IngestRequest → Store Code IngestResponse
  unfolding get_response process
  submit_record env req tables =
      if env.allow (source_of req.metadata)
      then on_cached env req (get_response env req.idempotency_key tables).0 tables
      else (err resource_exhausted, tables)

  -- The loop over the received requests, each with what it finds; it ends where Recv reports an error.
  unfoldable pub bulk_loop :
      List (Env × IngestRequest) → BulkSummary → Tables → BulkSummary × Tables
  unfolding submit_record
  bulk_loop [] s tables = (s, tables)
  bulk_loop ((env, req) ∷ rest) s tables =
      let (result, tables') = submit_record env req tables in
      bulk_loop rest (counted result s) tables'

  unfoldable pub bulk_stream_ingest : List (Env × IngestRequest) → Tables → BulkSummary × Tables
  unfolding bulk_loop
  bulk_stream_ingest reqs tables =
      bulk_loop reqs (record { total_processed = 0; total_failed = 0 }) tables

  -- The consumer: nil is passed over, an error of the server is only logged.
  unfoldable pub consume_adapter_queue : List (Env × Option (NormalizedRecord D)) → Tables → Tables
  unfolding submit_record normalized_to_proto
  consume_adapter_queue [] tables = tables
  consume_adapter_queue ((env, none) ∷ rest) tables = consume_adapter_queue rest tables
  consume_adapter_queue ((env, some rec) ∷ rest) tables =
      consume_adapter_queue rest (submit_record env (normalized_to_proto rec) tables).1
