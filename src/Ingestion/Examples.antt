-- ===== src/Ingestion/Examples.antt =====
-- The theorems on the Ingestion Service, at concrete requests, with whole numbers for decimals.
mod Adapting
mod Serving
use reconx.Base.{
  ℕ, ◌+◌, ◌%◌, ◌^◌, true, false, ◌≡◌, refl, ◌↔◌, ◌⊎◌, Option, none, some, List, [], ◌∷◌, arith, leb,
  if◌then◌else◌, ◌==◌,
}
use reconx.Base.Exec.{ok}
use reconx.Base.Table.{find}
use reconx.Ingestion.Pipeline.{
  NormalizedRecord, Libs, RawIngestPayload, validate, ingestion_pipeline, matches_tx_ref,
}
use reconx.Ingestion.Pipeline.Validity.{IsValid}
use reconx.Ingestion.Pipeline.Outcome.{HasReadableAmount, pipeline_iff}
use reconx.Ingestion.Stores.{
  IdempotencyRow, Entry, Record, Tables, Env, key_not_found, get_response,
}
use reconx.Ingestion.Server.Between.{Event, happen}
use reconx.Ingestion.Server.{
  cached_success, dead_letter, IngestRequest, submit_record, accepted, proto_to_record,
}
use reconx.Ingestion.Server.Once.{submit_record_once, resubmit_after_expiry}
use reconx.Ingestion.Server.Accounted.{IsStored, IsDeadLetter, submit_record-accounted}

abbrev pub payload : RawIngestPayload
payload = record {
  transaction_ref = "";
  amount = "10";
  currency = "inr";
  event_time = "";
  schema = "invoice.v1";
  extra = ("branch", "north") ∷ [];
}

abbrev decode : List ℕ → Option RawIngestPayload
decode [] = none
decode (b ∷ bs) = some payload

abbrev pub libs : Libs ℕ
libs = record {
  unmarshal = decode;
  zero_decimal = 0;
  new_from_string = λ s. if s == "10" then some 10 else none;
  is_zero = λ n. leb n 0;
  is_negative = λ _. false;
  to_text = λ n. "10";
  parse = λ _ _. none;
}

abbrev pub env : Env
env = record { now = 100; fails = λ _. false; uuid = "id-1"; serial = 1; allow = λ _. true }

abbrev pub later : Env
later = record env { now = 105; uuid = "id-2" }

abbrev req : IngestRequest
req = record {
  idempotency_key = "k1";
  transaction_ref = "T1";
  payload = 123 ∷ 125 ∷ [];
  metadata = some (record { source_system = "erp"; trace_id = ""; tags = [] });
}

abbrev bare : IngestRequest
bare = record req { metadata = none }

abbrev pub empty : Tables
empty = record { idempotency = []; records = []; dlq = [] }

abbrev pub rec : NormalizedRecord ℕ
rec = record {
  internal_id = "id-1";
  idempotency_key = "k1";
  transaction_ref = "T1";
  source_system = "erp";
  adapter_type = "grpc";
  amount = 0;
  currency = "";
  record_timestamp = 0;
  server_received_at = 0;
  raw_payload = 123 ∷ 125 ∷ [];
  payload_schema = "";
  tags = [];
  trace_id = "";
}

abbrev old : Record
old = record {
  internal_id = "id-0";
  idempotency_key = "k1";
  transaction_ref = "T1";
  source_system = "erp";
  adapter_type = "grpc";
  amount = "10";
  currency = "INR";
  record_timestamp = none;
  server_received_at = 1;
  raw_payload = 123 ∷ 125 ∷ [];
  payload_schema = "";
  tags = [];
  trace_id = "";
  status = "PENDING";
}

abbrev full : Tables
full = record { idempotency = []; records = old ∷ []; dlq = [] }

pipeline_iff_example :
    ((ingestion_pipeline libs 100 rec).0 ≡ ok tt)
    ↔ (IsValid libs 100 rec × HasReadableAmount libs rec.raw_payload)
pipeline_iff_example = pipeline_iff libs 100 rec

abbrev other : IngestRequest
other = record req { idempotency_key = "k2"; transaction_ref = "T2" }

-- Another key, a clean-up, and the same key once more.
abbrev between : List Event
between = Event.submitted env other ∷ Event.purged later ∷ Event.submitted later bare ∷ []

submit_record_once_example :
    submit_record libs 10 later bare
      (happen libs 10 between (submit_record libs 10 env req empty).1)
    ≡ (ok (accepted "id-1"), happen libs 10 between (submit_record libs 10 env req empty).1)
unfolding submit_record ingestion_pipeline proto_to_record matches_tx_ref
submit_record_once_example =
    submit_record_once libs 10 env later req bare between empty (accepted "id-1") refl
      (unfold find in refl) (unfold find in refl) refl (omega arith) refl refl refl (omega arith)

resubmit_after_expiry_example :
    ((submit_record libs 10 env req full).0 ≡ ok (accepted "id-1"))
    × ((submit_record libs 10 env req full).1.records ≡ full.records)
unfolding ingestion_pipeline proto_to_record matches_tx_ref get_response
resubmit_after_expiry_example =
    resubmit_after_expiry libs 10 env req full key_not_found old refl (unfold find in refl)
      (unfold find in refl) refl (unfold find in refl)

submit_record-accounted_example :
    IsStored bare (submit_record libs 10 env bare empty).1
    ⊎ IsDeadLetter bare empty (submit_record libs 10 env bare empty).1
unfolding get_response
submit_record-accounted_example =
    submit_record-accounted libs 10 env bare empty key_not_found refl (unfold find in refl) refl

abbrev cached : IdempotencyRow
cached = record {
  idempotency_key = "k1";
  response = cached_success env "id-0";
  source_system = "erp";
  expires_at = 90;
}

abbrev expired : Tables
expired = record empty { idempotency = cached ∷ [] }

abbrev letter : Entry
letter = dead_letter env rec "validate" "invalid_format"

abbrev spent : Entry
spent = record letter { id = 2; retry_count = 3 }
