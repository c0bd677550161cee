-- ===== src/Resolution/Examples.antt =====
-- Concrete tables of the Resolution Service, for the tests and examples of its children.
pub mod Texts
pub mod Decisions
pub mod Winners
pub mod Retrying
pub mod Paging
pub mod Running
use reconx.Base.{String, true, false, none, some, [], ◌∷◌}
use reconx.Base.Int.{pos}
use reconx.Resolution.Tables.{ReconState, RetryQueueRow, Database, Env, engine_columns}
use reconx.Resolution.Manual.{ResolutionRequest}
use reconx.Resolution.Api.{ApiConfig, AutoResolveRequest, EnqueueRetryRequest}

abbrev pub quoted : String → String
quoted s = s

abbrev pub env : Env
env = record {
  now = 100;
  fails = λ _. false;
  match_details_columns = engine_columns;
  text_ltb = λ _ _. false;
  numeric_leb = λ _ _. true;
}

abbrev pub t1 : ReconState
t1 = record { transaction_ref = "T1"; status = "MISMATCHED"; last_updated = 10 }

abbrev pub t2 : ReconState
t2 = record { transaction_ref = "T2"; status = "PENDING"; last_updated = 20 }

abbrev pub entry : RetryQueueRow
entry = record {
  transaction_ref = "T1";
  attempt_count = 0;
  max_attempts = 2;
  last_attempted_at = none;
  next_retry_at = 50;
  status = "PENDING";
  requested_by = "api";
  created_at = 50;
}

abbrev pub db : Database
db = record {
  recon_state = t1 ∷ t2 ∷ [];
  match_details =
      record {
        transaction_ref = "T1";
        system_name = "erp";
        source_system = "erp";
        discrepancy_found = true;
        amount = some "10.00";
      }
      ∷ [];
  ingestion_records =
      record { transaction_ref = "T1"; source_system = "erp"; server_received_at = 5 }
      ∷ record { transaction_ref = "T2"; source_system = "shop"; server_received_at = 6 }
      ∷ record { transaction_ref = "T1"; source_system = "bank"; server_received_at = 9 }
      ∷ [];
  resolution_records = [];
  retry_queue = entry ∷ [];
  audit_log = [];
}

abbrev pub done_entry : RetryQueueRow
done_entry = record entry { status = "RESOLVED" }

abbrev pub done_db : Database
done_db = record db { retry_queue = done_entry ∷ [] }

abbrev pub request : ResolutionRequest
request = record {
  transaction_ref = "T1";
  chosen_source = "bank";
  resolution_reason = "checked";
  resolver_id = "alice";
}

abbrev pub api_config : ApiConfig
api_config = record {
  default_strategy = "latest_record";
  source_priority = "bank,erp";
  max_attempts = 5;
}

abbrev pub auto_request_1 : AutoResolveRequest
auto_request_1 = record { strategy = "latest"; source_priority = ""; resolver_id = "" }

abbrev pub bad_strategy : AutoResolveRequest
bad_strategy = record { strategy = "cheapest"; source_priority = ""; resolver_id = "" }

abbrev pub retry_request : EnqueueRetryRequest
retry_request = record { requested_by = "bob"; max_attempts = pos 3 }
