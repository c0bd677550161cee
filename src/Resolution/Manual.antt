-- ===== src/Resolution/Manual.antt =====
-- services/resolution/internal/server/server.go: the gRPC server. Metrics, log lines and the texts of
-- errors are left out.
pub mod Outcome
pub mod Failure
pub mod Stream
use reconx.Base.{
  ℕ, ◌-◌, ◌/◌, ◌*◌, ◌^◌, String, Bool, true, ◌||◌, Option, none, some, List, [], ◌∷◌, ◌==◌,
  if◌then◌else◌,
}
use reconx.Base.Exec.{Result, ok, err, pure, ◌>>=◌, ◌>>◌, ◌or_raise◌, ignored, reject_if}
use reconx.Base.Int.{ℤ}
use reconx.Proto.{
  ReconStatus, mismatched, resolved, Code, invalid_argument, not_found, failed_precondition,
  internal, StateResponse,
}
use reconx.Proto as P
use reconx.Resolution.Tables.{Database, Env, DbError, no_rows, failed, Db, Value, text}
use reconx.Resolution.Queries.States.{
  get_recon_state, update_recon_state_to_resolved, insert_resolution_record,
}
use reconx.Resolution.Queries.Audit.{insert_audit_log}
use reconx.Resolution.Queries.Retries.{mark_retry_resolved}
use reconx.Resolution.Queries.Mismatches.{MatchDetail, MismatchedRow, list_mismatched}

pub record ResolutionRequest : Type 0 where
  pub transaction_ref : String
  pub chosen_source : String
  pub resolution_reason : String
  pub resolver_id : String

pub record ResolutionResponse : Type 0 where
  pub success : Bool
  pub new_status : ReconStatus

abbrev pub state_error : DbError → Code
state_error no_rows = not_found
state_error failed = internal

-- A transaction that is still PENDING, or MATCHED, is not for a resolution.
abbrev pub is_unresolvable : String → Bool
is_unresolvable status = status == "PENDING" || status == "MATCHED"

abbrev pub manual_details : ResolutionRequest → List (String × Value)
manual_details req =
    ("chosen_source", text req.chosen_source)
    ∷ ("resolver_id", text req.resolver_id)
    ∷ ("resolution_reason", text req.resolution_reason)
    ∷ []

unfoldable pub resolve_manually : Env → ResolutionRequest → Db Code ResolutionResponse
unfolding get_recon_state insert_resolution_record update_recon_state_to_resolved
    mark_retry_resolved insert_audit_log
resolve_manually env req = do
  reject_if (req.transaction_ref == "") invalid_argument
  reject_if (req.chosen_source == "") invalid_argument
  reject_if (req.resolver_id == "") invalid_argument
  state ← get_recon_state env req.transaction_ref or_raise state_error
  reject_if (is_unresolvable state.status) failed_precondition
  insert_resolution_record env req.transaction_ref "MANUAL" req.chosen_source req.resolution_reason
        req.resolver_id ""
      or_raise λ _. internal
  update_recon_state_to_resolved env req.transaction_ref or_raise λ _. internal
  ignored (mark_retry_resolved env req.transaction_ref)
  ignored (
      insert_audit_log env req.transaction_ref "MANUAL_RESOLUTION" state.status "RESOLVED"
        (manual_details req))
  pure (record { success = true; new_status = resolved })

-- The Unix epoch, in nanoseconds since the zero time.
abbrev pub unix_epoch : ℕ
unix_epoch = 62135596800 * 10 ^ 9

abbrev pub unix_milli : ℕ → ℕ
unix_milli t = (t - unix_epoch) / 1000000

unfoldable pub proto_details : List MatchDetail → List P.MatchDetail
proto_details [] = []
proto_details (d ∷ ds) =
    record { system_name = d.system_name; discrepancy_found = d.discrepancy_found }
    ∷ proto_details ds

unfoldable pub state_response : MismatchedRow → StateResponse
unfolding proto_details
state_response row = record {
  transaction_ref = row.transaction_ref;
  status = mismatched;
  details = proto_details row.details;
  last_updated = unix_milli row.last_updated;
}

pub record FilterRequest : Type 0 where
  pub page_size : ℤ
  pub page_token : String
  pub source_filter : String

pub data StreamError : Type 0 where
  database_error : StreamError
  send_error : StreamError

-- The loop that sends: `broken` says which messages the stream refuses. What was sent comes back
-- with the error, if one ended the loop.
unfoldable pub send_rows :
    (StateResponse → Bool) → List MismatchedRow → List StateResponse × Option StreamError
send_rows broken [] = ([], none)
send_rows broken (row ∷ rows) =
    let (sent, error) = send_rows broken rows in
    if broken (state_response row)
    then ([], some send_error)
    else (state_response row ∷ sent, error)

abbrev pub sent_of :
    (StateResponse → Bool)
    → Result DbError (List MismatchedRow)
    → List StateResponse × Option StreamError
sent_of broken (ok rows) = send_rows broken rows
sent_of broken (err e) = ([], some database_error)

unfoldable pub list_mismatches :
    Env
    → (StateResponse → Bool)
    → FilterRequest
    → Database
    → List StateResponse × Option StreamError
unfolding send_rows state_response list_mismatched
list_mismatches env broken req db =
    sent_of broken (list_mismatched env req.page_size req.page_token req.source_filter db).0
