-- ===== src/Resolution/Examples/Decisions.antt =====
-- The theorems on manual and automatic resolution, at concrete requests.
use reconx.Base.{◌==◌, ◌≡◌, refl, ◌↔◌, ◌⊎◌, true, some, arith, ◌==◌, if◌then◌else◌}
use reconx.Base.Exec.{ok}
use reconx.Base.Table.{find, upsert}
use reconx.Proto.{resolved, internal, failed_precondition}
use reconx.Resolution.Tables.{Call}
use reconx.Resolution.Queries.States.{resolution_key, decided_again}
use reconx.Resolution.Manual.{ResolutionRequest, resolve_manually}
use reconx.Resolution.Manual.Outcome.{
  IsAccepted, resolve_manually_iff, resolve_manually_writes, status_of, resolution_for,
  manual_record,
}
use reconx.Resolution.Manual.Failure.{resolve_manually_error}
use reconx.Resolution.Strategy.{parse_strategy, resolve}
use reconx.Resolution.Queries.Sources.{get_sources_by_latest}
use reconx.Base.Order.{sort}
use reconx.Resolution.Api.{Body, AutoResolveResponse, auto_resolve, auto_request}
use reconx.Resolution.Api.Auto.{IsDecided, auto_resolve_lem, auto_record}
use reconx.Resolution.Api.Refused.{auto_resolve_refused}
use reconx.Resolution.Examples.{
  quoted, env, t1, db, request, api_config, auto_request_1, bad_strategy,
}

abbrev accepted_request : IsAccepted env request db
accepted_request = record {
  has_ref = λ e. cc;
  has_source = λ e. cc;
  has_resolver = λ e. cc;
  readable = refl;
  insertable = refl;
  updatable = refl;
  state = t1;
  found = unfold find in refl;
  not_pending = λ e. cc;
  not_matched = λ e. cc;
}

resolve_manually_iff_example :
    ((resolve_manually env request db).0 ≡ ok (record { success = true; new_status = resolved }))
    ↔ IsAccepted env request db
resolve_manually_iff_example = resolve_manually_iff env request db

resolve_manually_writes_example :
    (status_of (resolve_manually env request db).1 "T1"
      ≡ (if "T1" == "T1" then some "RESOLVED" else status_of db "T1"))
    × (resolution_for (resolve_manually env request db).1 "T1"
        ≡ (if "T1" == "T1" then some (manual_record env request) else resolution_for db "T1"))
resolve_manually_writes_example = resolve_manually_writes env request db accepted_request "T1"

abbrev pending_request : ResolutionRequest
pending_request = record request { transaction_ref = "T2" }

resolve_manually_error_example :
    ((resolve_manually env pending_request db).1 ≡ db)
    ⊎ ((env.fails Call.update_state ≡ true)
        × (failed_precondition ≡ internal)
        × ((resolve_manually env pending_request db).1 ≡ record db {
          resolution_records =
              upsert resolution_key
                (manual_record env pending_request)
                (decided_again (manual_record env pending_request))
                db.resolution_records;
        }))
unfolding resolve_manually
resolve_manually_error_example =
    resolve_manually_error env pending_request db failed_precondition (unfold find in refl)

abbrev response : AutoResolveResponse
response = record {
  transaction_ref = "T1";
  chosen_source = "bank";
  strategy = "latest_record";
  reason = "latest_record: bank submitted most recently";
  resolved_at = 100;
}

auto_resolve_lem_example :
    (q : IsDecided quoted api_config env "T1" auto_request_1 db) × (status_of
        (auto_resolve quoted api_config env "T1" (Body.decoded auto_request_1) db).1
        "T1"
      ≡ (if "T1" == "T1" then some "RESOLVED" else status_of db "T1"))
    × (resolution_for
          (auto_resolve quoted api_config env "T1" (Body.decoded auto_request_1) db).1
          "T1"
        ≡ (if "T1" == "T1"
            then some (auto_record env "T1" q.strategy q.result auto_request_1)
            else resolution_for db "T1"))
unfolding auto_resolve parse_strategy auto_request resolve get_sources_by_latest sort
auto_resolve_lem_example =
    auto_resolve_lem quoted api_config env "T1" (Body.decoded auto_request_1) db response "T1"
      (unfold find in refl)

auto_resolve_refused_example :
    (auto_resolve quoted api_config env "T1" (Body.decoded bad_strategy) db).1 ≡ db
unfolding auto_resolve parse_strategy auto_request
auto_resolve_refused_example =
    auto_resolve_refused quoted api_config env "T1" (Body.decoded bad_strategy) db 400
      (unfold find in refl) λ e. omega arith
