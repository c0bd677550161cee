-- ===== src/Resolution/Examples/Running.antt =====
-- The theorems on the service as a whole, at concrete states.
use mathlib.Core.List.{append-nil}
use reconx.Base.{String, ◌≡◌, refl, sym, true, some, List, [], ◌∷◌, ◌++◌, All, Memᴰ, All-self}
use reconx.Base.Int.{pos}
use reconx.Base.Order.{sort}
use reconx.Base.Table.{find, modify}
use reconx.Proto.{mismatched}
use reconx.Resolution.Tables.{ReconState, RetryQueueRow, AuditLogRow, Database}
use reconx.Resolution.Strategy.{Resolved, latest_record, parse_strategy, resolve}
use reconx.Resolution.Queries.Sources.{get_sources_by_latest}
use reconx.Resolution.Manual.{resolve_manually}
use reconx.Resolution.Manual.Outcome.{manual_record, status_of, resolution_for}
use reconx.Resolution.Api.{Body}
use reconx.Resolution.Api.Server.{Libs}
use reconx.Resolution.Worker.{Engine, RetryConfig, AutoResolveConfig}
use reconx.Resolution.Worker.Exhausted.{worker_record}
use reconx.Resolution.Service.{
  Service, Startup, serving, start_up, WasResolved, EngineWrites, on_database, Step, serve_rpc,
  here, next,
}
use reconx.Resolution.Service.Safe.{IsDecided, IsBacked, IsDistinct}
use reconx.Resolution.Service.Backed.{start_up-IsBacked}
use reconx.Resolution.Service.Stale.{stale_overrules}
use reconx.Resolution.Examples.{quoted, env, db, t1, t2, entry, request, api_config}

abbrev libs : Libs
libs = record {
  decode_auto = λ _. Body.no_body;
  decode_retry = λ _. Body.no_body;
  atoi = λ _. pos 0;
  parse_int_32 = λ _. pos 0;
}

abbrev retries : RetryConfig
retries = record {
  enabled = true;
  poll_interval_secs = 30;
  max_attempts = 5;
  base_backoff_secs = 30;
  max_backoff_secs = 3600;
  batch_size = 50;
}

abbrev applying : AutoResolveConfig
applying = record {
  default_strategy = "latest_record";
  source_priority = "";
  auto_apply_on_exhaustion = true;
}

-- The engine sets the transaction back and finds it MISMATCHED again.
abbrev reopening : Engine
reopening tx_ref d = (some mismatched, record d { recon_state = t1 ∷ t2 ∷ [] })

-- An engine that writes nothing.
abbrev idle : Engine
idle tx_ref d = (some mismatched, d)

was_resolved :
    (states all : List ReconState)
    → All (λ r. Memᴰ r all) states
    → All (λ r. r.status ≡ "RESOLVED" → WasResolved r.transaction_ref all) states
was_resolved [] all h = tt
was_resolved (r ∷ rs) all h = (λ e. (r, h.0, e, refl), was_resolved rs all h.1)

unchanged : (d : Database) → EngineWrites d d
unchanged d = record {
  log = ([], sym (append-nil _));
  decisions = refl;
  queue = refl;
  unresolved = was_resolved d.recon_state d.recon_state (All-self d.recon_state);
}

abbrev ready : Startup
ready = record {
  configured = true;
  opened = true;
  migrated = true;
  listening = true;
  engine_dialled = true;
}

abbrev started : Service
started = record {
  phase = serving;
  api = record { state = db; http_requests_total = λ _ _ _. 0 };
  working = true;
  batch = [];
}

abbrev answered : Service
answered = on_database (resolve_manually env request db).1 started

start_up-IsBacked_example :
    IsBacked answered.api.state
    × ((k : String)
        → IsDecided db.resolution_records k
        → IsDecided answered.api.state.resolution_records k)
    × (IsDistinct db → IsDistinct answered.api.state)
    × ((later : List AuditLogRow) × (answered.api.state.audit_log ≡ db.audit_log ++ later))
unfolding start_up
start_up-IsBacked_example =
    start_up-IsBacked libs quoted idle api_config retries applying (λ _ d. unchanged d) ready db
      started answered refl ((λ e. absurd cc), ((λ e. absurd cc), tt))
      (next here (serve_rpc env request refl refl))

abbrev last_entry : RetryQueueRow
last_entry = record entry { attempt_count = 1 }

abbrev last_db : Database
last_db = record db { retry_queue = last_entry ∷ [] }

abbrev fetched : Service
fetched = record (on_database last_db started) { batch = last_entry ∷ [] }

abbrev latest : Resolved
latest = record {
  chosen_source = "bank";
  strategy = latest_record;
  reason = "latest_record: bank submitted most recently";
}

stale_overrules_example :
    (t : Service) × (u : Service) × Step libs quoted reopening api_config retries applying fetched t
    × Step libs quoted reopening api_config retries applying t u
    × (status_of t.api.state "T1" ≡ some "RESOLVED")
    × (resolution_for t.api.state "T1" ≡ some (manual_record env request))
    × (resolution_for u.api.state "T1" ≡ some (worker_record env "T1" latest))
unfolding resolve_manually parse_strategy resolve get_sources_by_latest sort find modify
stale_overrules_example =
    stale_overrules libs quoted reopening api_config retries applying fetched env env request
      last_entry (record last_entry { status = "RESOLVED" }) [] latest_record latest
      (reopening "T1" (resolve_manually env request last_db).1).1 t1 refl refl
      (record {
        has_ref = λ e. cc;
        has_source = λ e. cc;
        has_resolver = λ e. cc;
        readable = refl;
        insertable = refl;
        updatable = refl;
        state = t1;
        found = refl;
        not_pending = λ e. cc;
        not_matched = λ e. cc;
      })
      refl (record { exhausts = refl; inserts = refl; updates = refl; resolves = refl }) refl refl
      refl refl refl refl refl
