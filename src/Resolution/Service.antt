-- ===== src/Resolution/Service.antt =====
-- services/resolution/cmd/main.go, main: the service from its start to its exit, as steps of its
-- goroutines in any order, between those of the engine on the same database. The worker takes a step
-- for each batch that it fetches and one for each entry of it, so that requests come in between; it
-- starts on none after the signal. A request is one step. ListMismatches, which only reads, and the metrics server are left out.
pub mod Safe
pub mod Settling
pub mod Handlers
pub mod Reading
pub mod Retrying
pub mod Backed
pub mod Stale
use reconx.Base.{
  String, Bool, true, false, ◌&&◌, ◌≡◌, Option, none, some, List, [], ◌∷◌, ◌++◌, All, Memᴰ,
  if◌then◌else◌,
}
use reconx.Base.Exec.{ok}
use reconx.Base.Counter.{Observed}
use reconx.Resolution.Tables.{ReconState, AuditLogRow, RetryQueueRow, Database, Env}
use reconx.Resolution.Queries.Retries.{get_pending_retries}
use reconx.Resolution.Manual.{ResolutionRequest, resolve_manually}
use reconx.Resolution.Api.{ApiConfig}
use reconx.Resolution.Api.Server.{Libs, ApiRequest, Route, register_routes}
use reconx.Resolution.Worker.{Engine, RetryConfig, AutoResolveConfig, retry_one}

-- The stages of main: serving until the signal, then each call of the graceful shutdown.
pub data Phase : Type 0 where
  serving grpc_stopping http_stopping metrics_stopping : Phase
  engine_closing database_closing exited : Phase

abbrev pub next_phase : Phase → Phase
next_phase serving = grpc_stopping
next_phase grpc_stopping = http_stopping
next_phase http_stopping = metrics_stopping
next_phase metrics_stopping = engine_closing
next_phase engine_closing = database_closing
next_phase database_closing = exited
next_phase exited = exited

-- workerCancel is called at the signal.
abbrev pub is_cancelled : Phase → Bool
is_cancelled serving = false
is_cancelled _ = true

-- A gRPC request that is running may end during the call that stops the server. A REST request may
-- outlast the 30 seconds that the shutdown gives it.
abbrev pub is_grpc_open : Phase → Bool
is_grpc_open serving = true
is_grpc_open grpc_stopping = true
is_grpc_open _ = false

abbrev pub is_http_open : Phase → Bool
is_http_open exited = false
is_http_open _ = true

-- `api` holds the database and the counter of the REST API; `batch` is what the worker has fetched
-- and not yet retried.
pub record Service : Type 0 where
  pub phase : Phase
  pub api : Observed Database
  pub working : Bool
  pub batch : List RetryQueueRow

-- What is fatal at the start where it fails, and the dial of the engine, which is not. A ping of the
-- database that fails is not fatal either.
pub record Startup : Type 0 where
  pub configured : Bool
  pub opened : Bool
  pub migrated : Bool
  pub listening : Bool
  pub engine_dialled : Bool

-- The worker is started where retries are enabled and the engine was reached.
unfoldable pub start_up : RetryConfig → Startup → Database → Option Service
start_up cfg s db =
    if s.configured && s.opened && s.migrated && s.listening
    then some (record {
      phase = serving;
      api = record { state = db; http_requests_total = λ _ _ _. 0 };
      working = cfg.enabled && s.engine_dialled;
      batch = [];
    })
    else none

abbrev pub on_database : Database → Service → Service
on_database db s = record s {
  api = record { state = db; http_requests_total = s.api.http_requests_total };
}

-- A transaction of this reference was RESOLVED before.
abbrev pub WasResolved : String → List ReconState → Type 0
WasResolved ref states =
    (old : ReconState) × Memᴰ old states × (old.status ≡ "RESOLVED") × (old.transaction_ref ≡ ref)

-- What the engine does to the database by itself or for a client: it appends to the audit log, leaves
-- the decisions and the queue, which are this service's tables, and makes no transaction RESOLVED.
pub record EngineWrites (s t : Database) : Type 0 where
  pub log : (later : List AuditLogRow) × (t.audit_log ≡ s.audit_log ++ later)
  pub decisions : t.resolution_records ≡ s.resolution_records
  pub queue : t.retry_queue ≡ s.retry_queue
  pub unresolved :
      All (λ r. r.status ≡ "RESOLVED" → WasResolved r.transaction_ref s.recon_state) t.recon_state

module _ (libs : Libs) (quote : String → String) (engine : Engine) (api_cfg : ApiConfig)
    (cfg : RetryConfig) (auto_cfg : AutoResolveConfig) where
  pub data Step (s t : Service) : Type 0 where
    serve_rpc :
        (env : Env) (req : ResolutionRequest)
        → is_grpc_open s.phase ≡ true
        → t ≡ on_database (resolve_manually env req s.api.state).1 s
        → Step s t
    serve_http :
        (env : Env) (route : String × Route (Observed Database)) (req : ApiRequest)
        → is_http_open s.phase ≡ true
        → Memᴰ route (register_routes libs quote api_cfg env)
        → t ≡ record s { api = (route.1 req s.api).1 }
        → Step s t
    fetch :
        (env : Env) (pending : List RetryQueueRow)
        → s.working ≡ true
        → is_cancelled s.phase ≡ false
        → s.batch ≡ []
        → (get_pending_retries env cfg.batch_size s.api.state).0 ≡ ok pending
        → t ≡ record s { batch = pending }
        → Step s t
    retry :
        (env : Env) (entry : RetryQueueRow) (rest : List RetryQueueRow)
        → is_cancelled s.phase ≡ false
        → s.batch ≡ entry ∷ rest
        → t
          ≡ on_database
              (retry_one quote engine cfg auto_cfg env entry s.api.state).1
              (record s { batch = rest })
        → Step s t
    engine_write : (db : Database) → EngineWrites s.api.state db → t ≡ on_database db s → Step s t
    advance : t ≡ record s { phase = next_phase s.phase } → Step s t

  pub data Reach (s : Service) : Service → Type 0 where
    here : Reach s s
    next : {t u : Service} → Reach s t → Step t u → Reach s u
