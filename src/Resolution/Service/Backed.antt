-- ===== src/Resolution/Service/Backed.antt =====
-- cmd/main.go: what the service maintains over its whole run.
use mathlib.Core.Option.{some-injective}
use reconx.Base.{
  String, ◌≡◌, sym, ap, subst, Bool-cases, inl, inr, some, List, [], ◌∷◌, ◌++◌, All, All-Memᴰ, ◌&&◌,
}
use reconx.Base.Int.{int32}
use reconx.Base.Counter.{Observed}
use reconx.Resolution.Tables.{ReconState, ResolutionRecord, AuditLogRow, Database, Env}
use reconx.Resolution.Api.{ApiConfig}
use reconx.Resolution.Api.Server.{
  get_retry_queue_route, get_audit_trail_route, enqueue_retry_route, auto_resolve_route, ApiRequest,
  Libs, register_routes, auto_resolve_route, enqueue_retry_route, get_audit_trail_route,
  get_retry_queue_route, list_mismatches_route,
}
use reconx.Resolution.Worker.{Engine, RetryConfig, AutoResolveConfig}
use reconx.Resolution.Service.{
  Service, Startup, start_up, WasResolved, EngineWrites, Step, serve_rpc, serve_http, fetch, retry,
  engine_write, advance, Reach, here, next,
}
use reconx.Base.Table.{IsKeyed}
use reconx.Resolution.Queries.States.{resolution_key}
use reconx.Resolution.Queries.Retries.{retry_key}
use reconx.Resolution.Service.Safe.{IsDistinct, IsDecided, IsBacked, Grows, Grows-refl, Grows-trans}
use reconx.Resolution.Service.Handlers.{
  resolve_manually-IsSafe, auto_resolve-IsSafe, enqueue_handler-IsSafe,
}
use reconx.Resolution.Service.Reading.{
  audit_handler-IsSafe, retry_queue_handler-IsSafe, mismatches_handler-IsSafe,
}
use reconx.Resolution.Service.Retrying.{retry_one-Grows}

still_backed :
    (rows : List ResolutionRecord) (old new : List ReconState)
    → All (λ r. r.status ≡ "RESOLVED" → WasResolved r.transaction_ref old) new
    → All (λ r. r.status ≡ "RESOLVED" → IsDecided rows r.transaction_ref) old
    → All (λ r. r.status ≡ "RESOLVED" → IsDecided rows r.transaction_ref) new
still_backed rows old [] was b = tt
still_backed rows old (r ∷ rs) was b = (
  λ e.
      let (before, found, resolved, same) = was.0 e in
      subst (IsDecided rows) same (All-Memᴰ _ found b resolved),
  still_backed rows old rs was.1 b,
)

EngineWrites-Grows : (s t : Database) → EngineWrites s t → Grows s t
EngineWrites-Grows s t w = record {
  log = w.log;
  decided = λ k d. subst (λ rows. IsDecided rows k) (sym w.decisions) d;
  backed = λ b.
      subst
        (λ rows. All (λ r. r.status ≡ "RESOLVED" → IsDecided rows r.transaction_ref) t.recon_state)
        (sym w.decisions)
        (still_backed s.resolution_records s.recon_state t.recon_state w.unresolved b);
  distinct = λ d. record {
    queue = subst (IsKeyed retry_key) (sym w.queue) d.queue;
    decisions = subst (IsKeyed resolution_key) (sym w.decisions) d.decisions;
  };
}

module _ (libs : Libs) (quote : String → String) (cfg : ApiConfig) (env : Env) where
  register_routes-Grows :
      All
        (λ route.
          (req : ApiRequest) (o : Observed Database) → Grows o.state (route.1 req o).1.state)
        (register_routes libs quote cfg env)
  unfolding register_routes auto_resolve_route enqueue_retry_route get_audit_trail_route
      get_retry_queue_route list_mismatches_route
  register_routes-Grows = (
    λ req o. (auto_resolve-IsSafe quote cfg env req.ref (libs.decode_auto req.body)).at o.state,
    (
      λ req o. (enqueue_handler-IsSafe cfg env req.ref (libs.decode_retry req.body)).at o.state,
      (
        λ req o. (audit_handler-IsSafe env req.ref).at o.state,
        (
          λ req o.
              (retry_queue_handler-IsSafe env (libs.atoi (req.query "page_size"))
                  (req.query "page_token") (req.query "status")).at
                o.state,
          (
            λ req o.
                (mismatches_handler-IsSafe env (int32 (libs.parse_int_32 (req.query "page_size")))
                    (req.query "page_token") (req.query "source")).at
                  o.state,
            (λ req o. Grows-refl o.state, tt),
          ),
        ),
      ),
    ),
  )

start_up-state :
    (cfg : RetryConfig) (startup : Startup) (db : Database) (s : Service)
    → start_up cfg startup db ≡ some s
    → s.api.state ≡ db
unfolding start_up
start_up-state cfg startup db s e =
    elim (Bool-cases
      (startup.configured && startup.opened && startup.migrated && startup.listening)) [
        | inl b ↦ ap (λ (u : Service). u.api.state) (sym (some-injective _ _ (rw b at e)))
        | inr b ↦ absurd (let k = rw b at e in cc)
      ]

module _ (libs : Libs) (quote : String → String) (engine : Engine) (api_cfg : ApiConfig)
    (cfg : RetryConfig) (auto_cfg : AutoResolveConfig)
    (lawful : (tx_ref : String) (db : Database) → EngineWrites db (engine tx_ref db).1) where
  Step-Grows :
      (s t : Service)
      → Step libs quote engine api_cfg cfg auto_cfg s t
      → Grows s.api.state t.api.state
  Step-Grows s t (serve_rpc env req is_open e) =
      subst (λ (u : Service). Grows s.api.state u.api.state) (sym e)
        ((resolve_manually-IsSafe env req).at s.api.state)
  Step-Grows s t (serve_http env route req is_open member e) =
      subst (λ (u : Service). Grows s.api.state u.api.state) (sym e)
        (All-Memᴰ _ member (register_routes-Grows libs quote api_cfg env) req s.api)
  Step-Grows s t (fetch env pending on alive none_left found e) =
      subst (λ (u : Service). Grows s.api.state u.api.state) (sym e) (Grows-refl s.api.state)
  Step-Grows s t (retry env entry rest alive found e) =
      subst (λ (u : Service). Grows s.api.state u.api.state) (sym e)
        (retry_one-Grows quote engine cfg auto_cfg
          (λ tx_ref db. EngineWrites-Grows db (engine tx_ref db).1 (lawful tx_ref db)) env entry
          s.api.state)
  Step-Grows s t (engine_write db w e) =
      subst (λ (u : Service). Grows s.api.state u.api.state) (sym e)
        (EngineWrites-Grows s.api.state db w)
  Step-Grows s t (advance e) =
      subst (λ (u : Service). Grows s.api.state u.api.state) (sym e) (Grows-refl s.api.state)

  Reach-Grows :
      (s t : Service)
      → Reach libs quote engine api_cfg cfg auto_cfg s t
      → Grows s.api.state t.api.state
  Reach-Grows s t here = Grows-refl s.api.state
  Reach-Grows s u (next {t} r step) = Grows-trans (Reach-Grows s t r) (Step-Grows t u step)

  -- Whatever requests, retries and writes of the engine follow one another in a service that has
  -- started, and whichever statements fail: if every RESOLVED transaction had a decision on record,
  -- every one still has; a transaction that had a decision has one; if none had two entries in the
  -- queue or two decisions, none has; and the audit log is what it was, with later entries behind. The
  -- engine appends to the log, leaves the decisions and the queue, and makes no transaction RESOLVED.
  pub start_up-IsBacked :
      (startup : Startup) (db : Database) (s t : Service)
      → start_up cfg startup db ≡ some s
      → IsBacked db
      → Reach libs quote engine api_cfg cfg auto_cfg s t
      → IsBacked t.api.state
        × ((k : String)
            → IsDecided db.resolution_records k
            → IsDecided t.api.state.resolution_records k)
        × (IsDistinct db → IsDistinct t.api.state)
        × ((later : List AuditLogRow) × (t.api.state.audit_log ≡ db.audit_log ++ later))
  start_up-IsBacked startup db s t started backed r =
      let g : Grows db t.api.state =
        subst (λ d. Grows d t.api.state) (start_up-state cfg startup db s started)
          (Reach-Grows s t r) in
      (g.backed backed, g.decided, g.distinct, g.log)
