-- ===== src/Resolution/Service/Stale.antt =====
-- cmd/main.go: a request that comes in between the fetch of a batch and the retry of its entry.
use reconx.Base.{◌+◌, String, true, ◌≡◌, refl, ap, sym, subst, some, List, ◌∷◌, leb, eq_refl}
use reconx.Base.Exec.{ok}
use reconx.Base.Table.{find}
use reconx.Proto.{mismatched}
use reconx.Resolution.Tables.{ReconState, RetryQueueRow, Database, Env}
use reconx.Resolution.Queries.States.{state_key}
use reconx.Resolution.Strategy.{Strategy, Resolved, parse_strategy, resolve}
use reconx.Resolution.Manual.{ResolutionRequest, resolve_manually}
use reconx.Resolution.Manual.Outcome.{
  IsAccepted, manual_record, status_of, resolution_for, resolve_manually_writes,
}
use reconx.Resolution.Api.{ApiConfig}
use reconx.Resolution.Api.Server.{Libs}
use reconx.Resolution.Worker.{
  proto_status_to_string, on_status, Engine, RetryConfig, AutoResolveConfig, retry_one,
}
use reconx.Resolution.Worker.Attempt.{row_of}
use reconx.Resolution.Worker.Exhausted.{ApplyWorks, worker_record, handle_exhausted_lem}
use reconx.Resolution.Service.{
  Service, serving, is_cancelled, is_grpc_open, on_database, Step, serve_rpc, retry,
}

module _ (libs : Libs) (quote : String → String) (engine : Engine) (api_cfg : ApiConfig)
    (cfg : RetryConfig) (auto_cfg : AutoResolveConfig) where
  retry_one-decides :
      (env : Env) (works : ApplyWorks env) (entry queued : RetryQueueRow) (strategy : Strategy)
      (result : Resolved) (db after : Database) (state : ReconState)
      → auto_cfg.auto_apply_on_exhaustion ≡ true
      → parse_strategy auto_cfg.default_strategy ≡ some strategy
      → leb entry.max_attempts (entry.attempt_count + 1) ≡ true
      → engine entry.transaction_ref db ≡ (some mismatched, after)
      → (resolve quote env entry.transaction_ref strategy auto_cfg.source_priority after).0
        ≡ ok result
      → find state_key entry.transaction_ref after.recon_state ≡ some state
      → row_of after entry.transaction_ref ≡ some queued
      → resolution_for (retry_one quote engine cfg auto_cfg env entry db).1 entry.transaction_ref
        ≡ some (worker_record env entry.transaction_ref result)
  unfolding retry_one on_status proto_status_to_string
  retry_one-decides env works entry queued strategy result db after state auto parsed last answer
        decided found in_queue =
      rw (answer, last)
        (handle_exhausted_lem quote engine cfg auto_cfg env works entry.transaction_ref
          (entry.attempt_count + 1) strategy result after state queued auto parsed decided found
          in_queue).1

  -- The worker overrules a person. An accepted request for a transaction whose entry the worker has
  -- fetched and not yet retried leaves it RESOLVED by its own decision, and the retry that follows
  -- replaces the decision by the strategy's: where the entry is at its last attempt, the worker may
  -- apply its strategy, and the engine, which is asked all the same, answers MISMATCHED over tables
  -- in which the strategy decides. The statements of the retry succeed.
  pub stale_overrules :
      (s : Service) (env later : Env) (req : ResolutionRequest) (entry queued : RetryQueueRow)
      (rest : List RetryQueueRow) (strategy : Strategy) (result : Resolved) (after : Database)
      (state : ReconState)
      → s.phase ≡ serving
      → s.batch ≡ entry ∷ rest
      → IsAccepted env req s.api.state
      → req.transaction_ref ≡ entry.transaction_ref
      → ApplyWorks later
      → auto_cfg.auto_apply_on_exhaustion ≡ true
      → parse_strategy auto_cfg.default_strategy ≡ some strategy
      → leb entry.max_attempts (entry.attempt_count + 1) ≡ true
      → engine entry.transaction_ref (resolve_manually env req s.api.state).1
        ≡ (some mismatched, after)
      → (resolve quote later entry.transaction_ref strategy auto_cfg.source_priority after).0
        ≡ ok result
      → find state_key entry.transaction_ref after.recon_state ≡ some state
      → row_of after entry.transaction_ref ≡ some queued
      → (t : Service) × (u : Service) × Step libs quote engine api_cfg cfg auto_cfg s t
        × Step libs quote engine api_cfg cfg auto_cfg t u
        × (status_of t.api.state req.transaction_ref ≡ some "RESOLVED")
        × (resolution_for t.api.state req.transaction_ref ≡ some (manual_record env req))
        × (resolution_for u.api.state req.transaction_ref
            ≡ some (worker_record later entry.transaction_ref result))
  stale_overrules s env later req entry queued rest strategy result after state phase batch accepted
        same works auto parsed last answer decided found in_queue =
      let db : Database = (resolve_manually env req s.api.state).1 in
      let t : Service = on_database db s in
      let written = resolve_manually_writes env req s.api.state accepted req.transaction_ref in
      (
        t,
        on_database (retry_one quote engine cfg auto_cfg later entry db).1
            (record t { batch = rest }),
        serve_rpc env req (ap is_grpc_open phase) refl,
        retry later entry rest (ap is_cancelled phase) batch refl,
        (rw (eq_refl req.transaction_ref) at written.0),
        (rw (eq_refl req.transaction_ref) at written.1),
        subst
            (λ k.
              resolution_for (retry_one quote engine cfg auto_cfg later entry db).1 k
              ≡ some (worker_record later entry.transaction_ref result))
            (sym same)
            (retry_one-decides later works entry queued strategy result db after state auto parsed
              last answer decided found in_queue),
      )
