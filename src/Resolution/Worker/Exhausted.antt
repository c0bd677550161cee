-- ===== src/Resolution/Worker/Exhausted.antt =====
-- worker.go, handleExhausted: the last attempt, where a strategy settles what the engine did not.
use reconx.Base.{ℕ, ◌+◌, String, true, false, ◌≡◌, refl, some, List, leb, arith}
use reconx.Base.Exec.{ok}
use reconx.Base.Table.{find, modify, find-modify_self}
use reconx.Proto.{mismatched}
use reconx.Resolution.Tables.{
  ReconState, ResolutionRecord, RetryQueueRow, AuditLogRow, Database, Call, Env,
}
use reconx.Resolution.Queries.States.{state_key, resolution_of, set_resolved}
use reconx.Resolution.Queries.Decided.{find-decided}
use reconx.Resolution.Queries.Retries.{retry_key, with_status}
use reconx.Resolution.Queries.Sources.{
  get_sources_by_latest, get_sources_by_first, get_source_by_highest_amount,
  get_source_by_lowest_amount, get_present_sources,
}
use reconx.Resolution.Strategy.{
  Strategy, source_priority, latest_record, highest_amount, lowest_amount, first_submitted,
  strategy_name, parse_strategy, Resolved, resolve,
}
use reconx.Resolution.Strategy.Winner.{resolve_reads}
use reconx.Resolution.Manual.Outcome.{status_of, resolution_for}
use reconx.Resolution.Worker.{
  Engine, RetryConfig, AutoResolveConfig, handle_exhausted, auto_resolve_exhausted,
  apply_auto_resolution, retry_one, on_status, proto_status_to_string,
}
use reconx.Resolution.Worker.Attempt.{row_of}

-- The statements of the last attempt succeed.
pub record ApplyWorks (env : Env) : Type 0 where
  pub exhausts : env.fails Call.exhaust ≡ false
  pub inserts : env.fails Call.insert_resolution ≡ false
  pub updates : env.fails Call.update_state ≡ false
  pub resolves : env.fails Call.resolve ≡ false

-- The decision that the worker records.
abbrev pub worker_record : Env → String → Resolved → ResolutionRecord
worker_record env tx_ref result =
    resolution_of env tx_ref "AUTO" result.chosen_source result.reason "system:retry_worker"
      (strategy_name result.strategy)

-- What a strategy decides does not depend on the retry queue or the audit log.
resolve_frame :
    (quote : String → String) (env : Env) (tx_ref : String) (strategy : Strategy)
    (priorities : String) (queue : List RetryQueueRow) (log : List AuditLogRow) (db : Database)
    → (resolve quote env tx_ref strategy priorities
        (record db { retry_queue = queue; audit_log = log })).0
      ≡ (resolve quote env tx_ref strategy priorities db).0
unfolding resolve get_sources_by_latest get_sources_by_first get_source_by_highest_amount
    get_source_by_lowest_amount get_present_sources
resolve_frame quote env tx_ref source_priority priorities queue log db = ground arith
resolve_frame quote env tx_ref latest_record priorities queue log db = ground arith
resolve_frame quote env tx_ref highest_amount priorities queue log db = ground arith
resolve_frame quote env tx_ref lowest_amount priorities queue log db = ground arith
resolve_frame quote env tx_ref first_submitted priorities queue log db = ground arith

module _ (quote : String → String) (engine : Engine) (cfg : RetryConfig)
    (auto_cfg : AutoResolveConfig) (env : Env) (works : ApplyWorks env) where
  pub handle_exhausted_lem :
      (tx_ref : String) (attempt : ℕ) (strategy : Strategy) (result : Resolved) (db : Database)
      (state : ReconState) (entry : RetryQueueRow)
      → auto_cfg.auto_apply_on_exhaustion ≡ true
      → parse_strategy auto_cfg.default_strategy ≡ some strategy
      → (resolve quote env tx_ref strategy auto_cfg.source_priority db).0 ≡ ok result
      → find state_key tx_ref db.recon_state ≡ some state
      → row_of db tx_ref ≡ some entry
      → (status_of (handle_exhausted quote engine cfg auto_cfg env tx_ref attempt db).1 tx_ref
          ≡ some "RESOLVED")
        × (resolution_for
              (handle_exhausted quote engine cfg auto_cfg env tx_ref attempt db).1
              tx_ref
            ≡ some (worker_record env tx_ref result))
        × (row_of (handle_exhausted quote engine cfg auto_cfg env tx_ref attempt db).1 tx_ref
            ≡ some (with_status "RESOLVED" entry))
  unfolding handle_exhausted auto_resolve_exhausted apply_auto_resolution
  handle_exhausted_lem tx_ref attempt strategy result db state entry auto parsed decided found
        queued =
      rw
        (
          works.exhausts,
          auto,
          parsed,
          resolve_frame quote env tx_ref strategy auto_cfg.source_priority _ _ db,
          decided,
          resolve_reads quote env tx_ref strategy auto_cfg.source_priority _,
          works.inserts,
          works.updates,
          works.resolves,
        )
        (
          rw (find-modify_self state_key tx_ref (set_resolved env) db.recon_state (λ _. refl) found)
              refl,
          find-decided (worker_record env tx_ref result) db.resolution_records,
          find-modify_self retry_key tx_ref (with_status "RESOLVED")
              (modify retry_key tx_ref (with_status "EXHAUSTED") db.retry_queue) (λ _. refl)
              (find-modify_self retry_key tx_ref (with_status "EXHAUSTED") db.retry_queue
                (λ _. refl) queued),
        )

  -- Where the engine still answers MISMATCHED to an attempt that reaches the limit, and the worker may
  -- apply its strategy, and the strategy decides, then the transaction is RESOLVED by that decision,
  -- and so is its entry of the queue. The statements involved succeed.
  pub retry_one-applies :
      (entry : RetryQueueRow) (strategy : Strategy) (result : Resolved) (db after : Database)
      (state : ReconState)
      → auto_cfg.auto_apply_on_exhaustion ≡ true
      → parse_strategy auto_cfg.default_strategy ≡ some strategy
      → leb entry.max_attempts (entry.attempt_count + 1) ≡ true
      → engine entry.transaction_ref db ≡ (some mismatched, after)
      → (resolve quote env entry.transaction_ref strategy auto_cfg.source_priority after).0
        ≡ ok result
      → find state_key entry.transaction_ref after.recon_state ≡ some state
      → row_of after entry.transaction_ref ≡ some entry
      → (status_of (retry_one quote engine cfg auto_cfg env entry db).1 entry.transaction_ref
          ≡ some "RESOLVED")
        × (resolution_for (retry_one quote engine cfg auto_cfg env entry db).1 entry.transaction_ref
            ≡ some (worker_record env entry.transaction_ref result))
        × (row_of (retry_one quote engine cfg auto_cfg env entry db).1 entry.transaction_ref
            ≡ some (with_status "RESOLVED" entry))
  unfolding retry_one on_status proto_status_to_string
  retry_one-applies entry strategy result db after state auto parsed last answer decided found
        queued =
      rw (answer, last)
        (handle_exhausted_lem entry.transaction_ref (entry.attempt_count + 1) strategy result after
          state entry auto parsed decided found queued)
