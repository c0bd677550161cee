-- ===== src/Resolution/Worker.antt =====
-- services/resolution/internal/retry/worker.go: the background retry worker. The engine that it calls
-- is a parameter; metrics, gauges and log lines are left out.
pub mod Backoff
pub mod Attempt
pub mod Schedule
pub mod Exhausted
pub mod Aside
pub mod Idle
pub mod Stepped
use reconx.Base.{
  ℕ, zero, ◌+◌, ◌-◌, ◌*◌, ◌^◌, ◌%◌, String, Bool, ◌||◌, Option, none, some, List, [], ◌∷◌, ltb, leb,
  ◌==◌, if◌then◌else◌,
}
use reconx.Base.Exec.{Result, ok, err, pure, raise, ◌>>=◌, ◌>>◌, ◌or_raise◌, ignored}
use reconx.Proto.{ReconStatus, matched, mismatched, resolved}
use reconx.Resolution.Tables.{
  RetryQueueRow, Database, Env, DbError, Db, Value, text, number, flag, time,
}
use reconx.Resolution.Queries.States.{update_recon_state_to_resolved, insert_resolution_record}
use reconx.Resolution.Queries.Audit.{insert_audit_log}
use reconx.Resolution.Queries.Retries.{
  get_pending_retries, increment_retry_attempt, mark_retry_exhausted, mark_retry_resolved,
}
use reconx.Resolution.Strategy.{
  Strategy, strategy_name, parse_strategy, Resolved, ResolveError, resolve,
}

pub record RetryConfig : Type 0 where
  pub enabled : Bool
  pub poll_interval_secs : ℕ
  pub max_attempts : ℕ
  pub base_backoff_secs : ℕ
  pub max_backoff_secs : ℕ
  pub batch_size : ℕ

pub record AutoResolveConfig : Type 0 where
  pub default_strategy : String
  pub source_priority : String
  pub auto_apply_on_exhaustion : Bool

-- The gRPC call ReTriggerMatch: the engine works on the same database, and answers with the new
-- status, or fails.
abbrev pub Engine : Type 0
Engine = String → Database → Option ReconStatus × Database

unfoldable pub proto_status_to_string : ReconStatus → String
proto_status_to_string matched = "MATCHED"
proto_status_to_string mismatched = "MISMATCHED"
proto_status_to_string resolved = "RESOLVED"
proto_status_to_string _ = "PENDING"

-- Seconds of backoff before attempt + 1. The float64 product of the source is this number as long as
-- the base has at most 53 bits; the cap absorbs an infinite one.
unfoldable pub backoff_secs : RetryConfig → ℕ → ℕ
backoff_secs cfg attempt =
    let backoff = cfg.base_backoff_secs * 2 ^ (attempt - 1) in
    if ltb cfg.max_backoff_secs backoff then cfg.max_backoff_secs else backoff

-- `time.Duration(n) * time.Second`, an int64 of nanoseconds, as its bit pattern.
unfoldable pub seconds : ℕ → ℕ
seconds n = (n * 1000000000) % 2 ^ 64

-- `t.Add(d)` for such a pattern; times are nanoseconds since the zero time.
unfoldable pub add_duration : ℕ → ℕ → ℕ
add_duration t d = if ltb d (2 ^ 63) then t + d else t - (2 ^ 64 - d)

unfoldable pub next_retry_time : RetryConfig → Env → ℕ → ℕ
unfolding add_duration seconds backoff_secs
next_retry_time cfg env attempt = add_duration env.now (seconds (backoff_secs cfg attempt))

pub data RetryError : Type 0 where
  engine_failed increment_failed exhaust_failed : RetryError
  insert_failed update_failed : RetryError

module _ (quote : String → String) (engine : Engine) (cfg : RetryConfig)
    (auto_cfg : AutoResolveConfig) where
  abbrev pub write_audit_log :
      Env → String → String → String → String → List (String × Value) → Db DbError Unit
  write_audit_log = insert_audit_log

  unfoldable pub apply_auto_resolution : Env → String → Resolved → String → Db RetryError Unit
  unfolding insert_resolution_record update_recon_state_to_resolved insert_audit_log
  apply_auto_resolution env tx_ref result resolver_id = do
    insert_resolution_record env tx_ref "AUTO" result.chosen_source result.reason resolver_id
          (strategy_name result.strategy)
        or_raise λ _. insert_failed
    update_recon_state_to_resolved env tx_ref or_raise λ _. update_failed
    ignored (
        write_audit_log env tx_ref "AUTO_RESOLUTION" "MISMATCHED" "RESOLVED" (
          ("chosen_source", text result.chosen_source)
          ∷ ("strategy", text (strategy_name result.strategy))
          ∷ ("reason", text result.reason)
          ∷ ("resolver_id", text resolver_id)
          ∷ []))

  -- `nil` is returned whether the resolver and the writes succeed or not.
  abbrev pub after_apply : Env → String → Result RetryError Unit → Db RetryError Unit
  after_apply env tx_ref (err e) = pure tt
  after_apply env tx_ref (ok u) = ignored (mark_retry_resolved env tx_ref)

  abbrev pub after_resolve : Env → String → Result ResolveError Resolved → Db RetryError Unit
  after_resolve env tx_ref (err e) db = (ok tt, db)
  after_resolve env tx_ref (ok result) db =
      let (applied, db') = apply_auto_resolution env tx_ref result "system:retry_worker" db in
      after_apply env tx_ref applied db'

  abbrev pub with_strategy : Env → String → Option Strategy → Db RetryError Unit
  with_strategy env tx_ref none db = (ok tt, db)
  with_strategy env tx_ref (some strategy) db =
      let (result, db') = resolve quote env tx_ref strategy auto_cfg.source_priority db in
      after_resolve env tx_ref result db'

  unfoldable pub auto_resolve_exhausted : Env → String → Db RetryError Unit
  unfolding apply_auto_resolution mark_retry_resolved
  auto_resolve_exhausted env tx_ref =
      if auto_cfg.auto_apply_on_exhaustion
      then with_strategy env tx_ref (parse_strategy auto_cfg.default_strategy)
      else pure tt

  unfoldable pub handle_exhausted : Env → String → ℕ → Db RetryError Unit
  unfolding mark_retry_exhausted insert_audit_log
  handle_exhausted env tx_ref attempt = do
    mark_retry_exhausted env tx_ref or_raise λ _. exhaust_failed
    ignored (
        write_audit_log env tx_ref "RETRY_EXHAUSTED" "MISMATCHED" "MISMATCHED" (
          ("attempt", number attempt)
          ∷ ("auto_apply_strategy", flag auto_cfg.auto_apply_on_exhaustion)
          ∷ ("default_strategy", text auto_cfg.default_strategy)
          ∷ []))
    auto_resolve_exhausted env tx_ref

  unfoldable pub retry_matched : Env → String → ℕ → String → Db RetryError Unit
  unfolding mark_retry_resolved insert_audit_log
  retry_matched env tx_ref attempt status = do
    ignored (mark_retry_resolved env tx_ref)
    ignored (
        write_audit_log env tx_ref "RETRY_RESOLVED" "MISMATCHED" status (
          ("attempt", number attempt)
          ∷ ("engine_status", text status)
          ∷ ("resolution_type", text "engine_retrigger")
          ∷ []))

  unfoldable pub retry_mismatched : Env → RetryQueueRow → ℕ → String → Db RetryError Unit
  unfolding increment_retry_attempt insert_audit_log
  retry_mismatched env entry attempt status =
      if leb entry.max_attempts attempt
      then handle_exhausted env entry.transaction_ref attempt
      else do
        let next_retry = next_retry_time cfg env attempt
        increment_retry_attempt env entry.transaction_ref next_retry or_raise λ _. increment_failed
        ignored (
            write_audit_log env entry.transaction_ref "RETRY_ATTEMPT" "MISMATCHED" "MISMATCHED" (
              ("attempt", number attempt)
              ∷ ("max_attempts", number entry.max_attempts)
              ∷ ("next_retry_at", time next_retry)
              ∷ ("engine_status", text status)
              ∷ []))

  -- The `switch` on the engine's answer.
  unfoldable pub on_status : Env → RetryQueueRow → ℕ → String → Db RetryError Unit
  unfolding increment_retry_attempt retry_matched retry_mismatched
  on_status env entry attempt status =
      if status == "MATCHED" || status == "RESOLVED"
      then retry_matched env entry.transaction_ref attempt status
      else if status == "MISMATCHED"
      then retry_mismatched env entry attempt status
      else increment_retry_attempt env entry.transaction_ref (next_retry_time cfg env attempt)
        or_raise λ _. increment_failed

  unfoldable pub on_engine_error : Env → RetryQueueRow → ℕ → Db RetryError Unit
  unfolding increment_retry_attempt insert_audit_log
  on_engine_error env entry attempt = do
    ignored (increment_retry_attempt env entry.transaction_ref (next_retry_time cfg env attempt))
    ignored (
        write_audit_log env entry.transaction_ref "RETRY_ENGINE_ERROR" "MISMATCHED" "MISMATCHED"
          (("attempt", number attempt) ∷ []))
    raise engine_failed

  abbrev pub on_answer : Env → RetryQueueRow → Option ReconStatus → Db RetryError Unit
  on_answer env entry none = on_engine_error env entry (entry.attempt_count + 1)
  on_answer env entry (some status) =
      on_status env entry (entry.attempt_count + 1) (proto_status_to_string status)

  unfoldable pub retry_one : Env → RetryQueueRow → Db RetryError Unit
  unfolding on_engine_error on_status proto_status_to_string
  retry_one env entry db =
      let (answer, db') = engine entry.transaction_ref db in on_answer env entry answer db'

  -- The loop over the batch. Entry `i` finds the environment `envs i`; `cancelled i` is `ctx.Err()`
  -- before it. An error ends its entry alone.
  unfoldable pub process_batch :
      (ℕ → Env) → (ℕ → Bool) → ℕ → List RetryQueueRow → Database → Database
  process_batch envs cancelled i [] db = db
  process_batch envs cancelled i (entry ∷ entries) db =
      let rest = process_batch envs cancelled (i + 1) entries (retry_one (envs i) entry db).1 in
      if cancelled i then db else rest

  abbrev pub on_pending :
      (ℕ → Env) → (ℕ → Bool) → Result DbError (List RetryQueueRow) → Database → Database
  on_pending envs cancelled (err e) db = db
  on_pending envs cancelled (ok pending) db = process_batch envs cancelled 0 pending db

  -- The fetch finds the environment `env`.
  unfoldable pub run_cycle : Env → (ℕ → Env) → (ℕ → Bool) → Database → Database
  unfolding process_batch
  run_cycle env envs cancelled db =
      on_pending envs cancelled (get_pending_retries env cfg.batch_size db).0 db

  -- The cycles of `Start`, one at once and one at each tick, each given with what it finds.
  unfoldable pub run_cycles : List (Env × (ℕ → Env) × (ℕ → Bool)) → Database → Database
  unfolding run_cycle
  run_cycles [] db = db
  run_cycles ((env, envs, cancelled) ∷ rest) db = run_cycles rest (run_cycle env envs cancelled db)

  -- `Start`: a worker that is disabled does nothing.
  unfoldable pub start : List (Env × (ℕ → Env) × (ℕ → Bool)) → Database → Database
  unfolding run_cycles
  start cycles db = if cfg.enabled then run_cycles cycles db else db
