-- ===== src/Resolution/Service/Retrying.antt =====
-- worker.go: the retry worker undoes no decision and no entry of the audit log either.
use reconx.Base.{refl, ℕ, ◌+◌, String, Option, none, some, [], ◌∷◌, leb, ◌==◌, ◌||◌}
use reconx.Base.Table.{modify, modify-IsKeyed}
use reconx.Base.Exec.{Result, ok, err}
use reconx.Proto.{ReconStatus}
use reconx.Resolution.Tables.{Call, RetryQueueRow, Database, Env, text, number, flag, time}
use reconx.Resolution.Queries.Retries.{
  retry_key, with_status, attempted, increment_retry_attempt, mark_retry_exhausted,
}
use reconx.Resolution.Strategy.{Strategy, Resolved, ResolveError, strategy_name, parse_strategy}
use reconx.Resolution.Worker.{
  Engine, RetryConfig, AutoResolveConfig, RetryError, exhaust_failed, increment_failed,
  insert_failed, update_failed, engine_failed, apply_auto_resolution, after_apply, after_resolve,
  with_strategy, auto_resolve_exhausted, handle_exhausted, retry_matched, retry_mismatched,
  on_status, on_engine_error, on_answer, retry_one, next_retry_time, proto_status_to_string,
}
use reconx.Resolution.Service.Settling.{settle-IsSafe}
use reconx.Resolution.Service.Safe.{
  Grows, Grows-refl, Grows-trans, IsSafe, pure-IsSafe, raise-IsSafe, result-IsSafe, dropped-IsSafe,
  or_raise-IsSafe, ignored-IsSafe, if-IsSafe, queue-IsSafe, insert_audit_log-IsSafe,
}
use reconx.Resolution.Service.Handlers.{mark_retry_resolved-IsSafe, resolve-IsSafe}

mark_retry_exhausted-IsSafe :
    (env : Env) (tx_ref : String) → IsSafe (mark_retry_exhausted env tx_ref)
unfolding mark_retry_exhausted
mark_retry_exhausted-IsSafe env tx_ref =
    queue-IsSafe _ env Call.exhaust (modify retry_key tx_ref (with_status "EXHAUSTED"))
      λ q. modify-IsKeyed retry_key tx_ref (with_status "EXHAUSTED") q (λ _. refl)

increment_retry_attempt-IsSafe :
    (env : Env) (tx_ref : String) (t : ℕ) → IsSafe (increment_retry_attempt env tx_ref t)
unfolding increment_retry_attempt
increment_retry_attempt-IsSafe env tx_ref t =
    queue-IsSafe _ env Call.increment (modify retry_key tx_ref (attempted env t))
      λ q. modify-IsKeyed retry_key tx_ref (attempted env t) q (λ _. refl)

module _ (quote : String → String) (engine : Engine) (cfg : RetryConfig)
    (auto_cfg : AutoResolveConfig) where
  module _ (env : Env) (tx_ref : String) where
    apply_auto_resolution-IsSafe :
        (result : Resolved) (resolver_id : String)
        → IsSafe (apply_auto_resolution quote engine cfg auto_cfg env tx_ref result resolver_id)
    unfolding apply_auto_resolution
    apply_auto_resolution-IsSafe result resolver_id =
        settle-IsSafe env tx_ref "AUTO" result.chosen_source result.reason resolver_id
          (strategy_name result.strategy) (λ _. insert_failed) (λ _. update_failed) _
          (ignored-IsSafe _ (
            insert_audit_log-IsSafe env tx_ref "AUTO_RESOLUTION" "MISMATCHED" "RESOLVED" (
              ("chosen_source", text result.chosen_source)
              ∷ ("strategy", text (strategy_name result.strategy))
              ∷ ("reason", text result.reason)
              ∷ ("resolver_id", text resolver_id)
              ∷ [])))

    after_apply-IsSafe :
        (applied : Result RetryError Unit)
        → IsSafe (after_apply quote engine cfg auto_cfg env tx_ref applied)
    after_apply-IsSafe (err e) = pure-IsSafe tt
    after_apply-IsSafe (ok u) = ignored-IsSafe _ (mark_retry_resolved-IsSafe env tx_ref)

    after_resolve-IsSafe :
        (result : Result ResolveError Resolved)
        → IsSafe (after_resolve quote engine cfg auto_cfg env tx_ref result)
    after_resolve-IsSafe (err e) = record { at = Grows-refl }
    after_resolve-IsSafe (ok result) = record {
      at = λ s.
          Grows-trans ((apply_auto_resolution-IsSafe result "system:retry_worker").at s)
            ((after_apply-IsSafe _).at _);
    }

    with_strategy-IsSafe :
        (strategy : Option Strategy)
        → IsSafe (with_strategy quote engine cfg auto_cfg env tx_ref strategy)
    with_strategy-IsSafe none = record { at = Grows-refl }
    with_strategy-IsSafe (some strategy) = record {
      at = λ s.
          Grows-trans ((resolve-IsSafe quote env tx_ref strategy auto_cfg.source_priority).at s)
            ((after_resolve-IsSafe _).at _);
    }

    handle_exhausted-IsSafe :
        (attempt : ℕ) → IsSafe (handle_exhausted quote engine cfg auto_cfg env tx_ref attempt)
    unfolding handle_exhausted auto_resolve_exhausted
    handle_exhausted-IsSafe attempt =
        result-IsSafe _ (λ _. exhaust_failed) _ (mark_retry_exhausted-IsSafe env tx_ref)
          λ _.
            dropped-IsSafe _ _
              (insert_audit_log-IsSafe env tx_ref "RETRY_EXHAUSTED" "MISMATCHED" "MISMATCHED" (
                ("attempt", number attempt)
                ∷ ("auto_apply_strategy", flag auto_cfg.auto_apply_on_exhaustion)
                ∷ ("default_strategy", text auto_cfg.default_strategy)
                ∷ []))
              (if-IsSafe auto_cfg.auto_apply_on_exhaustion _ _
                (with_strategy-IsSafe (parse_strategy auto_cfg.default_strategy)) (pure-IsSafe tt))

    retry_matched-IsSafe :
        (attempt : ℕ) (status : String)
        → IsSafe (retry_matched quote engine cfg auto_cfg env tx_ref attempt status)
    unfolding retry_matched
    retry_matched-IsSafe attempt status =
        dropped-IsSafe _ _ (mark_retry_resolved-IsSafe env tx_ref) (
          ignored-IsSafe _ (
            insert_audit_log-IsSafe env tx_ref "RETRY_RESOLVED" "MISMATCHED" status (
              ("attempt", number attempt)
              ∷ ("engine_status", text status)
              ∷ ("resolution_type", text "engine_retrigger")
              ∷ [])))

  module _ (env : Env) (entry : RetryQueueRow) where
    retry_mismatched-IsSafe :
        (attempt : ℕ) (status : String)
        → IsSafe (retry_mismatched quote engine cfg auto_cfg env entry attempt status)
    unfolding retry_mismatched
    retry_mismatched-IsSafe attempt status =
        if-IsSafe (leb entry.max_attempts attempt) _ _
          (handle_exhausted-IsSafe env entry.transaction_ref attempt)
          (result-IsSafe _ (λ _. increment_failed) _
            (increment_retry_attempt-IsSafe env entry.transaction_ref
              (next_retry_time cfg env attempt))
            λ _. ignored-IsSafe _ (
              insert_audit_log-IsSafe env entry.transaction_ref "RETRY_ATTEMPT" "MISMATCHED"
                "MISMATCHED"
                (("attempt", number attempt)
                  ∷ ("max_attempts", number entry.max_attempts)
                  ∷ ("next_retry_at", time (next_retry_time cfg env attempt))
                  ∷ ("engine_status", text status)
                  ∷ [])))

    on_status-IsSafe :
        (attempt : ℕ) (status : String)
        → IsSafe (on_status quote engine cfg auto_cfg env entry attempt status)
    unfolding on_status
    on_status-IsSafe attempt status =
        if-IsSafe (status == "MATCHED" || status == "RESOLVED") _ _
          (retry_matched-IsSafe env entry.transaction_ref attempt status)
          (if-IsSafe (status == "MISMATCHED") _ _ (retry_mismatched-IsSafe attempt status) (
            or_raise-IsSafe _ (λ _. increment_failed)
              (increment_retry_attempt-IsSafe env entry.transaction_ref
                (next_retry_time cfg env attempt))))

    on_answer-IsSafe :
        (answer : Option ReconStatus)
        → IsSafe (on_answer quote engine cfg auto_cfg env entry answer)
    unfolding on_engine_error
    on_answer-IsSafe none =
        dropped-IsSafe _ _
          (increment_retry_attempt-IsSafe env entry.transaction_ref
            (next_retry_time cfg env (entry.attempt_count + 1)))
          (dropped-IsSafe _ _
            (insert_audit_log-IsSafe env entry.transaction_ref "RETRY_ENGINE_ERROR" "MISMATCHED"
              "MISMATCHED" (("attempt", number (entry.attempt_count + 1)) ∷ []))
            (raise-IsSafe engine_failed))
    on_answer-IsSafe (some status) =
        on_status-IsSafe (entry.attempt_count + 1) (proto_status_to_string status)

  module _ (lawful : (tx_ref : String) (db : Database) → Grows db (engine tx_ref db).1) where
    -- The engine's writes, then the worker's.
    pub retry_one-Grows :
        (env : Env) (entry : RetryQueueRow) (db : Database)
        → Grows db (retry_one quote engine cfg auto_cfg env entry db).1
    unfolding retry_one
    retry_one-Grows env entry db =
        Grows-trans (lawful entry.transaction_ref db)
          ((on_answer-IsSafe env entry (engine entry.transaction_ref db).0).at _)
