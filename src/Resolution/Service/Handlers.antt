-- ===== src/Resolution/Service/Handlers.antt =====
-- server.go and handler.go: no handler undoes a decision or an entry of the audit log.
use reconx.Base.{◌∷◌, [], ◌∷◌, true, not, Option, ℕ, String, refl, none, some, ◌==◌, List}
use reconx.Base.Table.{modify, upsert, modify-IsKeyed, upsert-IsKeyed}
use reconx.Base.Exec.{◌>>◌, ignored, pure}
use reconx.Proto.{resolved, internal, invalid_argument, failed_precondition}
use reconx.Resolution.Tables.{Call, decimal, text, Value, Env}
use reconx.Resolution.Queries.States.{get_recon_state}
use reconx.Resolution.Queries.Retries.{
  retry_key, with_status, new_entry, renewed, mark_retry_resolved, enqueue_retry,
}
use reconx.Resolution.Strategy.{parse_strategy, Strategy, Resolved, strategy_name, resolve}
use reconx.Resolution.Strategy.Winner.{resolve_reads}
use reconx.Resolution.Queries.Audit.{insert_audit_log}
use reconx.Resolution.Manual.{
  manual_details, is_unresolvable, state_error, ResolutionRequest, resolve_manually,
}
use reconx.Resolution.Api.{
  ApiConfig, Body, malformed, no_body, decoded, body_or, no_request, no_retry_request, or_default,
  attempts_or, state_status, auto_details, strategy_or_400, AutoResolveRequest, EnqueueRetryRequest,
  persist_auto, auto_request, auto_resolve, enqueue_request, enqueue_handler,
}
use reconx.Resolution.Service.Settling.{settle-IsSafe}
use reconx.Resolution.Service.Safe.{
  dropped-IsSafe, result-IsSafe, guard-IsSafe, IsSafe, reads-IsSafe, pure-IsSafe, raise-IsSafe,
  bind-IsSafe, queue-IsSafe, insert_audit_log-IsSafe,
}

pub get_recon_state-IsSafe : (env : Env) (tx_ref : String) → IsSafe (get_recon_state env tx_ref)
unfolding get_recon_state
get_recon_state-IsSafe env tx_ref = reads-IsSafe _ (λ _. refl)

pub mark_retry_resolved-IsSafe :
    (env : Env) (tx_ref : String) → IsSafe (mark_retry_resolved env tx_ref)
unfolding mark_retry_resolved
mark_retry_resolved-IsSafe env tx_ref =
    queue-IsSafe _ env Call.resolve (modify retry_key tx_ref (with_status "RESOLVED"))
      λ q. modify-IsKeyed retry_key tx_ref (with_status "RESOLVED") q (λ _. refl)

enqueue_retry-IsSafe :
    (env : Env) (tx_ref : String) (n : ℕ) (by : String) → IsSafe (enqueue_retry env tx_ref n by)
unfolding enqueue_retry
enqueue_retry-IsSafe env tx_ref n by =
    queue-IsSafe _ env Call.enqueue
      (upsert retry_key (new_entry env tx_ref n by) (renewed env n by))
      λ q. upsert-IsKeyed retry_key (new_entry env tx_ref n by) (renewed env n by) q (λ _. refl)

pub resolve-IsSafe :
    (quote : String → String) (env : Env) (tx_ref : String) (strategy : Strategy)
    (priorities : String)
    → IsSafe (resolve quote env tx_ref strategy priorities)
resolve-IsSafe quote env tx_ref strategy priorities =
    reads-IsSafe _ (resolve_reads quote env tx_ref strategy priorities)

-- The end of a resolution: the entry of the queue and the entry of the log may fail unnoticed.
pub recorded-IsSafe :
    {E A : Type 0} (env : Env) (tx_ref event_type old_status new_status : String)
    (detail : List (String × Value)) (a : A)
    → IsSafe (
        ignored {F = E} (mark_retry_resolved env tx_ref)
        >> (ignored (insert_audit_log env tx_ref event_type old_status new_status detail)
            >> pure a))
recorded-IsSafe env tx_ref event_type old_status new_status detail a =
    dropped-IsSafe _ _ (mark_retry_resolved-IsSafe env tx_ref) (
      dropped-IsSafe _ _
        (insert_audit_log-IsSafe env tx_ref event_type old_status new_status detail)
        (pure-IsSafe a))

pub resolve_manually-IsSafe :
    (env : Env) (req : ResolutionRequest) → IsSafe (resolve_manually env req)
unfolding resolve_manually
resolve_manually-IsSafe env req = guard-IsSafe (req.transaction_ref == "") invalid_argument _ (
    guard-IsSafe (req.chosen_source == "") invalid_argument _ (
      guard-IsSafe (req.resolver_id == "") invalid_argument _ (
        result-IsSafe _ state_error _ (get_recon_state-IsSafe env req.transaction_ref) λ state.
          guard-IsSafe (is_unresolvable state.status) failed_precondition _ (
            settle-IsSafe env req.transaction_ref "MANUAL" req.chosen_source req.resolution_reason
              req.resolver_id "" (λ _. internal) (λ _. internal) _
              (recorded-IsSafe env req.transaction_ref "MANUAL_RESOLUTION" state.status "RESOLVED"
                (manual_details req) (record { success = true; new_status = resolved }))))))

body_or-IsSafe : {A : Type 0} (fallback : A) (body : Body A) → IsSafe (body_or fallback body)
body_or-IsSafe fallback malformed = raise-IsSafe 400
body_or-IsSafe fallback no_body = pure-IsSafe fallback
body_or-IsSafe fallback (decoded a) = pure-IsSafe a

strategy_or_400-IsSafe : (o : Option Strategy) → IsSafe (strategy_or_400 o)
strategy_or_400-IsSafe none = raise-IsSafe 400
strategy_or_400-IsSafe (some s) = pure-IsSafe s

module _ (quote : String → String) (cfg : ApiConfig) (env : Env) (tx_ref : String) where
  persist_auto-IsSafe :
      (old_status : String) (strategy : Strategy) (resolver_id : String) (result : Resolved)
      → IsSafe (persist_auto quote cfg env tx_ref old_status strategy resolver_id result)
  unfolding persist_auto
  persist_auto-IsSafe old_status strategy resolver_id result =
      settle-IsSafe env tx_ref "AUTO" result.chosen_source result.reason resolver_id
        (strategy_name strategy) (λ _. 500) (λ _. 500) _
        (recorded-IsSafe env tx_ref "AUTO_RESOLUTION" old_status "RESOLVED"
          (auto_details strategy result resolver_id)
          (record {
            transaction_ref = tx_ref;
            chosen_source = result.chosen_source;
            strategy = strategy_name strategy;
            reason = result.reason;
            resolved_at = env.now;
          }))

  auto_request-IsSafe : (req : AutoResolveRequest) → IsSafe (auto_request quote cfg env tx_ref req)
  unfolding auto_request
  auto_request-IsSafe req =
      result-IsSafe _ state_status _ (get_recon_state-IsSafe env tx_ref) λ state.
        guard-IsSafe (is_unresolvable state.status) 409 _ (
          bind-IsSafe _ _
            (strategy_or_400-IsSafe (parse_strategy (or_default req.strategy cfg.default_strategy)))
            λ strategy.
              result-IsSafe _ (λ _. 422) _
                (resolve-IsSafe quote env tx_ref strategy
                  (or_default req.source_priority cfg.source_priority))
                λ result.
                  persist_auto-IsSafe state.status strategy
                    (or_default req.resolver_id "system:api") result)

  pub auto_resolve-IsSafe :
      (body : Body AutoResolveRequest) → IsSafe (auto_resolve quote cfg env tx_ref body)
  unfolding auto_resolve
  auto_resolve-IsSafe body =
      guard-IsSafe (tx_ref == "") 400 _
        (bind-IsSafe _ _ (body_or-IsSafe no_request body) auto_request-IsSafe)

module _ (cfg : ApiConfig) (env : Env) (tx_ref : String) where
  enqueue_request-IsSafe : (req : EnqueueRetryRequest) → IsSafe (enqueue_request cfg env tx_ref req)
  unfolding enqueue_request
  enqueue_request-IsSafe req =
      result-IsSafe _ state_status _ (get_recon_state-IsSafe env tx_ref) λ state.
        let max_attempts = attempts_or cfg.max_attempts req.max_attempts in
        let requested_by = or_default req.requested_by "api" in
        guard-IsSafe (not (state.status == "MISMATCHED")) 409 _ (
          result-IsSafe _ (λ _. 500) _ (enqueue_retry-IsSafe env tx_ref max_attempts requested_by)
            λ _.
              dropped-IsSafe _ _
                (insert_audit_log-IsSafe env tx_ref "RETRY_ENQUEUED" state.status state.status (
                  ("requested_by", text requested_by)
                  ∷ ("max_attempts", decimal max_attempts)
                  ∷ []))
                (pure-IsSafe (record { transaction_ref = tx_ref; max_attempts = max_attempts })))

  pub enqueue_handler-IsSafe :
      (body : Body EnqueueRetryRequest) → IsSafe (enqueue_handler cfg env tx_ref body)
  unfolding enqueue_handler
  enqueue_handler-IsSafe body =
      guard-IsSafe (tx_ref == "") 400 _
        (bind-IsSafe _ _ (body_or-IsSafe no_retry_request body) enqueue_request-IsSafe)
