-- ===== src/Resolution/Api.antt =====
-- services/resolution/internal/api/handler.go: the REST handlers. An early return carries the HTTP
-- status of the error reply; metrics, log lines and the texts of errors are left out.
pub mod Auto
pub mod Enqueue
pub mod Refused
pub mod Slices
pub mod Pages
pub mod Server
pub mod Walk
use reconx.Base.{
  ℕ, zero, suc, String, not, ◌||◌, Option, none, some, List, [], ◌∷◌, ◌==◌, if◌then◌else◌, last?,
  length,
}
use reconx.Base.Exec.{pure, raise, ◌>>=◌, ◌>>◌, ◌or_raise◌, ignored, reject_if}
use reconx.Base.Int.{ℤ, pos, negsuc}
use reconx.Resolution.Tables.{
  AuditLogRow, RetryQueueRow, Env, DbError, no_rows, failed, Db, Value, text, decimal,
}
use reconx.Resolution.Queries.States.{
  get_recon_state, update_recon_state_to_resolved, insert_resolution_record,
}
use reconx.Resolution.Queries.Audit.{insert_audit_log, get_audit_trail}
use reconx.Resolution.Queries.Retries.{mark_retry_resolved, enqueue_retry, get_retry_queue}
use reconx.Resolution.Queries.Mismatches.{MismatchedRow, list_mismatched}
use reconx.Resolution.Strategy.{Strategy, strategy_name, parse_strategy, Resolved, resolve}
use reconx.Resolution.Manual.{is_unresolvable}

-- The part of the configuration that the handlers read.
pub record ApiConfig : Type 0 where
  pub default_strategy : String
  pub source_priority : String
  pub max_attempts : ℕ

-- A decoded body; an empty one (io.EOF) decodes to the zero value.
pub data Body (A : Type 0) : Type 0 where
  malformed : Body A
  no_body : Body A
  decoded : A → Body A

abbrev pub body_or : {A : Type 0} → A → Body A → Db ℕ A
body_or fallback malformed = raise 400
body_or fallback no_body = pure fallback
body_or fallback (decoded a) = pure a

pub record AutoResolveRequest : Type 0 where
  pub strategy : String
  pub source_priority : String
  pub resolver_id : String

abbrev pub no_request : AutoResolveRequest
no_request = record { strategy = ""; source_priority = ""; resolver_id = "" }

pub record AutoResolveResponse : Type 0 where
  pub transaction_ref : String
  pub chosen_source : String
  pub strategy : String
  pub reason : String
  pub resolved_at : ℕ

-- `if s == "" { s = fallback }`
abbrev pub or_default : String → String → String
or_default s fallback = if s == "" then fallback else s

abbrev pub state_status : DbError → ℕ
state_status no_rows = 404
state_status failed = 500

abbrev pub strategy_or_400 : Option Strategy → Db ℕ Strategy
strategy_or_400 none = raise 400
strategy_or_400 (some s) = pure s

abbrev pub auto_details : Strategy → Resolved → String → List (String × Value)
auto_details strategy result resolver_id =
    ("chosen_source", text result.chosen_source)
    ∷ ("strategy", text (strategy_name strategy))
    ∷ ("reason", text result.reason)
    ∷ ("resolver_id", text resolver_id)
    ∷ []

module _ (quote : String → String) (cfg : ApiConfig) (env : Env) (tx_ref : String) where
  -- The handler from its call of the resolver on.
  unfoldable pub persist_auto : String → Strategy → String → Resolved → Db ℕ AutoResolveResponse
  unfolding insert_resolution_record update_recon_state_to_resolved mark_retry_resolved
      insert_audit_log
  persist_auto old_status strategy resolver_id result = do
    insert_resolution_record env tx_ref "AUTO" result.chosen_source result.reason resolver_id
          (strategy_name strategy)
        or_raise λ _. 500
    update_recon_state_to_resolved env tx_ref or_raise λ _. 500
    ignored (mark_retry_resolved env tx_ref)
    ignored (
        insert_audit_log env tx_ref "AUTO_RESOLUTION" old_status "RESOLVED"
          (auto_details strategy result resolver_id))
    pure (record {
      transaction_ref = tx_ref;
      chosen_source = result.chosen_source;
      strategy = strategy_name strategy;
      reason = result.reason;
      resolved_at = env.now;
    })

  -- The handler from its reading of the state on.
  unfoldable pub auto_request : AutoResolveRequest → Db ℕ AutoResolveResponse
  unfolding get_recon_state persist_auto
  auto_request req = do
    state ← get_recon_state env tx_ref or_raise state_status
    reject_if (is_unresolvable state.status) 409
    strategy ← strategy_or_400 (parse_strategy (or_default req.strategy cfg.default_strategy))
    result ←
        resolve quote env tx_ref strategy (or_default req.source_priority cfg.source_priority)
        or_raise λ _. 422
    persist_auto state.status strategy (or_default req.resolver_id "system:api") result

  unfoldable pub auto_resolve : Body AutoResolveRequest → Db ℕ AutoResolveResponse
  auto_resolve body = do
    reject_if (tx_ref == "") 400
    req ← body_or no_request body
    auto_request req

pub record EnqueueRetryRequest : Type 0 where
  pub requested_by : String
  pub max_attempts : ℤ

abbrev pub no_retry_request : EnqueueRetryRequest
no_retry_request = record { requested_by = ""; max_attempts = pos 0 }

pub record EnqueueRetryResponse : Type 0 where
  pub transaction_ref : String
  pub max_attempts : ℕ

-- `if maxAttempts <= 0 { maxAttempts = fallback }`
abbrev pub attempts_or : ℕ → ℤ → ℕ
attempts_or fallback (negsuc n) = fallback
attempts_or fallback (pos zero) = fallback
attempts_or fallback (pos (suc n)) = suc n

-- The handler from its reading of the state on.
unfoldable pub enqueue_request :
    ApiConfig → Env → String → EnqueueRetryRequest → Db ℕ EnqueueRetryResponse
unfolding get_recon_state enqueue_retry insert_audit_log
enqueue_request cfg env tx_ref req = do
  state ← get_recon_state env tx_ref or_raise state_status
  reject_if (not (state.status == "MISMATCHED")) 409
  let max_attempts = attempts_or cfg.max_attempts req.max_attempts
  let requested_by = or_default req.requested_by "api"
  enqueue_retry env tx_ref max_attempts requested_by or_raise λ _. 500
  ignored (
      insert_audit_log env tx_ref "RETRY_ENQUEUED" state.status state.status
        (("requested_by", text requested_by) ∷ ("max_attempts", decimal max_attempts) ∷ []))
  pure (record { transaction_ref = tx_ref; max_attempts = max_attempts })

unfoldable pub enqueue_handler :
    ApiConfig → Env → String → Body EnqueueRetryRequest → Db ℕ EnqueueRetryResponse
enqueue_handler cfg env tx_ref body = do
  reject_if (tx_ref == "") 400
  req ← body_or no_retry_request body
  enqueue_request cfg env tx_ref req

pub record AuditTrailResponse : Type 0 where
  pub transaction_ref : String
  pub entries : List AuditLogRow
  pub count : ℕ

unfoldable pub audit_handler : Env → String → Db ℕ AuditTrailResponse
audit_handler env tx_ref = do
  reject_if (tx_ref == "") 400
  rows ← get_audit_trail env tx_ref or_raise λ _. 500
  pure (record { transaction_ref = tx_ref; entries = rows; count = length rows })

-- A page of rows, with the cursor of the page after it.
pub record Page (A : Type 0) : Type 0 where
  pub entries : List A
  pub count : ℕ
  pub next_page_token : String

abbrev pub token_of : {A : Type 0} → (A → String) → Option A → String
token_of key none = ""
token_of key (some row) = key row

abbrev pub page_of : {A : Type 0} → (A → String) → List A → Page A
page_of key rows = record {
  entries = rows;
  count = length rows;
  next_page_token = token_of key (last? rows);
}

unfoldable pub retry_queue_handler : Env → ℤ → String → String → Db ℕ (Page RetryQueueRow)
retry_queue_handler env page_size page_token status_filter = do
  rows ← get_retry_queue env page_size page_token status_filter or_raise λ _. 500
  pure (page_of (λ (r : RetryQueueRow). r.transaction_ref) rows)

unfoldable pub mismatches_handler : Env → ℤ → String → String → Db ℕ (Page MismatchedRow)
mismatches_handler env page_size page_token source_filter = do
  rows ← list_mismatched env page_size page_token source_filter or_raise λ _. 500
  pure (page_of (λ (r : MismatchedRow). r.transaction_ref) rows)
