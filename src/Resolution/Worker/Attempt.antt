-- ===== src/Resolution/Worker/Attempt.antt =====
-- worker.go, retryOne: what one attempt makes of its queue entry.
use reconx.Base.{
  Bool-cases, inl, inr, ◌+◌, String, false, ◌≡◌, refl, Option, none, some, leb, if◌then◌else◌,
}
use reconx.Base.Table.{find, modify, find-modify_self}
use reconx.Proto.{ReconStatus, matched, mismatched, resolved}
use reconx.Resolution.Tables.{RetryQueueRow, Database, Call, Env}
use reconx.Resolution.Queries.Retries.{retry_key, attempted, with_status}
use reconx.Resolution.Worker.{
  handle_exhausted, proto_status_to_string, on_answer, Engine, RetryConfig, AutoResolveConfig,
  next_retry_time, retry_one, on_status, on_engine_error, auto_resolve_exhausted,
}

abbrev pub row_of : Database → String → Option RetryQueueRow
row_of db tx_ref = find retry_key tx_ref db.retry_queue

-- The entry with one attempt more and a later date.
abbrev pub backed_off : RetryConfig → Env → RetryQueueRow → RetryQueueRow
backed_off cfg env entry = attempted env (next_retry_time cfg env (entry.attempt_count + 1)) entry

-- The state machine of an entry: what follows the engine's answer, or its failure.
abbrev pub next_entry : RetryConfig → Env → RetryQueueRow → Option ReconStatus → RetryQueueRow
next_entry cfg env entry (some matched) = with_status "RESOLVED" entry
next_entry cfg env entry (some resolved) = with_status "RESOLVED" entry
next_entry cfg env entry (some mismatched) =
    if leb entry.max_attempts (entry.attempt_count + 1)
    then with_status "EXHAUSTED" entry
    else backed_off cfg env entry
next_entry cfg env entry _ = backed_off cfg env entry

-- The updates of the retry queue succeed.
pub record QueueWorks (env : Env) : Type 0 where
  pub increments : env.fails Call.increment ≡ false
  pub exhausts : env.fails Call.exhaust ≡ false
  pub resolves : env.fails Call.resolve ≡ false

closed :
    (status : String) (entry : RetryQueueRow) (db : Database)
    → row_of db entry.transaction_ref ≡ some entry
    → find retry_key entry.transaction_ref
        (modify retry_key entry.transaction_ref (with_status status) db.retry_queue)
      ≡ some (with_status status entry)
closed status entry db found =
    find-modify_self retry_key entry.transaction_ref (with_status status) db.retry_queue (λ _. refl)
      found

module _ (cfg : RetryConfig) where
  retried :
      (env : Env) (entry : RetryQueueRow) (db : Database)
      → row_of db entry.transaction_ref ≡ some entry
      → find retry_key entry.transaction_ref (
          modify retry_key entry.transaction_ref
            (attempted env (next_retry_time cfg env (entry.attempt_count + 1)))
            db.retry_queue)
        ≡ some (backed_off cfg env entry)
  retried env entry db found =
      find-modify_self retry_key entry.transaction_ref
        (attempted env (next_retry_time cfg env (entry.attempt_count + 1))) db.retry_queue
        (λ _. refl) found

module _ (quote : String → String) (engine : Engine) (cfg : RetryConfig)
    (auto_cfg : AutoResolveConfig) (manual : auto_cfg.auto_apply_on_exhaustion ≡ false) where
  on_answer-row :
      (env : Env) (entry : RetryQueueRow) (answer : Option ReconStatus) (db : Database)
      → QueueWorks env
      → row_of db entry.transaction_ref ≡ some entry
      → row_of (on_answer quote engine cfg auto_cfg env entry answer db).1 entry.transaction_ref
        ≡ some (next_entry cfg env entry answer)
  unfolding on_status on_engine_error auto_resolve_exhausted proto_status_to_string handle_exhausted
  on_answer-row env entry none db w found = rw w.increments (retried cfg env entry db found)
  on_answer-row env entry (some matched) db w found =
      rw w.resolves (closed "RESOLVED" entry db found)
  on_answer-row env entry (some resolved) db w found =
      rw w.resolves (closed "RESOLVED" entry db found)
  on_answer-row env entry (some mismatched) db w found =
      elim (Bool-cases (leb entry.max_attempts (entry.attempt_count + 1))) [
        | inl last ↦ rw (last, w.exhausts, manual) (closed "EXHAUSTED" entry db found)
        | inr more ↦ rw (more, w.increments) (retried cfg env entry db found)
      ]
  on_answer-row env entry (some _) db w found = rw w.increments (retried cfg env entry db found)

  -- An attempt whose updates of the queue succeed takes its entry one step along the state machine,
  -- where exhausted transactions are left for a manual resolution.
  pub retry_one-row :
      (env : Env) (entry : RetryQueueRow) (db : Database)
      → QueueWorks env
      → row_of (engine entry.transaction_ref db).1 entry.transaction_ref ≡ some entry
      → row_of (retry_one quote engine cfg auto_cfg env entry db).1 entry.transaction_ref
        ≡ some (next_entry cfg env entry (engine entry.transaction_ref db).0)
  unfolding retry_one
  retry_one-row env entry db w found =
      let (answer, db') = engine entry.transaction_ref db in
      on_answer-row env entry answer db' w found
