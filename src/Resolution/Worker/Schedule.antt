-- ===== src/Resolution/Worker/Schedule.antt =====
-- worker.go over several attempts: when an entry is exhausted, and when it never is.
use reconx.Base.{
  subst, le→leb, ℕ, zero, suc, ◌+◌, ◌≤◌, ◌<◌, String, false, ◌≡◌, refl, sym, ap, ◌∙◌, Option, none,
  some, arith, if◌then◌else◌,
}
use reconx.Proto.{ReconStatus, mismatched}
use reconx.Resolution.Tables.{RetryQueueRow, Database, Env}
use reconx.Base.Table.{find}
use reconx.Resolution.Queries.Retries.{retry_key, with_status}
use reconx.Resolution.Worker.{Engine, RetryConfig, AutoResolveConfig, retry_one}
use reconx.Resolution.Worker.Attempt.{backed_off, row_of, next_entry, QueueWorks, retry_one-row}

-- The engine leaves the retry queue, which is this service's table, as it is.
abbrev pub LeavesQueue : Engine → Type 0
LeavesQueue engine =
    (tx_ref : String) (db : Database) → (engine tx_ref db).1.retry_queue ≡ db.retry_queue

module _ (quote : String → String) (engine : Engine) (cfg : RetryConfig)
    (auto_cfg : AutoResolveConfig) (envs : ℕ → Env) (tx_ref : String) where
  abbrev pub again : Env → Option RetryQueueRow → Database → Database
  again env none db = db
  again env (some entry) db = (retry_one quote engine cfg auto_cfg env entry db).1

  -- The attempts on one transaction, each on the entry that the one before it left.
  unfoldable pub attempts : ℕ → Database → Database
  attempts zero db = db
  attempts (suc n) db = let db' = attempts n db in again (envs n) (row_of db' tx_ref) db'

-- The entry after n attempts that left it PENDING.
pub record IsAttempted (entry : RetryQueueRow) (n : ℕ) (row : RetryQueueRow) : Type 0 where
  pub same_ref : row.transaction_ref ≡ entry.transaction_ref
  pub same_status : row.status ≡ entry.status
  pub same_max : row.max_attempts ≡ entry.max_attempts
  pub counted : row.attempt_count ≡ entry.attempt_count + n

-- Every answer of the engine to this transaction is the given one.
abbrev pub Answers : Engine → String → Option ReconStatus → Type 0
Answers engine tx_ref answer = (db : Database) → (engine tx_ref db).0 ≡ answer

module _ (quote : String → String) (engine : Engine) (cfg : RetryConfig)
    (auto_cfg : AutoResolveConfig) (manual : auto_cfg.auto_apply_on_exhaustion ≡ false)
    (envs : ℕ → Env) (works : (n : ℕ) → QueueWorks (envs n)) (leaves : LeavesQueue engine) where
  -- One more attempt is one step of the state machine.
  attempts-suc :
      (n : ℕ) (tx_ref : String) (answer : Option ReconStatus) (db : Database) (row : RetryQueueRow)
      → Answers engine tx_ref answer
      → row.transaction_ref ≡ tx_ref
      → row_of (attempts quote engine cfg auto_cfg envs tx_ref n db) tx_ref ≡ some row
      → row_of (attempts quote engine cfg auto_cfg envs tx_ref (suc n) db) tx_ref
        ≡ some (next_entry cfg (envs n) row answer)
  unfolding attempts
  attempts-suc n tx_ref answer db row answers is_ref found =
      let before : Database = attempts quote engine cfg auto_cfg envs tx_ref n db in
      let after : Database = (retry_one quote engine cfg auto_cfg (envs n) row before).1 in
      let answered : (engine row.transaction_ref before).0 ≡ answer =
        subst (λ t. (engine t before).0 ≡ answer) (sym is_ref) (answers before) in
      let kept : row_of (engine row.transaction_ref before).1 row.transaction_ref ≡ some row =
        rw (leaves row.transaction_ref before)
          (subst (λ t. find retry_key t before.retry_queue ≡ some row) (sym is_ref) found) in
      rw found (
        subst (λ t. find retry_key t after.retry_queue ≡ some (next_entry cfg (envs n) row answer))
          is_ref
          (retry_one-row quote engine cfg auto_cfg manual (envs n) row before (works n) kept
            ∙ ap (λ a. some (next_entry cfg (envs n) row a)) answered))

  module _ (tx_ref : String) (entry : RetryQueueRow) (db : Database)
      (is_ref : entry.transaction_ref ≡ tx_ref) (found : row_of db tx_ref ≡ some entry) where
    attempts_backing_off :
        (answer : Option ReconStatus) (n : ℕ)
        → Answers engine tx_ref answer
        → ((k : ℕ) (row : RetryQueueRow)
            → k < n
            → IsAttempted entry k row
            → IsAttempted entry (suc k) (next_entry cfg (envs k) row answer))
        → (row : RetryQueueRow) × IsAttempted entry n row
          × (row_of (attempts quote engine cfg auto_cfg envs tx_ref n db) tx_ref ≡ some row)
    unfolding attempts
    attempts_backing_off answer zero answers step = (
      entry,
      record { same_ref = refl; same_status = refl; same_max = refl; counted = omega arith },
      found,
    )
    attempts_backing_off answer (suc n) answers step =
        let (row, i, at) =
          attempts_backing_off answer n answers (λ k r h. step k r (omega arith)) in
        (
          next_entry cfg (envs n) row answer,
          step n row (omega arith) i,
          attempts-suc n tx_ref answer db row answers (i.same_ref ∙ is_ref) at,
        )

    -- While the engine cannot be reached, a worker that may not apply its strategy retries an entry for
    -- ever: after any number of attempts on it, it has its old status and limit, and a count that has
    -- grown by that number. The updates of the queue succeed, and the engine does not write to it.
    pub unreachable_never_exhausts :
        (n : ℕ)
        → Answers engine tx_ref none
        → (row : RetryQueueRow) × IsAttempted entry n row
          × (row_of (attempts quote engine cfg auto_cfg envs tx_ref n db) tx_ref ≡ some row)
    unreachable_never_exhausts n answers = attempts_backing_off none n answers λ k row h i. record {
      same_ref = i.same_ref;
      same_status = i.same_status;
      same_max = i.same_max;
      counted = omega (arith, i.counted);
    }

    -- Where the worker may not apply its strategy, an entry that the engine keeps calling MISMATCHED is
    -- EXHAUSTED by the attempt that reaches its limit, and by none before: the earlier ones leave its
    -- status and its limit and raise its count. The updates of the queue succeed, and the engine does
    -- not write to it.
    pub mismatched_exhausts :
        (n k : ℕ)
        → Answers engine tx_ref (some mismatched)
        → entry.attempt_count + suc n ≡ entry.max_attempts
        → k ≤ n
        → ((row : RetryQueueRow) × IsAttempted entry k row
            × (row_of (attempts quote engine cfg auto_cfg envs tx_ref k db) tx_ref ≡ some row))
          × ((row : RetryQueueRow) × (row.status ≡ "EXHAUSTED")
              × (row_of (attempts quote engine cfg auto_cfg envs tx_ref (suc n) db) tx_ref
                  ≡ some row))
    mismatched_exhausts n k answers last before =
        let (row, i, at) =
          attempts_backing_off (some mismatched) n answers
            (λ j r hj h. not_last j r (omega arith) h) in
        (
          attempts_backing_off (some mismatched) k answers
              (λ j r hj h. not_last j r (omega arith) h),
          (
            with_status "EXHAUSTED" row,
            refl,
            attempts-suc n tx_ref (some mismatched) db row answers (i.same_ref ∙ is_ref) at
                ∙ ap
                    (λ b.
                      some (if b then with_status "EXHAUSTED" row else backed_off cfg (envs n) row))
                    (le→leb row.max_attempts (row.attempt_count + 1)
                      (omega (arith, i.counted, i.same_max))),
          ),
        )
      where
        not_last :
            (j : ℕ) (row : RetryQueueRow)
            → entry.attempt_count + suc j < entry.max_attempts
            → IsAttempted entry j row
            → IsAttempted entry (suc j) (next_entry cfg (envs j) row (some mismatched))
        not_last j row h i = ground (arith, i.counted, i.same_max, i.same_ref, i.same_status)
