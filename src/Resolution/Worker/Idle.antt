-- ===== src/Resolution/Worker/Idle.antt =====
-- worker.go over whole cycles: the entries that the worker leaves alone.
use text.Mathlib.TextEquality.{eq_iff}
use reconx.Base.{
  ◌∙◌, Bool-cases, inl, inr, ℕ, String, Bool, true, false, ◌≡◌, ◌≢◌, subst, Option, none, some,
  List, [], ◌∷◌, All, ◌==◌, Memᴰ, All-Memᴰ, if◌then◌else◌,
}
use reconx.Base.Exec.{Result-cases}
use reconx.Base.Table.{find, IsKeyed}
use reconx.Resolution.Tables.{RetryQueueRow, Database, Env}
use reconx.Resolution.Queries.Retries.{retry_key, due, get_pending_retries}
use reconx.Resolution.Api.Enqueue.{get_pending_retries_sound}
use reconx.Resolution.Worker.{Engine, RetryConfig, AutoResolveConfig, run_cycle, run_cycles, start}
use reconx.Resolution.Worker.Schedule.{LeavesQueue}
use reconx.Base.Table.{modify-IsKeyed, find-modify_ne}
use reconx.Resolution.Worker.Aside.{IsClosed, process_batch_maintains}

-- What holds of the row of a key holds of every row that has the key.
module _ {A : Type 0} (key : A → String) (k : String) (P : A → Type 0) where
  pub absent : (xs : List A) → find key k xs ≡ none → All (λ x. key x ≡ k → P x) xs
  unfolding find
  absent [] e = tt
  absent (x ∷ xs) e = elim (Bool-cases (key x == k)) [
    | inl t ↦ absurd (let n = rw t at e in cc)
    | inr f ↦ (λ same. absurd (let t = (eq_iff (key x) k).1 same in cc), absent xs (rw f at e))
  ]

  unique :
      (xs : List A) (a : A)
      → IsKeyed key xs
      → find key k xs ≡ some a
      → P a
      → All (λ x. key x ≡ k → P x) xs
  unfolding find
  unique [] a h e p = tt
  unique (x ∷ xs) a h e p = elim (Bool-cases (key x == k)) [
    | inl t ↦ (
      λ same. subst P (let n : Path (Option A) (some x) (some a) = rw t at e in cc) p,
      absent xs (subst (λ i. find key i xs ≡ none) ((eq_iff (key x) k).0 t) h.0),
    )
    | inr f ↦
        (λ same. absurd (let t = (eq_iff (key x) k).1 same in cc), unique xs a h.1 (rw f at e) p)
  ]

-- The queue has its primary key, and the given row at it.
abbrev pub Keeps : String → RetryQueueRow → List RetryQueueRow → Type 0
Keeps tx_ref row queue = IsKeyed retry_key queue × (find retry_key tx_ref queue ≡ some row)

Keeps-IsClosed :
    (tx_ref : String) (row : RetryQueueRow) (other : String)
    → other ≢ tx_ref
    → IsClosed (Keeps tx_ref row) other
Keeps-IsClosed tx_ref row other ne f queue keeps h = (
  modify-IsKeyed retry_key other f queue keeps h.0,
  find-modify_ne retry_key other tx_ref f queue keeps ne ∙ h.1,
)

module _ (quote : String → String) (engine : Engine) (cfg : RetryConfig)
    (auto_cfg : AutoResolveConfig) (tx_ref : String) (row : RetryQueueRow)
    (leaves : LeavesQueue engine) where
  -- A row that is not due is in no batch.
  not_fetched :
      (env : Env) (queue batch : List RetryQueueRow)
      → due env.now row ≡ false
      → Keeps tx_ref row queue
      → All (λ r. Memᴰ r queue × (due env.now r ≡ true)) batch
      → All (λ entry. IsClosed (Keeps tx_ref row) entry.transaction_ref) batch
  not_fetched env queue [] idle h batch = tt
  not_fetched env queue (entry ∷ entries) idle h batch = (
    Keeps-IsClosed tx_ref row entry.transaction_ref (λ same.
        let idle_too =
          All-Memᴰ _ batch.0.0
            (unique retry_key tx_ref (λ r. due env.now r ≡ false) queue row h.0 h.1 idle) same in
        absurd (let (late, t) = batch.0 in cc)),
    not_fetched env queue entries idle h batch.1,
  )

  run_cycle-Keeps :
      (env : Env) (envs : ℕ → Env) (cancelled : ℕ → Bool) (db : Database)
      → due env.now row ≡ false
      → Keeps tx_ref row db.retry_queue
      → Keeps tx_ref row (run_cycle quote engine cfg auto_cfg env envs cancelled db).retry_queue
  unfolding run_cycle
  run_cycle-Keeps env envs cancelled db idle h =
      elim (Result-cases (get_pending_retries env cfg.batch_size db).0) [
        | inr (failure, e) ↦ rw e h
        | inl (batch, e) ↦ rw e (
            process_batch_maintains quote engine cfg auto_cfg (Keeps tx_ref row) leaves envs
              cancelled 0 batch db
              (not_fetched env db.retry_queue batch idle h
                (get_pending_retries_sound env cfg.batch_size db batch e).0)
              h)
      ]

  run_cycles-Keeps :
      (cycles : List (Env × (ℕ → Env) × (ℕ → Bool))) (db : Database)
      → All (λ cycle. due cycle.0.now row ≡ false) cycles
      → Keeps tx_ref row db.retry_queue
      → Keeps tx_ref row (run_cycles quote engine cfg auto_cfg cycles db).retry_queue
  unfolding run_cycles
  run_cycles-Keeps [] db idle h = h
  run_cycles-Keeps ((env, envs, cancelled) ∷ cycles) db idle h =
      run_cycles-Keeps cycles _ idle.1 (run_cycle-Keeps env envs cancelled db idle.0 h)

  -- Where the transactions of the queue are distinct, the worker keeps them so, and leaves an entry
  -- as it is through all cycles that find it not due (which a RESOLVED or EXHAUSTED one never is),
  -- whatever the engine answers, which statements fail and where a cycle is cancelled. The engine
  -- does not write to the queue.
  pub start-Keeps :
      (cycles : List (Env × (ℕ → Env) × (ℕ → Bool))) (db : Database)
      → All (λ cycle. due cycle.0.now row ≡ false) cycles
      → Keeps tx_ref row db.retry_queue
      → Keeps tx_ref row (start quote engine cfg auto_cfg cycles db).retry_queue
  unfolding start
  start-Keeps cycles db idle h =
      elim cfg.enabled
        as (λ on.
          Keeps tx_ref row
            (if on then run_cycles quote engine cfg auto_cfg cycles db else db).retry_queue) [
              | true ↦ run_cycles-Keeps cycles db idle h
              | false ↦ h
            ]
