-- ===== src/Resolution/Worker/Stepped.antt =====
-- worker.go over one cycle: the entries that it fetches.
use text.Mathlib.TextEquality.{eq_iff}
use text.Mathlib.TextPositions.{eq_refl}
use reconx.Base.{
  suc, Bool-cases, inl, inr, ℕ, zero, suc, ◌+◌, String, false, ◌≡◌, ◌≢◌, refl, sym, ap, ◌∙◌, subst,
  Option, none, some, List, [], ◌∷◌, All, All-Memᴰ, All-take, ◌==◌, Memᴰ, take, select,
}
use reconx.Base.Exec.{ok, passed, ok-injective}
use reconx.Base.Table.{find, IsKeyed, find-modify_ne}
use reconx.Base.Cursor.{IsDistinct, select-IsDistinct, sort-IsDistinct}
use reconx.Base.Order.{sort}
use reconx.Proto.{ReconStatus}
use reconx.Resolution.Tables.{RetryQueueRow, Database, Env}
use reconx.Resolution.Queries.Retries.{retry_key, due, sooner, get_pending_retries}
use reconx.Resolution.Api.Enqueue.{get_pending_retries_sound}
use reconx.Resolution.Worker.{
  Engine, RetryConfig, AutoResolveConfig, process_batch, run_cycle, retry_one,
}
use reconx.Resolution.Worker.Schedule.{LeavesQueue, Answers}
use reconx.Resolution.Worker.Attempt.{QueueWorks, row_of, next_entry, retry_one-row}
use reconx.Resolution.Worker.Aside.{IsClosed, retry_one_maintains, process_batch_maintains}
use reconx.Resolution.Worker.Idle.{absent}

module _ {A : Type 0} (key : A → String) where
  find-Memᴰ : (a : A) (xs : List A) → IsKeyed key xs → Memᴰ a xs → find key (key a) xs ≡ some a
  unfolding find
  find-Memᴰ a [] h m = elim m [ ]
  find-Memᴰ a (x ∷ xs) h (Memᴰ.head e) = rw e (rw (eq_refl (key x)) refl)
  find-Memᴰ a (x ∷ xs) h (Memᴰ.tail m) =
      let found = find-Memᴰ a xs h.1 m in
      elim (Bool-cases (key x == key a)) [
        | inl t ↦
            absurd (
              let gone = subst (λ i. find key i xs ≡ none) ((eq_iff (key x) (key a)).0 t) h.0 in cc)
        | inr f ↦ rw f found
      ]

  apart : (x : A) (ys : List A) → All (λ y. key y ≡ key x → ⊥) ys → All (λ y. key x ≢ key y) ys
  apart x [] h = tt
  apart x (y ∷ ys) h = ((λ e. h.0 (sym e)), apart x ys h.1)

  IsKeyed-IsDistinct : (xs : List A) → IsKeyed key xs → IsDistinct key xs
  IsKeyed-IsDistinct [] h = tt
  IsKeyed-IsDistinct (x ∷ xs) h =
      (apart x xs (absent key (key x) (λ _. ⊥) xs h.0), IsKeyed-IsDistinct xs h.1)

  take-IsDistinct : (n : ℕ) (xs : List A) → IsDistinct key xs → IsDistinct key (take n xs)
  take-IsDistinct zero xs h = tt
  take-IsDistinct (suc n) [] h = tt
  take-IsDistinct (suc n) (x ∷ xs) h =
      (All-take (λ y. key x ≢ key y) n xs h.0, take-IsDistinct n xs h.1)

-- The row of a transaction, as a property of the queue.
abbrev HasRow : String → RetryQueueRow → List RetryQueueRow → Type 0
HasRow tx_ref row queue = find retry_key tx_ref queue ≡ some row

HasRow-IsClosed :
    (tx_ref : String) (row : RetryQueueRow) (other : String)
    → other ≢ tx_ref
    → IsClosed (HasRow tx_ref row) other
HasRow-IsClosed tx_ref row other ne f queue keeps h =
    find-modify_ne retry_key other tx_ref f queue keeps ne ∙ h

others-IsClosed :
    (tx_ref : String) (row : RetryQueueRow) (entries : List RetryQueueRow)
    → All (λ entry. tx_ref ≢ retry_key entry) entries
    → All (λ entry. IsClosed (HasRow tx_ref row) entry.transaction_ref) entries
others-IsClosed tx_ref row [] h = tt
others-IsClosed tx_ref row (entry ∷ entries) h = (
  HasRow-IsClosed tx_ref row entry.transaction_ref (λ e. h.0 (sym e)),
  others-IsClosed tx_ref row entries h.1,
)

module _ (quote : String → String) (engine : Engine) (cfg : RetryConfig)
    (auto_cfg : AutoResolveConfig) (manual : auto_cfg.auto_apply_on_exhaustion ≡ false)
    (envs : ℕ → Env) (works : (i : ℕ) → QueueWorks (envs i)) (leaves : LeavesQueue engine)
    (row : RetryQueueRow) (answer : Option ReconStatus)
    (answers : Answers engine row.transaction_ref answer) where
  stepped :
      (i : ℕ) (db : Database)
      → row_of db row.transaction_ref ≡ some row
      → row_of (retry_one quote engine cfg auto_cfg (envs i) row db).1 row.transaction_ref
        ≡ some (next_entry cfg (envs i) row answer)
  stepped i db found =
      retry_one-row quote engine cfg auto_cfg manual (envs i) row db (works i)
        (subst (HasRow row.transaction_ref row) (sym (leaves row.transaction_ref db)) found)
      ∙ ap (λ a. some (next_entry cfg (envs i) row a)) (answers db)

  process_batch-row :
      (i : ℕ) (entries : List RetryQueueRow) (db : Database)
      → IsDistinct retry_key entries
      → Memᴰ row entries
      → row_of db row.transaction_ref ≡ some row
      → (j : ℕ) × (row_of
            (process_batch quote engine cfg auto_cfg envs (λ _. false) i entries db)
            row.transaction_ref
          ≡ some (next_entry cfg (envs j) row answer))
  unfolding process_batch
  process_batch-row i [] db distinct m found = elim m [ ]
  process_batch-row i (entry ∷ entries) db distinct (Memᴰ.head e) found = (
    i,
    process_batch_maintains quote engine cfg auto_cfg
        (HasRow row.transaction_ref (next_entry cfg (envs i) row answer)) leaves envs (λ _. false)
        (i + 1) entries (retry_one quote engine cfg auto_cfg (envs i) entry db).1
        (others-IsClosed row.transaction_ref (next_entry cfg (envs i) row answer) entries
          (subst (λ t. All (λ y. retry_key t ≢ retry_key y) entries) (sym e) distinct.0))
        (subst
          (λ t.
            row_of (retry_one quote engine cfg auto_cfg (envs i) t db).1 row.transaction_ref
            ≡ some (next_entry cfg (envs i) row answer))
          e (stepped i db found)),
  )
  process_batch-row i (entry ∷ entries) db distinct (Memᴰ.tail m) found =
      process_batch-row (i + 1) entries (retry_one quote engine cfg auto_cfg (envs i) entry db).1
        distinct.1 m
        (retry_one_maintains quote engine cfg auto_cfg (HasRow row.transaction_ref row) (envs i)
          entry
          (HasRow-IsClosed row.transaction_ref row entry.transaction_ref
            (All-Memᴰ (λ y. retry_key entry ≢ retry_key y) m distinct.0))
          leaves db found)

  -- A cycle that is not cancelled takes each entry that it fetched exactly one step along the state
  -- machine, whatever the other entries of its batch are. Exhausted transactions are left for a
  -- manual resolution, the updates of the queue succeed, its transactions are distinct, the engine
  -- does not write to it, and gives this transaction one answer.
  pub run_cycle-row :
      (env : Env) (batch : List RetryQueueRow) (db : Database)
      → IsKeyed retry_key db.retry_queue
      → (get_pending_retries env cfg.batch_size db).0 ≡ ok batch
      → Memᴰ row batch
      → (i : ℕ) × (row_of
            (run_cycle quote engine cfg auto_cfg env envs (λ _. false) db)
            row.transaction_ref
          ≡ some (next_entry cfg (envs i) row answer))
  unfolding run_cycle get_pending_retries
  run_cycle-row env batch db keyed e m =
      let listed = All-Memᴰ _ m (get_pending_retries_sound env cfg.batch_size db batch e).0 in
      let distinct =
        take-IsDistinct retry_key cfg.batch_size (sort sooner (select (due env.now) db.retry_queue))
          (sort-IsDistinct retry_key sooner (select (due env.now) db.retry_queue) (
            select-IsDistinct retry_key (due env.now) db.retry_queue
              (IsKeyed-IsDistinct retry_key db.retry_queue keyed))) in
      rw e (
        process_batch-row 0 batch db
          (subst (IsDistinct retry_key) (ok-injective (passed _ _ _ e).1) distinct) m
          (find-Memᴰ retry_key row db.retry_queue keyed listed.0))
