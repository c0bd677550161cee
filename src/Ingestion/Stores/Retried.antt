-- ===== src/Ingestion/Stores/Retried.antt =====
-- dlq.go, Dequeue and MarkRetried: which dead letters are handed out for a retry, and how often.
use reconx.Base.{ℕ, Bool, true, false, ◌≡◌, subst, List, arith, ltb, leb}
use reconx.Base.Batch.{IsBatch, take-IsBatch}
use reconx.Base.Exec.{ok, passed, ok-injective}
use reconx.Base.Order.{IsPreorder}
use reconx.Ingestion.Stores.{Entry, Tables, Env, dequeue, created_first}

created_first-IsPreorder : IsPreorder created_first
created_first-IsPreorder = record {
  total = λ a b e. leb_total a.created_at b.created_at e;
  trans = λ a b c e f. leb_trans a.created_at b.created_at c.created_at e f;
}
  where
    leb_total : (m n : ℕ) → leb m n ≡ false → leb n m ≡ true
    leb_total m n e = ground arith

    leb_trans : (m n o : ℕ) → leb m n ≡ true → leb n o ≡ true → leb m o ≡ true
    leb_trans m n o e f = ground arith

abbrev is_eligible : ℕ → Entry → Bool
is_eligible max_retries e = ltb e.retry_count max_retries

-- What is handed out for a retry: entries of the queue that have been retried fewer times than the
-- limit says, at most as many as asked for, the oldest first.
dequeue_sound :
    (env : Env) (max_retries limit : ℕ) (tables : Tables) (entries : List Entry)
    → (dequeue env max_retries limit tables).0 ≡ ok entries
    → IsBatch created_first (is_eligible max_retries) limit tables.dlq entries
unfolding dequeue
dequeue_sound env max_retries limit tables entries e =
    let (_, same) = passed _ _ _ e in
    subst (IsBatch created_first (is_eligible max_retries) limit tables.dlq) (ok-injective same) (
      take-IsBatch created_first (is_eligible max_retries) created_first-IsPreorder limit
        tables.dlq)
