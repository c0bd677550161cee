-- ===== src/Resolution/Queries/Retries.antt =====
-- db.go: resolution_retry_queue.
use reconx.Base.{
  ℕ, ◌+◌, String, Bool, ◌&&◌, ◌||◌, none, some, List, ltb, leb, ◌==◌, if◌then◌else◌, length, take,
  select,
}
use reconx.Base.Int.{ℤ, pos, negsuc}
use reconx.Base.Order.{sort}
use reconx.Base.Table.{modify, upsert}
use reconx.Resolution.Tables.{RetryQueueRow, Call, Env, DbError, Db, done, written, query}

abbrev pub retry_key : RetryQueueRow → String
retry_key r = r.transaction_ref

abbrev pub new_entry : Env → String → ℕ → String → RetryQueueRow
new_entry env tx_ref max_attempts requested_by = record {
  transaction_ref = tx_ref;
  attempt_count = 0;
  max_attempts = max_attempts;
  last_attempted_at = none;
  next_retry_at = env.now;
  status = "PENDING";
  requested_by = requested_by;
  created_at = env.now;
}

-- The ON CONFLICT clause: an EXHAUSTED entry starts again, any other keeps its status and count.
abbrev pub renewed : Env → ℕ → String → RetryQueueRow → RetryQueueRow
renewed env max_attempts requested_by old = record old {
  max_attempts = max_attempts;
  next_retry_at = env.now;
  requested_by = requested_by;
  status = if old.status == "EXHAUSTED" then "PENDING" else old.status;
  attempt_count = if old.status == "EXHAUSTED" then 0 else old.attempt_count;
}

unfoldable pub enqueue_retry : Env → String → ℕ → String → Db DbError Unit
enqueue_retry env tx_ref max_attempts requested_by db = (
  done env Call.enqueue,
  record db {
    retry_queue = written env Call.enqueue db.retry_queue (
        upsert retry_key (new_entry env tx_ref max_attempts requested_by)
          (renewed env max_attempts requested_by) db.retry_queue);
  },
)

abbrev pub due : ℕ → RetryQueueRow → Bool
due now r = r.status == "PENDING" && leb r.next_retry_at now

abbrev pub sooner : RetryQueueRow → RetryQueueRow → Bool
sooner a b = leb a.next_retry_at b.next_retry_at

unfoldable pub get_pending_retries : Env → ℕ → Db DbError (List RetryQueueRow)
get_pending_retries env limit =
    query env Call.pending_retries
      λ db. take limit (sort sooner (select (due env.now) db.retry_queue))

abbrev pub attempted : Env → ℕ → RetryQueueRow → RetryQueueRow
attempted env next_retry_at r = record r {
  attempt_count = r.attempt_count + 1;
  last_attempted_at = some env.now;
  next_retry_at = next_retry_at;
}

unfoldable pub increment_retry_attempt : Env → String → ℕ → Db DbError Unit
increment_retry_attempt env tx_ref next_retry_at db = (
  done env Call.increment,
  record db {
    retry_queue =
        written env Call.increment db.retry_queue
          (modify retry_key tx_ref (attempted env next_retry_at) db.retry_queue);
  },
)

abbrev pub with_status : String → RetryQueueRow → RetryQueueRow
with_status status r = record r { status = status }

unfoldable pub mark_retry_exhausted : Env → String → Db DbError Unit
mark_retry_exhausted env tx_ref db = (
  done env Call.exhaust,
  record db {
    retry_queue =
        written env Call.exhaust db.retry_queue
          (modify retry_key tx_ref (with_status "EXHAUSTED") db.retry_queue);
  },
)

unfoldable pub mark_retry_resolved : Env → String → Db DbError Unit
mark_retry_resolved env tx_ref db = (
  done env Call.resolve,
  record db {
    retry_queue =
        written env Call.resolve db.retry_queue
          (modify retry_key tx_ref (with_status "RESOLVED") db.retry_queue);
  },
)

-- A page size that is not positive or above the limit becomes the default.
unfoldable pub page_size_of : (fallback limit : ℕ) → ℤ → ℕ
page_size_of fallback limit (negsuc n) = fallback
page_size_of fallback limit (pos n) = if leb n 0 || ltb limit n then fallback else n

-- An empty cursor or filter leaves its condition out of the query.
abbrev pub in_page : Env → String → String → RetryQueueRow → Bool
in_page env page_token status_filter r =
    (page_token == "" || env.text_ltb page_token r.transaction_ref)
    && (status_filter == "" || r.status == status_filter)

unfoldable pub get_retry_queue : Env → ℤ → String → String → Db DbError (List RetryQueueRow)
get_retry_queue env page_size page_token status_filter = query env Call.retry_queue λ db.
    take (page_size_of 50 200 page_size)
      (sort sooner (select (in_page env page_token status_filter) db.retry_queue))

abbrev pub has_status : String → RetryQueueRow → Bool
has_status status r = r.status == status

unfoldable pub retry_queue_stats : Env → Db DbError (ℕ × ℕ × ℕ)
retry_queue_stats env = query env Call.queue_stats λ db. (
  length (select (has_status "PENDING") db.retry_queue),
  length (select (has_status "EXHAUSTED") db.retry_queue),
  length (select (has_status "RESOLVED") db.retry_queue),
)
