-- ===== src/Resolution/Api/Enqueue.antt =====
-- handler.go, enqueueRetry: what a successful call makes of the queue entry, and when the worker
-- fetches it.
use mathlib.Core.Option
use reconx.Base.{
  subst, ◌∙◌, ℕ, String, Bool, true, false, not, ◌≡◌, refl, ◌≢◌, Option, none, some, List, arith,
  leb, if◌then◌else◌, ◌==◌, eq_iff, eq_refl, ==-false, Bool-cases, inl, inr,
}
use reconx.Base.Exec.{◌>>=◌, ok, continue-ok, passed, renamed-ok, ok-injective}
use reconx.Base.Order.{IsPreorder}
use reconx.Base.Batch.{IsBatch, take-IsBatch}
use reconx.Base.Table.{by_key, find, upsert, find-upsert}
use reconx.Resolution.Tables.{ReconState, RetryQueueRow, Database, Call, Env, scanned-ok}
use reconx.Resolution.Queries.States.{state_key}
use reconx.Resolution.Queries.Retries.{
  retry_key, new_entry, renewed, due, get_pending_retries, sooner,
}
use reconx.Resolution.Worker.Attempt.{row_of}
use reconx.Resolution.Api.{
  enqueue_request, ApiConfig, Body, body_or, EnqueueRetryRequest, EnqueueRetryResponse,
  enqueue_handler, attempts_or, no_retry_request, or_default,
}

-- What the reply says of the limit, and who asked.
abbrev pub request_of : Body EnqueueRetryRequest → EnqueueRetryRequest
request_of Body.malformed = no_retry_request
request_of Body.no_body = no_retry_request
request_of (Body.decoded req) = req

-- The entry after the call, by the entry before it.
abbrev pub enqueued :
    ApiConfig → Env → String → EnqueueRetryRequest → Option RetryQueueRow → RetryQueueRow
enqueued cfg env tx_ref req none =
    new_entry env tx_ref (attempts_or cfg.max_attempts req.max_attempts)
      (or_default req.requested_by "api")
enqueued cfg env tx_ref req (some old) =
    renewed env (attempts_or cfg.max_attempts req.max_attempts) (or_default req.requested_by "api")
      old

enqueue_handler-request :
    (cfg : ApiConfig) (env : Env) (tx_ref : String) (body : Body EnqueueRetryRequest)
    (db : Database) {resp : EnqueueRetryResponse}
    → (enqueue_handler cfg env tx_ref body db).0 ≡ ok resp
    → enqueue_handler cfg env tx_ref body db ≡ enqueue_request cfg env tx_ref (request_of body) db
unfolding enqueue_handler
enqueue_handler-request cfg env tx_ref body db {resp = resp} e = elim (Bool-cases (tx_ref == "")) [
  | inl blank ↦ absurd (let k = rw blank at e in cc)
  | inr named ↦ rw named (of_body body (rw named at e))
]
  where
    of_body :
        (b : Body EnqueueRetryRequest)
        → ((body_or no_retry_request b >>= enqueue_request cfg env tx_ref) db).0 ≡ ok resp
        → (body_or no_retry_request b >>= enqueue_request cfg env tx_ref) db
          ≡ enqueue_request cfg env tx_ref (request_of b) db
    of_body Body.malformed h = absurd (cc)
    of_body Body.no_body h = refl
    of_body (Body.decoded req) h = refl

-- The statement that both sides of the upsert agree on.
upserted :
    (cfg : ApiConfig) (env : Env) (tx_ref : String) (req : EnqueueRetryRequest)
    (rows : List RetryQueueRow)
    → find retry_key tx_ref (
        upsert retry_key
          (enqueued cfg env tx_ref req none)
          (λ old. enqueued cfg env tx_ref req (some old))
          rows)
      ≡ some (enqueued cfg env tx_ref req (find retry_key tx_ref rows))
upserted cfg env tx_ref req rows =
    find-upsert retry_key tx_ref (enqueued cfg env tx_ref req none)
      (λ old. enqueued cfg env tx_ref req (some old)) rows (λ _. refl)
    ∙ rw (eq_refl tx_ref) (old_or_new (find retry_key tx_ref rows))
  where
    old_or_new :
        (o : Option RetryQueueRow)
        → some (
            Option.get_or
              (Option.map (λ old. enqueued cfg env tx_ref req (some old)) o)
              (enqueued cfg env tx_ref req none))
          ≡ some (enqueued cfg env tx_ref req o)
    old_or_new none = refl
    old_or_new (some old) = refl

-- What lets a call through.
record IsEnqueued (env : Env) (tx_ref : String) (db : Database) : Type 0 where
  readable : env.fails Call.get_state ≡ false
  state : ReconState
  found : find state_key tx_ref db.recon_state ≡ some state
  is_mismatched : not (state.status == "MISMATCHED") ≡ false
  works : env.fails Call.enqueue ≡ false

IsEnqueued-of_ok :
    (cfg : ApiConfig) (env : Env) (tx_ref : String) (req : EnqueueRetryRequest) (db : Database)
    {resp : EnqueueRetryResponse}
    → (enqueue_request cfg env tx_ref req db).0 ≡ ok resp
    → IsEnqueued env tx_ref db
unfolding enqueue_request
IsEnqueued-of_ok cfg env tx_ref req db e =
    let (s, r1, k1) = continue-ok _ _ _ e in
    let (_, r2, k2) = continue-ok _ _ _ k1 in
    let (_, r3, k3) = continue-ok _ _ _ k2 in
    let (readable, scan) = passed _ _ _ (renamed-ok _ _ r1) in
    record {
      readable = readable;
      state = s;
      found = scanned-ok _ scan;
      is_mismatched = (passed _ _ _ r2).0;
      works = (passed _ _ _ (renamed-ok _ _ r3)).0;
    }

not-false : (b : Bool) → not b ≡ false → b ≡ true
not-false true e = refl
not-false false e = cc

enqueue_request_lem :
    (cfg : ApiConfig) (env : Env) (tx_ref : String) (req : EnqueueRetryRequest) (db : Database)
    {resp : EnqueueRetryResponse}
    → (enqueue_request cfg env tx_ref req db).0 ≡ ok resp
    → ((state : ReconState) × (find state_key tx_ref db.recon_state ≡ some state)
        × (state.status ≡ "MISMATCHED"))
      × (row_of (enqueue_request cfg env tx_ref req db).1 tx_ref
          ≡ some (enqueued cfg env tx_ref req (row_of db tx_ref)))
      × ((k : String)
          → tx_ref ≢ k
          → row_of (enqueue_request cfg env tx_ref req db).1 k ≡ row_of db k)
unfolding enqueue_request
enqueue_request_lem cfg env tx_ref req db {resp = resp} e =
    let q : IsEnqueued env tx_ref db = IsEnqueued-of_ok cfg env tx_ref req db e in
    (
      (q.state, q.found, (eq_iff q.state.status "MISMATCHED").0 (not-false _ q.is_mismatched)),
      rw (q.readable, q.found, q.is_mismatched, q.works)
          (upserted cfg env tx_ref req db.retry_queue),
      λ k ne.
          rw (q.readable, q.found, q.is_mismatched, q.works)
            (find-upsert retry_key k (enqueued cfg env tx_ref req none)
                (λ old. enqueued cfg env tx_ref req (some old)) db.retry_queue (λ _. refl)
              ∙ rw (==-false tx_ref k ne)),
    )

-- A successful call was for a MISMATCHED transaction; its entry is new, or renewed, and all other
-- entries are as before.
enqueue_handler_lem :
    (cfg : ApiConfig) (env : Env) (tx_ref : String) (body : Body EnqueueRetryRequest)
    (db : Database) (resp : EnqueueRetryResponse) (k : String)
    → (enqueue_handler cfg env tx_ref body db).0 ≡ ok resp
    → ((state : ReconState) × (find state_key tx_ref db.recon_state ≡ some state)
        × (state.status ≡ "MISMATCHED"))
      × (row_of (enqueue_handler cfg env tx_ref body db).1 k ≡ (
          if tx_ref == k
          then some (enqueued cfg env tx_ref (request_of body) (row_of db tx_ref))
          else row_of db k))
enqueue_handler_lem cfg env tx_ref body db resp k e =
    let same = enqueue_handler-request cfg env tx_ref body db e in
    let (state, row, others) =
      enqueue_request_lem cfg env tx_ref (request_of body) db (rw same at e) in
    (
      state,
      rw same (
          by_key (row_of (enqueue_request cfg env tx_ref (request_of body) db).1) (row_of db) tx_ref
            (some (enqueued cfg env tx_ref (request_of body) (row_of db tx_ref))) k row others),
    )

-- A call that succeeds on a RESOLVED entry was for a transaction that is MISMATCHED, and yet leaves the
-- entry RESOLVED with its old count, so that it is due at no time and the worker never fetches it.
pub enqueue_resolved_never_due :
    (cfg : ApiConfig) (env : Env) (tx_ref : String) (body : Body EnqueueRetryRequest)
    (db : Database) (resp : EnqueueRetryResponse) (old : RetryQueueRow)
    → (enqueue_handler cfg env tx_ref body db).0 ≡ ok resp
    → row_of db tx_ref ≡ some old
    → old.status ≡ "RESOLVED"
    → ((state : ReconState) × (find state_key tx_ref db.recon_state ≡ some state)
        × (state.status ≡ "MISMATCHED"))
      × ((row : RetryQueueRow) × (row_of (enqueue_handler cfg env tx_ref body db).1 tx_ref
            ≡ some row)
          × (row.status ≡ "RESOLVED")
          × (row.attempt_count ≡ old.attempt_count)
          × ((now : ℕ) → due now row ≡ false))
enqueue_resolved_never_due cfg env tx_ref body db resp old e found resolved =
    let (state, row) = enqueue_handler_lem cfg env tx_ref body db resp tx_ref e in
    (
      state,
      (
        enqueued cfg env tx_ref (request_of body) (some old),
        row ∙ rw (eq_refl tx_ref, found),
        rw resolved refl,
        rw resolved refl,
        λ now. rw resolved,
      ),
    )

sooner-IsPreorder : IsPreorder sooner
sooner-IsPreorder = record {
  total = λ a b e. leb_total a.next_retry_at b.next_retry_at e;
  trans = λ a b c e f. leb_trans a.next_retry_at b.next_retry_at c.next_retry_at e f;
}
  where
    leb_total : (m n : ℕ) → leb m n ≡ false → leb n m ≡ true
    leb_total m n e = ground arith

    leb_trans : (m n o : ℕ) → leb m n ≡ true → leb n o ≡ true → leb m o ≡ true
    leb_trans m n o e f = ground arith

-- What the worker fetches: entries of the queue that are PENDING and due, at most as many as the
-- limit, the soonest first.
pub get_pending_retries_sound :
    (env : Env) (limit : ℕ) (db : Database) (rows : List RetryQueueRow)
    → (get_pending_retries env limit db).0 ≡ ok rows
    → IsBatch sooner (due env.now) limit db.retry_queue rows
unfolding get_pending_retries
get_pending_retries_sound env limit db rows e =
    let (_, same) = passed _ _ _ e in
    subst (IsBatch sooner (due env.now) limit db.retry_queue) (ok-injective same)
      (take-IsBatch sooner (due env.now) sooner-IsPreorder limit db.retry_queue)
