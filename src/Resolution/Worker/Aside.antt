-- ===== src/Resolution/Worker/Aside.antt =====
-- worker.go, retryOne and the loop of runCycle: what they maintain of the retry queue.
use reconx.Base.{
  [], ◌∷◌, ◌∷◌, Bool, All, Bool-cases, inl, inr, ℕ, ◌+◌, String, ◌≡◌, refl, sym, subst, Option,
  none, some, List, leb, ◌==◌, ◌||◌,
}
use reconx.Base.Exec.{Result, ok, err}
use reconx.Base.Table.{modify}
use reconx.Proto.{ReconStatus}
use reconx.Resolution.Tables.{RetryQueueRow, Database, Call, Env, written}
use reconx.Resolution.Queries.Retries.{retry_key, attempted, with_status, mark_retry_resolved}
use reconx.Resolution.Strategy.{Strategy, Resolved, ResolveError, parse_strategy, resolve}
use reconx.Resolution.Strategy.Winner.{resolve_reads}
use reconx.Resolution.Worker.{
  process_batch, Engine, RetryConfig, AutoResolveConfig, retry_one, on_answer, on_status,
  on_engine_error, proto_status_to_string, retry_mismatched, handle_exhausted,
  auto_resolve_exhausted, with_strategy, after_resolve, after_apply, next_retry_time,
  apply_auto_resolution,
}
use reconx.Resolution.Worker.Schedule.{LeavesQueue}

-- A property of the queue that updates of the entry `other` keep.
abbrev pub IsClosed : (List RetryQueueRow → Type 0) → String → Type 0
IsClosed holds other =
    (f : RetryQueueRow → RetryQueueRow) (queue : List RetryQueueRow)
    → ((r : RetryQueueRow) → retry_key (f r) ≡ retry_key r)
    → holds queue
    → holds (modify retry_key other f queue)

-- Such an update, whether it fails or not.
written_maintains :
    (holds : List RetryQueueRow → Type 0) (env : Env) (other : String)
    (closed : IsClosed holds other) (call : Call) (f : RetryQueueRow → RetryQueueRow)
    (queue : List RetryQueueRow)
    → ((r : RetryQueueRow) → retry_key (f r) ≡ retry_key r)
    → holds queue
    → holds (written env call queue (modify retry_key other f queue))
written_maintains holds env other closed call f queue keeps h = elim (Bool-cases (env.fails call)) [
  | inl e ↦ rw e h
  | inr e ↦ rw e (closed f queue keeps h)
]

module _ (quote : String → String) (engine : Engine) (cfg : RetryConfig)
    (auto_cfg : AutoResolveConfig) (holds : List RetryQueueRow → Type 0) where
  module _ (env : Env) (other : String) (closed : IsClosed holds other) where
    apply_auto_resolution-queue :
        (result : Resolved) (resolver_id : String) (db : Database)
        → (apply_auto_resolution quote engine cfg auto_cfg env other result resolver_id
            db).1.retry_queue
          ≡ db.retry_queue
    unfolding apply_auto_resolution
    apply_auto_resolution-queue result resolver_id db =
        elim (Bool-cases (env.fails Call.insert_resolution)) [
          | inl e ↦ rw e refl
          | inr e ↦ elim (Bool-cases (env.fails Call.update_state)) [
            | inl u ↦ rw (e, u) refl
            | inr u ↦ rw (e, u) refl
          ]
        ]

    after_apply_maintains :
        (applied : Result _ _) (db : Database)
        → holds db.retry_queue
        → holds (after_apply quote engine cfg auto_cfg env other applied db).1.retry_queue
    unfolding mark_retry_resolved
    after_apply_maintains (err e) db h = h
    after_apply_maintains (ok u) db h =
        written_maintains holds env other closed Call.resolve (with_status "RESOLVED")
          db.retry_queue (λ _. refl) h

    after_resolve_maintains :
        (result : Result ResolveError Resolved) (db : Database)
        → holds db.retry_queue
        → holds (after_resolve quote engine cfg auto_cfg env other result db).1.retry_queue
    after_resolve_maintains (err e) db h = h
    after_resolve_maintains (ok result) db h =
        let (applied, db') =
          apply_auto_resolution quote engine cfg auto_cfg env other result "system:retry_worker"
            db in
        after_apply_maintains applied db'
          (subst holds (sym (apply_auto_resolution-queue result "system:retry_worker" db)) h)

    with_strategy_maintains :
        (strategy : Option Strategy) (db : Database)
        → holds db.retry_queue
        → holds (with_strategy quote engine cfg auto_cfg env other strategy db).1.retry_queue
    with_strategy_maintains none db h = h
    with_strategy_maintains (some strategy) db h =
        let (result, db') = resolve quote env other strategy auto_cfg.source_priority db in
        after_resolve_maintains result db' (
          subst (λ d. holds d.retry_queue)
            (sym (resolve_reads quote env other strategy auto_cfg.source_priority db)) h)

    auto_resolve_exhausted_maintains :
        (db : Database)
        → holds db.retry_queue
        → holds (auto_resolve_exhausted quote engine cfg auto_cfg env other db).1.retry_queue
    unfolding auto_resolve_exhausted
    auto_resolve_exhausted_maintains db h = elim (Bool-cases auto_cfg.auto_apply_on_exhaustion) [
      | inl e ↦ rw e (with_strategy_maintains (parse_strategy auto_cfg.default_strategy) db h)
      | inr e ↦ rw e h
    ]

    handle_exhausted_maintains :
        (attempt : ℕ) (db : Database)
        → holds db.retry_queue
        → holds (handle_exhausted quote engine cfg auto_cfg env other attempt db).1.retry_queue
    unfolding handle_exhausted
    handle_exhausted_maintains attempt db h =
        let kept =
          written_maintains holds env other closed Call.exhaust (with_status "EXHAUSTED")
            db.retry_queue (λ _. refl) h in
        elim (Bool-cases (env.fails Call.exhaust)) [
          | inl e ↦ rw e h
          | inr e ↦ rw e (auto_resolve_exhausted_maintains _ (rw e at kept))
        ]

    raised :
        (attempt : ℕ) (db : Database)
        → holds db.retry_queue
        → holds (
            written env Call.increment db.retry_queue (
              modify retry_key other
                (attempted env (next_retry_time cfg env attempt))
                db.retry_queue))
    raised attempt db h =
        written_maintains holds env other closed Call.increment
          (attempted env (next_retry_time cfg env attempt)) db.retry_queue (λ _. refl) h

  module _ (env : Env) (entry : RetryQueueRow) (closed : IsClosed holds entry.transaction_ref) where
    retry_mismatched_maintains :
        (attempt : ℕ) (status : String) (db : Database)
        → holds db.retry_queue
        → holds
            (retry_mismatched quote engine cfg auto_cfg env entry attempt status db).1.retry_queue
    unfolding retry_mismatched
    retry_mismatched_maintains attempt status db h =
        let kept = raised env entry.transaction_ref closed attempt db h in
        elim (Bool-cases (leb entry.max_attempts attempt)) [
          | inl last ↦
              rw last (handle_exhausted_maintains env entry.transaction_ref closed attempt db h)
          | inr more ↦ elim (Bool-cases (env.fails Call.increment)) [
            | inl e ↦ rw (more, e) h
            | inr e ↦ rw (more, e) (rw e at kept)
          ]
        ]

    on_status_maintains :
        (attempt : ℕ) (status : String) (db : Database)
        → holds db.retry_queue
        → holds (on_status quote engine cfg auto_cfg env entry attempt status db).1.retry_queue
    unfolding on_status
    on_status_maintains attempt status db h =
        elim (Bool-cases (status == "MATCHED" || status == "RESOLVED")) [
          | inl e ↦ rw e (
              written_maintains holds env entry.transaction_ref closed Call.resolve
                (with_status "RESOLVED") db.retry_queue (λ _. refl) h)
          | inr e ↦ elim (Bool-cases (status == "MISMATCHED")) [
            | inl m ↦ rw (e, m) (retry_mismatched_maintains attempt status db h)
            | inr m ↦ rw (e, m) (raised env entry.transaction_ref closed attempt db h)
          ]
        ]

    on_answer_maintains :
        (answer : Option ReconStatus) (db : Database)
        → holds db.retry_queue
        → holds (on_answer quote engine cfg auto_cfg env entry answer db).1.retry_queue
    unfolding on_engine_error
    on_answer_maintains none db h =
        raised env entry.transaction_ref closed (entry.attempt_count + 1) db h
    on_answer_maintains (some status) db h =
        on_status_maintains (entry.attempt_count + 1) (proto_status_to_string status) db h

    pub retry_one_maintains :
        LeavesQueue engine
        → (db : Database) → holds db.retry_queue
        → holds (retry_one quote engine cfg auto_cfg env entry db).1.retry_queue
    unfolding retry_one
    retry_one_maintains leaves db h =
        let (answer, db') = engine entry.transaction_ref db in
        on_answer_maintains answer db' (subst holds (sym (leaves entry.transaction_ref db)) h)

  pub process_batch_maintains :
      (leaves : LeavesQueue engine) (envs : ℕ → Env) (cancelled : ℕ → Bool) (i : ℕ)
      (entries : List RetryQueueRow) (db : Database)
      → All (λ entry. IsClosed holds entry.transaction_ref) entries
      → holds db.retry_queue
      → holds (process_batch quote engine cfg auto_cfg envs cancelled i entries db).retry_queue
  unfolding process_batch
  process_batch_maintains leaves envs cancelled i [] db closed h = h
  process_batch_maintains leaves envs cancelled i (entry ∷ entries) db closed h =
      elim (Bool-cases (cancelled i)) [
        | inl e ↦ rw e h
        | inr e ↦ rw e (
            process_batch_maintains leaves envs cancelled (i + 1) entries _ closed.1
              (retry_one_maintains (envs i) entry closed.0 leaves db h))
      ]
