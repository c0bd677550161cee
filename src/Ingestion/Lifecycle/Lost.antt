-- ===== src/Ingestion/Lifecycle/Lost.antt =====
-- cmd/main.go, main: what is drained before the signal, and what is lost after it.
use mathlib.Core.List.{append_assoc, append-nil}
use reconx.Base.{
  Mem-last, All, ℕ, ◌<◌, true, false, ◌≡◌, refl, sym, ap, ◌∙◌, subst, List, [], ◌∷◌, ◌++◌, length,
  arith,
}
use reconx.Ingestion.Pipeline.{NormalizedRecord, Libs}
use reconx.Ingestion.Stores.{Env}
use reconx.Ingestion.Server.{consume_adapter_queue}
use reconx.Ingestion.Delivered.{received}
use reconx.Ingestion.Server.Grows.{IsBacked}
use reconx.Ingestion.Server.Drained.{IsServed, IsDrained, consume_adapter_queue-IsDrained}
use reconx.Ingestion.Lifecycle.{
  serving, grpc_stopping, Service, Step, accept, acknowledge, consume, serve, stop_consuming,
  advance, Reach, here, next, queue_capacity, consumed, next_phase,
}

module _ {D : Type 0} (libs : Libs D) (ttl : ℕ) where
  Reach-trans : {s t u : Service D} → Reach libs ttl s t → Reach libs ttl t u → Reach libs ttl s u
  Reach-trans r here = r
  Reach-trans r (next q step) = next (Reach-trans r q) step

  -- Once the consumer of the queue has stopped, nothing more is submitted from it.
  abbrev HasStopped : List (NormalizedRecord D) → Service D → Type 0
  HasStopped submitted s = (s.consuming ≡ false) × (s.submitted ≡ submitted)

  Step-HasStopped :
      {s t : Service D} (submitted : List (NormalizedRecord D))
      → Step libs ttl s t
      → HasStopped submitted s
      → HasStopped submitted t
  Step-HasStopped xs (accept rec is_open room e) h = subst (HasStopped xs) (sym e) h
  Step-HasStopped xs (acknowledge recs is_open queued e) h = subst (HasStopped xs) (sym e) h
  Step-HasStopped xs (consume env rec rest on q e) h = absurd (cc)
  Step-HasStopped xs (serve env req is_open e) h = subst (HasStopped xs) (sym e) h
  Step-HasStopped xs (stop_consuming c e) h = subst (HasStopped xs) (sym e) (refl, h.1)
  Step-HasStopped xs (advance e) h = subst (HasStopped xs) (sym e) h

  Reach-HasStopped :
      {s t : Service D} (submitted : List (NormalizedRecord D))
      → Reach libs ttl s t
      → HasStopped submitted s
      → HasStopped submitted t
  Reach-HasStopped xs here h = h
  Reach-HasStopped xs (next r step) h = Step-HasStopped xs step (Reach-HasStopped xs r h)

  -- The service after the signal, the end of the consumer and one more record from an adapter.
  abbrev pub late : NormalizedRecord D → Service D → Service D
  late rec s = record s {
    phase = grpc_stopping;
    consuming = false;
    queue = s.queue ++ rec ∷ [];
    queued = s.queued ++ rec ∷ [];
    acknowledged = s.acknowledged ++ rec ∷ [];
  }

  -- A shutdown loses acknowledged records. Whenever the service is serving and its queue has room, it
  -- can come to acknowledge a record of which, and of all that was on the queue, nothing is ever
  -- submitted, whatever steps follow.
  pub shutdown_loses :
      (s u : Service D) (rec : NormalizedRecord D)
      → s.phase ≡ serving
      → length s.queue < queue_capacity
      → Reach libs ttl (late rec s) u
      → Reach libs ttl s (late rec s) × (u.submitted ≡ s.submitted)
  shutdown_loses s u rec up room r = (
    next
        (next (next (next here (advance refl)) (stop_consuming (rw up refl) refl))
          (accept rec (rw up refl) room refl))
        (acknowledge (rec ∷ []) (rw up refl) (Mem-last rec s.queued, tt)
          (sym (ap (λ p. record (late rec s) { phase = next_phase p }) up))),
    (Reach-HasStopped s.submitted r (refl, refl)).1,
  )

  -- The service after its consumer has taken the whole queue.
  abbrev pub drained : List Env → Service D → Service D
  drained envs s = record s {
    queue = [];
    tables = consume_adapter_queue libs ttl (received envs s.queue) s.tables;
    submitted = s.submitted ++ s.queue;
  }

  drained_from :
      (envs : List Env) (queue : List (NormalizedRecord D)) (s : Service D)
      → s.consuming ≡ true
      → s.queue ≡ queue
      → length envs ≡ length queue
      → Reach libs ttl s (record s {
        queue = [];
        tables = consume_adapter_queue libs ttl (received envs queue) s.tables;
        submitted = s.submitted ++ queue;
      })
  unfolding consume_adapter_queue
  drained_from [] [] s on same whole =
      subst (Reach libs ttl s)
        (ap (λ q. record s { queue = q }) same
          ∙ ap (λ xs. record s { queue = []; submitted = xs }) (sym (append-nil s.submitted)))
        here
  drained_from [] (rec ∷ rest) s on same whole = absurd (omega arith)
  drained_from (env ∷ envs) [] s on same whole = absurd (omega arith)
  drained_from (env ∷ envs) (rec ∷ rest) s on same whole =
      let taken : Service D = consumed libs ttl env rec rest s in
      Reach-trans (next here (consume env rec rest on same refl)) (
        subst
          (λ xs. Reach libs ttl taken (record taken {
            queue = [];
            tables = consume_adapter_queue libs ttl (received envs rest) taken.tables;
            submitted = xs;
          }))
          (append_assoc s.submitted (rec ∷ []) rest)
          (drained_from envs rest taken on refl (omega arith)))

  -- While the consumer runs, it can empty the queue, and then each record that was on it has its key
  -- among the records, or an entry of the dead letter queue with its key, source and bytes; where the
  -- rate limiter lets each record through, the dead letter queue can be written, and each cached reply
  -- stands for a stored record.
  pub Reach-drained :
      (envs : List Env) (s : Service D)
      → s.consuming ≡ true
      → length envs ≡ length s.queue
      → All IsServed (received envs s.queue)
      → IsBacked s.tables
      → Reach libs ttl s (drained envs s)
        × All (IsDrained (drained envs s).tables) (received envs s.queue)
  Reach-drained envs s on whole served backed = (
    drained_from envs s.queue s on refl whole,
    consume_adapter_queue-IsDrained libs ttl (received envs s.queue) s.tables served backed,
  )
