-- ===== src/Ingestion/Lifecycle/Accounted.antt =====
-- cmd/main.go, main: what the service has acknowledged is on its queue, or kept.
use mathlib.Core.Option.{some-injective}
use reconx.Base.{
  ℕ, ◌≤◌, Bool, true, false, ◌&&◌, ◌≡◌, refl, sym, ap, subst, ◌⊎◌, inl, inr, some, List, [], ◌∷◌,
  ◌++◌, length, length-append, arith, Bool-cases, All, Memᴰ, Mem-left, Mem-last, All-append,
  All-implies, All-Memᴰ,
}
use reconx.Ingestion.Pipeline.{NormalizedRecord, Libs}
use reconx.Ingestion.Stores.{Tables}
use reconx.Ingestion.Server.{normalized_to_proto}
use reconx.Ingestion.Server.Grows.{Grows, IsBacked}
use reconx.Ingestion.Server.Drained.{
  IsKept, IsServed, IsKept-Grows, submit_record-IsKept, submit_record-IsStep,
}
use reconx.Ingestion.Lifecycle.{
  Phase, serving, grpc_stopping, http_stopping, metrics_stopping, database_closing, exited, Service,
  Startup, start_up, Step, accept, acknowledge, consume, serve, stop_consuming, advance, Reach,
  here, next, queue_capacity, is_cancelled, next_phase,
}

-- The record waits on the queue, or its key is among the records, or the dead letter queue has it.
abbrev pub IsSafe : {D : Type 0} → List (NormalizedRecord D) → Tables → NormalizedRecord D → Type 0
IsSafe queue tables rec = Memᴰ rec queue ⊎ IsKept rec tables

pub record IsAccounted {D : Type 0} (s : Service D) : Type 0 where
  pub safe : All (IsSafe s.queue s.tables) s.acknowledged
  pub bounded : length s.queue ≤ queue_capacity
  pub attended : is_cancelled s.phase ≡ false → s.consuming ≡ true

-- The same of all that was ever queued, which an induction needs, and that replies are backed.
record IsSound {D : Type 0} (s : Service D) : Type 0 where
  queued : All (IsSafe s.queue s.tables) s.queued
  accounted : IsAccounted s
  backed : IsBacked s.tables

next_phase-cancelled : (p : Phase) → is_cancelled (next_phase p) ≡ true
next_phase-cancelled serving = refl
next_phase-cancelled grpc_stopping = refl
next_phase-cancelled http_stopping = refl
next_phase-cancelled metrics_stopping = refl
next_phase-cancelled database_closing = refl
next_phase-cancelled exited = refl

IsSafe-longer :
    {D : Type 0} (tables : Tables) (rec new : NormalizedRecord D)
    {queue : List (NormalizedRecord D)}
    → IsSafe queue tables rec
    → IsSafe (queue ++ new ∷ []) tables rec
IsSafe-longer tables rec new (inl m) = inl (Mem-left (new ∷ []) m)
IsSafe-longer tables rec new (inr k) = inr k

IsSafe-Grows :
    {D : Type 0} (rec : NormalizedRecord D) {queue : List (NormalizedRecord D)}
    {before after : Tables}
    → Grows before after
    → IsSafe queue before rec
    → IsSafe queue after rec
IsSafe-Grows rec g (inl m) = inl m
IsSafe-Grows rec g (inr k) = inr (IsKept-Grows rec g k)

-- The first record of the queue is taken off when it is kept.
IsSafe-taken :
    {D : Type 0} (rec first : NormalizedRecord D) {rest : List (NormalizedRecord D)}
    {before after : Tables}
    → Grows before after
    → IsKept first after
    → IsSafe (first ∷ rest) before rec
    → IsSafe rest after rec
IsSafe-taken rec first {after = after} g k (inl (Memᴰ.head e)) =
    inr (subst (λ r. IsKept r after) (sym e) k)
IsSafe-taken rec first g k (inl (Memᴰ.tail m)) = inl m
IsSafe-taken rec first g k (inr old) = inr (IsKept-Grows rec g old)

module _ {D : Type 0} (libs : Libs D) (ttl : ℕ) where
  -- The rate limiter lets each record from the queue through, and the dead letter queue can be
  -- written where one is taken off.
  abbrev pub IsServedStep : {s t : Service D} → Step libs ttl s t → Type 0
  IsServedStep (accept rec is_open room e) = Unit
  IsServedStep (acknowledge recs is_open queued e) = Unit
  IsServedStep (consume env rec rest on q e) = IsServed (env, some rec)
  IsServedStep (serve env req is_open e) = Unit
  IsServedStep (stop_consuming c e) = Unit
  IsServedStep (advance e) = Unit

  abbrev pub IsServedRun : {s t : Service D} → Reach libs ttl s t → Type 0
  IsServedRun here = Unit
  IsServedRun (next r step) = IsServedRun r × IsServedStep step

  Step-IsSound :
      {s t : Service D} (step : Step libs ttl s t) → IsServedStep step → IsSound s → IsSound t
  Step-IsSound {s} (accept rec is_open room e) served h = subst IsSound (sym e) (record {
    queued =
        All-append _ s.queued (rec ∷ [])
          (All-implies _ _ s.queued (λ x. IsSafe-longer s.tables x rec) h.queued)
          (inl (Mem-last rec s.queue), tt);
    accounted = record {
      safe = All-implies _ _ s.acknowledged (λ x. IsSafe-longer s.tables x rec) h.accounted.safe;
      bounded = omega (arith, length-append {0} s.queue (rec ∷ []));
      attended = h.accounted.attended;
    };
    backed = h.backed;
  })
  Step-IsSound {s} (acknowledge recs is_open queued e) served h = subst IsSound (sym e) (record {
    queued = h.queued;
    accounted = record {
      safe =
          All-append (IsSafe s.queue s.tables) s.acknowledged recs h.accounted.safe
            (All-implies _ _ recs (λ x m. All-Memᴰ (IsSafe s.queue s.tables) m h.queued) queued);
      bounded = h.accounted.bounded;
      attended = h.accounted.attended;
    };
    backed = h.backed;
  })
  Step-IsSound {s} (consume env rec rest on q e) served h =
      let (grown, backs) = submit_record-IsStep libs ttl env (normalized_to_proto rec) s.tables in
      let kept = submit_record-IsKept libs ttl env rec s.tables h.backed served.0 served.1 in
      let queued = subst (λ k. All (IsSafe k s.tables) s.queued) q h.queued in
      let safe = subst (λ k. All (IsSafe k s.tables) s.acknowledged) q h.accounted.safe in
      subst IsSound (sym e) (record {
        queued = All-implies _ _ s.queued (λ x. IsSafe-taken x rec grown kept) queued;
        accounted = record {
          safe = All-implies _ _ s.acknowledged (λ x. IsSafe-taken x rec grown kept) safe;
          bounded =
              (let l : length s.queue ≡ length (rec ∷ rest) = ap length q in
                let b = h.accounted.bounded in omega arith);
          attended = λ _. on;
        };
        backed = backs h.backed;
      })
  Step-IsSound {s} (serve env req is_open e) served h =
      let (grown, backs) = submit_record-IsStep libs ttl env req s.tables in
      subst IsSound (sym e) (record {
        queued = All-implies _ _ s.queued (λ x. IsSafe-Grows x grown) h.queued;
        accounted = record {
          safe = All-implies _ _ s.acknowledged (λ x. IsSafe-Grows x grown) h.accounted.safe;
          bounded = h.accounted.bounded;
          attended = h.accounted.attended;
        };
        backed = backs h.backed;
      })
  Step-IsSound (stop_consuming c e) served h = subst IsSound (sym e) (record {
    queued = h.queued;
    accounted = record {
      safe = h.accounted.safe;
      bounded = h.accounted.bounded;
      attended = λ not_yet. absurd (cc);
    };
    backed = h.backed;
  })
  Step-IsSound {s} (advance e) served h = subst IsSound (sym e) (record {
    queued = h.queued;
    accounted = record {
      safe = h.accounted.safe;
      bounded = h.accounted.bounded;
      attended = λ not_yet. absurd (let c = next_phase-cancelled s.phase in cc);
    };
    backed = h.backed;
  })

  Reach-IsSound : {s t : Service D} (r : Reach libs ttl s t) → IsServedRun r → IsSound s → IsSound t
  Reach-IsSound here served h = h
  Reach-IsSound (next r step) served h = Step-IsSound step served.1 (Reach-IsSound r served.0 h)

  -- Whatever the steps of a service that has started, each record that its adapters acknowledged is
  -- still on the queue, or its key is among the records, or the dead letter queue has an entry with its
  -- key, source and bytes; the queue is within its capacity, and until the signal its consumer runs.
  -- Each reply that was cached before the start stands for a stored record, the rate limiter lets each
  -- record from the queue through, and the dead letter queue can be written then.
  pub start_up-IsAccounted :
      (startup : Startup) (tables : Tables) (s t : Service D) (r : Reach libs ttl s t)
      → start_up startup tables ≡ some s
      → IsBacked tables
      → IsServedRun r
      → IsAccounted t
  unfolding start_up
  start_up-IsAccounted startup tables s t r e backed served =
      let ready : Bool =
        startup.configured && startup.opened && startup.storage_ready && startup.idempotency_ready
        && startup.dlq_ready && startup.listening in
      (Reach-IsSound r served (elim (Bool-cases ready) [
        | inl up ↦ subst IsSound (some-injective _ _ (rw up at e)) (record {
          queued = tt;
          accounted = record { safe = tt; bounded = omega arith; attended = λ _. refl };
          backed = backed;
        })
        | inr failed ↦ absurd (let k = rw failed at e in cc)
      ])).accounted
