-- ===== src/Ingestion/Adapters/Queueing.antt =====
-- The loop that the parsers of webhook.go, file.go and rest.go share: what is on the queue when it ends.
use mathlib.Core.List.{append-nil, append_assoc}
use reconx.Base.{
  ℕ, suc, ◌+◌, String, true, ◌≡◌, refl, sym, ◌∙◌, ap, ◌⊎◌, inl, inr, Option, some, List, [], ◌∷◌,
  ◌++◌, length, take, arith, Bool-cases,
}
use reconx.Ingestion.Pipeline.{NormalizedRecord}
use reconx.Ingestion.Adapters.{AdapterError, context_done, Run, Queued, queue_each}

module _ {I D : Type 0} (run : Run) (make : String → I → NormalizedRecord D) where
  -- The records of the items, the first with the n-th uuid.
  abbrev pub records_from : ℕ → List I → List (NormalizedRecord D)
  records_from n [] = []
  records_from n (item ∷ items) = make (run.new_uuid n) item ∷ records_from (suc n) items

  -- The records of the first items are behind what was on the queue, and the count says how many. Either
  -- these are all, and the error is the last one, or the context was done at the next send.
  abbrev pub IsQueued : Option AdapterError → List I → List (NormalizedRecord D) → Queued D → Type 0
  IsQueued last items queue q =
      (q.queue ≡ queue ++ take q.count (records_from 0 items))
      × (((q.error ≡ last) × (q.count ≡ length items))
          ⊎ ((q.error ≡ some context_done) × (run.cancelled q.count ≡ true)))

  rest_IsQueued :
      (last : Option AdapterError) (n : ℕ) (items : List I) (queue : List (NormalizedRecord D))
      → (k : ℕ) × ((queue_each run make last n items queue).count ≡ n + k)
        × ((queue_each run make last n items queue).queue ≡ queue ++ take k (records_from n items))
        × ((((queue_each run make last n items queue).error ≡ last) × (k ≡ length items))
            ⊎ (((queue_each run make last n items queue).error ≡ some context_done)
                × (run.cancelled (queue_each run make last n items queue).count ≡ true)))
  unfolding queue_each
  rest_IsQueued last n [] queue = (0, omega arith, sym (append-nil queue), inl (refl, refl))
  rest_IsQueued last n (item ∷ items) queue = elim (Bool-cases (run.cancelled n)) [
    | inl e ↦ (0, rw e (omega arith), rw e (sym (append-nil queue)), rw e (inr (refl, e)))
    | inr e ↦
        let (k, counted, queued, end) =
          rest_IsQueued last (suc n) items (queue ++ make (run.new_uuid n) item ∷ []) in
        (
          suc k,
          rw e (omega arith),
          rw e (queued ∙ append_assoc queue (make (run.new_uuid n) item ∷ []) _),
          rw e (elim end [ inl (a, b) ↦ inl (a, ap suc b) | inr c ↦ inr c ]),
        )
  ]

  pub queue_each-IsQueued :
      (last : Option AdapterError) (items : List I) (queue : List (NormalizedRecord D))
      → IsQueued last items queue (queue_each run make last 0 items queue)
  queue_each-IsQueued last items queue =
      let (k, counted, queued, end) = rest_IsQueued last 0 items queue in
      let same : k ≡ (queue_each run make last 0 items queue).count = omega arith in
      (rw (← same) queued, elim end [ inl (a, b) ↦ inl (a, sym same ∙ b) | inr c ↦ inr c ])
