-- ===== src/Ingestion/RateLimit/Sources.antt =====
-- ratelimit.go: each source sees a bucket of its own, whatever is done for the others.
use mathlib.Core.Option
use reconx.Base.{
  ℕ, String, Bool, true, false, ◌≡◌, refl, ◌∙◌, ap, Option, none, some, List, [], ◌∷◌, ◌==◌,
  if◌then◌else◌, inl, inr, Bool-cases, Option-cases, eq_iff, subst,
}
use reconx.Base.Table.{find, find-upsert}
use reconx.Ingestion.RateLimit.{
  looked_up, Rates, Limiter, source_key, bucket_for, put, set_limit, get_or_create, allow,
}

-- What is done to a limiter, each with the time of a request.
pub data Op (Rps : Type 0) : Type 0 where
  request : (now : ℕ) (source : String) → Op Rps
  limit : (source : String) (rps : Rps) → Op Rps

module _ {Rps Bucket : Type 0} (rates : Rates Rps Bucket) where
  -- The bucket that a source would find: its own, or a new one at the default rate.
  abbrev pub bucket_of : Limiter Rps Bucket → String → Bucket
  bucket_of l source =
      Option.get_or (Option.map (λ (r : String × Bucket). r.1) (find source_key source l.limiters))
        (bucket_for rates l.defaults)

  abbrev add_answer : Bool → Bool → List Bool × Limiter Rps Bucket → List Bool × Limiter Rps Bucket
  add_answer mine answer (answers, l) = (if mine then answer ∷ answers else answers, l)

  -- A run of the limiter: the answers that one source gets, and what is left.
  unfoldable pub run_all :
      String → List (Op Rps) → Limiter Rps Bucket → List Bool × Limiter Rps Bucket
  unfolding allow set_limit
  run_all me [] l = ([], l)
  run_all me (request now source ∷ ops) l =
      let (answer, l') = allow rates now source l in
      add_answer (source == me) answer (run_all me ops l')
  run_all me (limit source rps ∷ ops) l = run_all me ops (set_limit rates source rps l)

  abbrev took : Bool → Bool → (after rest : List Bool × Bucket) → List Bool × Bucket
  took true answer (answers, last) rest = (answer ∷ answers, last)
  took false answer after rest = rest

  -- The specification: the same calls on one bucket, those for other sources left out.
  unfoldable pub run_one : String → List (Op Rps) → Bucket → List Bool × Bucket
  run_one me [] b = ([], b)
  run_one me (request now source ∷ ops) b =
      let (answer, b') = rates.take_token now b in
      took (source == me) answer (run_one me ops b') (run_one me ops b)
  run_one me (limit source rps ∷ ops) b =
      let fresh = run_one me ops (bucket_for rates rps) in
      let rest = run_one me ops b in if source == me then fresh else rest

  put-bucket_of :
      (source me : String) (b : Bucket) (l : Limiter Rps Bucket)
      → bucket_of (put rates source b l) me ≡ (if source == me then b else bucket_of l me)
  unfolding put
  put-bucket_of source me b l =
      let rows =
        find-upsert source_key me (source, b) (λ (r : String × Bucket). (r.0, b)) l.limiters
          (λ r. refl) in
      elim (Bool-cases (source == me)) [
        | inr e ↦ rw e (rw rows (rw e))
        | inl e ↦ elim (Option-cases (find source_key me l.limiters)) [
          | inl f ↦ rw e (rw rows (rw (e, f)))
          | inr (row, f) ↦ rw e (rw rows (rw (e, f)))
        ]
      ]

  -- Creating a bucket shows to no source.
  create-bucket_of :
      (source me : String) (l : Limiter Rps Bucket)
      → find source_key source l.limiters ≡ none
      → bucket_of (put rates source (bucket_for rates l.defaults) l) me ≡ bucket_of l me
  create-bucket_of source me l f =
      put-bucket_of source me (bucket_for rates l.defaults) l ∙ elim (Bool-cases (source == me)) [
        | inr e ↦ rw e
        | inl e ↦
            let g : find source_key me l.limiters ≡ none =
              subst (λ k. find source_key k l.limiters ≡ none) ((eq_iff source me).0 e) f in
            rw e (rw g)
      ]

  looked_up-bucket_of :
      (source me : String) (found : Option (String × Bucket)) (l : Limiter Rps Bucket)
      → find source_key source l.limiters ≡ found
      → ((looked_up rates source found l).0 ≡ bucket_of l source)
        × (bucket_of (looked_up rates source found l).1 me ≡ bucket_of l me)
  unfolding get_or_create
  looked_up-bucket_of source me none l f =
      (rw (f, get_or_create), rw (f, get_or_create) (create-bucket_of source me l f))
  looked_up-bucket_of source me (some row) l f = (rw f, refl)

  -- A request takes a token of its source's bucket, and of no other.
  allow-bucket_of :
      (now : ℕ) (source me : String) (l : Limiter Rps Bucket)
      → ((allow rates now source l).0 ≡ (rates.take_token now (bucket_of l source)).0)
        × (bucket_of (allow rates now source l).1 me
            ≡ (if source == me then (rates.take_token now (bucket_of l me)).1 else bucket_of l me))
  unfolding allow
  allow-bucket_of now source me l =
      let found = find source_key source l.limiters in
      let (bucket, l') = looked_up rates source found l in
      let (same, others) = looked_up-bucket_of source me found l refl in
      (
        ap (λ b. (rates.take_token now b).0) same,
        put-bucket_of source me (rates.take_token now bucket).1 l'
            ∙ elim (Bool-cases (source == me)) [
              | inr e ↦ rw e others
              | inl e ↦ rw e (
                  ap (λ b. (rates.take_token now b).1)
                    (same ∙ ap (bucket_of l) ((eq_iff source me).0 e)))
            ],
      )

  abbrev IsAlike : String → List Bool × Limiter Rps Bucket → List Bool × Bucket → Type 0
  IsAlike me all one = (all.0 ≡ one.0) × (bucket_of all.1 me ≡ one.1)

  request-IsAlike :
      (me : String) (ops : List (Op Rps)) (mine answer answer' : Bool)
      (all : List Bool × Limiter Rps Bucket) (b b0 b1 : Bucket)
      → (mine ≡ true → answer ≡ answer')
      → b ≡ (if mine then b1 else b0)
      → IsAlike me all (run_one me ops b)
      → IsAlike me
          (add_answer mine answer all)
          (took mine answer' (run_one me ops b1) (run_one me ops b0))
  request-IsAlike me ops true answer answer' all b b0 b1 same found h =
      let (answers, last) = subst (λ x. IsAlike me all (run_one me ops x)) found h in
      (cc (same refl, answers), last)
  request-IsAlike me ops false answer answer' all b b0 b1 same found h =
      subst (λ x. IsAlike me all (run_one me ops x)) found h

  limit-IsAlike :
      (me : String) (ops : List (Op Rps)) (mine : Bool) (all : List Bool × Limiter Rps Bucket)
      (b b0 b1 : Bucket)
      → b ≡ (if mine then b1 else b0)
      → IsAlike me all (run_one me ops b)
      → IsAlike me all (if mine then run_one me ops b1 else run_one me ops b0)
  limit-IsAlike me ops true all b b0 b1 found h =
      subst (λ x. IsAlike me all (run_one me ops x)) found h
  limit-IsAlike me ops false all b b0 b1 found h =
      subst (λ x. IsAlike me all (run_one me ops x)) found h

  run-IsAlike :
      (me : String) (ops : List (Op Rps)) (l : Limiter Rps Bucket)
      → IsAlike me (run_all me ops l) (run_one me ops (bucket_of l me))
  unfolding run_all run_one
  run-IsAlike me [] l = (refl, refl)
  run-IsAlike me (request now source ∷ ops) l =
      let l' = (allow rates now source l).1 in
      request-IsAlike me ops (source == me) (allow rates now source l).0 _ (run_all me ops l')
        (bucket_of l' me) (bucket_of l me) _
        (λ e.
          (allow-bucket_of now source me l).0
          ∙ ap (λ k. (rates.take_token now (bucket_of l k)).0) ((eq_iff source me).0 e))
        (allow-bucket_of now source me l).1 (run-IsAlike me ops l')
  run-IsAlike me (limit source rps ∷ ops) l =
      let l' = set_limit rates source rps l in
      limit-IsAlike me ops (source == me) (run_all me ops l') (bucket_of l' me) (bucket_of l me)
        (bucket_for rates rps) (put-bucket_of source me (bucket_for rates rps) l)
        (run-IsAlike me ops l')

  -- Whatever requests and limits arrive for all sources, in any order, the answers to one source, and
  -- the bucket that it is left with, are those of a single bucket that sees only that source's calls.
  pub run_all-run_one :
      (me : String) (ops : List (Op Rps)) (l : Limiter Rps Bucket)
      → ((run_all me ops l).0 ≡ (run_one me ops (bucket_of l me)).0)
        × (bucket_of (run_all me ops l).1 me ≡ (run_one me ops (bucket_of l me)).1)
  run_all-run_one me ops l = run-IsAlike me ops l
