-- ===== src/Ingestion/Stores/Purged.antt =====
-- idempotency.go, Purge: what the clean-up changes of a lookup.
use reconx.Base.{
  subst, ℕ, ◌≤◌, String, Bool, false, ◌≡◌, refl, ap, ◌∙◌, Option, none, some, List, [], ◌∷◌, arith,
  ltb, if◌then◌else◌, ◌==◌, eq_iff, select, Bool-cases, inl, inr,
}
use reconx.Base.Table.{find, IsKeyed}
use reconx.Ingestion.Stores.{
  IdempotencyRow, Tables, Env, Call, idempotency_key, live, is_live, get_response, purge,
}

-- The row that a selection leaves to a lookup.
abbrev kept : {A : Type 0} → (A → Bool) → Option A → Option A
kept p none = none
kept p (some a) = if p a then some a else none

find-select :
    {A : Type 0} (key : A → String) (p : A → Bool) (k : String) (rows : List A)
    → IsKeyed key rows
    → find key k (select p rows) ≡ kept p (find key k rows)
unfolding find
find-select key p k [] h = refl
find-select key p k (x ∷ xs) h = elim (Bool-cases (key x == k)) [
  | inr e ↦ elim (Bool-cases (p x)) [
    | inl q ↦ rw (e, q) (rw e (find-select key p k xs h.1))
    | inr q ↦ rw (e, q) (find-select key p k xs h.1)
  ]
  | inl e ↦ elim (Bool-cases (p x)) [
    | inl q ↦ rw (e, q) (rw e refl)
    | inr q ↦
        rw (e, q)
          (find-select key p k xs h.1
            ∙ ap (kept p) (subst (λ j. find key j xs ≡ none) ((eq_iff (key x) k).0 e) h.0))
  ]
]

expired : (now later t : ℕ) → now ≤ later → ltb now t ≡ false → ltb later t ≡ false
expired now later t h e = ground arith

live-kept :
    (now later : ℕ) (o : Option IdempotencyRow)
    → now ≤ later
    → live later (kept (is_live now) o) ≡ live later o
live-kept now later none h = refl
live-kept now later (some row) h = elim (Bool-cases (ltb now row.expires_at)) [
  | inl e ↦ rw e
  | inr e ↦ rw (e, expired now later row.expires_at h e) refl
]

-- A purge is not seen by lookups: at its time or later, each key has the reply that it would have had
-- without the purge, as long as no two rows have one key.
get_response-purge :
    (env later : Env) (key : String) (tables : Tables)
    → IsKeyed idempotency_key tables.idempotency
    → env.now ≤ later.now
    → (get_response later key (purge env tables).1).0 ≡ (get_response later key tables).0
unfolding get_response purge
get_response-purge env later key tables keyed h = elim (Bool-cases (env.fails Call.purge_keys)) [
  | inl e ↦ rw e
  | inr e ↦ rw e (
      rw (find-select idempotency_key (is_live env.now) key tables.idempotency keyed)
        (rw (live-kept env.now later.now (find idempotency_key key tables.idempotency) h)))
]
