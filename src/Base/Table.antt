-- ===== src/Base/Table.antt =====
-- A table with a text as its unique key: a list of rows, and the statements that address one row.
use Prim.Native.String.{String}
use mathlib.Core.Path.{◌≡◌, refl, subst}
use mathlib.Core.Logic.{◌≢◌, inl, inr}
use mathlib.Core.List.{List, [], ◌∷◌}
use mathlib.Core.Option
use mathlib.Core.Option.{Option, none, some}
use native.Mathlib.Omega.{arith}
use text.Mathlib.Text.{◌==◌}
use text.Mathlib.TextEquality.{eq_iff}
use text.Mathlib.TextPositions.{eq_refl}
use reconx.Base.Tests.{==-false, if◌then◌else◌, Bool-cases}

module _ {ℓ} {A : Type ℓ} (key : A → String) where
  -- SELECT … WHERE key = k
  unfoldable pub find : String → List A → Option A
  find k [] = none
  find k (x ∷ xs) = if key x == k then some x else find k xs

  -- UPDATE … SET f WHERE key = k
  unfoldable pub modify : String → (A → A) → List A → List A
  modify k f [] = []
  modify k f (x ∷ xs) = (if key x == k then f x else x) ∷ modify k f xs

  -- INSERT … ON CONFLICT (key) DO UPDATE SET f
  unfoldable pub upsert : A → (A → A) → List A → List A
  upsert a f [] = a ∷ []
  upsert a f (x ∷ xs) = if key x == key a then f x ∷ xs else x ∷ upsert a f xs

  -- No two rows have one key.
  abbrev pub IsKeyed : List A → Type ℓ
  IsKeyed [] = Unit
  IsKeyed (x ∷ xs) = (find (key x) xs ≡ none) × IsKeyed xs

module _ {ℓ} {A : Type ℓ} (key : A → String) where
  pub find-key : (k : String) (xs : List A) (a : A) → find key k xs ≡ some a → key a ≡ k
  unfolding find
  find-key k [] a e = cc
  find-key k (x ∷ xs) a e = ground (arith, eq_iff (key x) k, find-key k xs a)

  pub find-modify :
      (k j : String) (f : A → A) (xs : List A)
      → ((a : A) → key (f a) ≡ key a)
      → find key j (modify key k f xs)
        ≡ (if k == j then Option.map f (find key j xs) else find key j xs)
  unfolding find modify
  find-modify k j f [] keeps = ground arith
  find-modify k j f (x ∷ xs) keeps =
      ground
        (arith, keeps x, eq_iff (key x) k, eq_iff (key x) j, eq_iff k j, find-modify k j f xs keeps)

  pub find-upsert :
      (j : String) (a : A) (f : A → A) (xs : List A)
      → ((x : A) → key (f x) ≡ key x)
      → find key j (upsert key a f xs) ≡ (
          if key a == j
          then some (Option.get_or (Option.map f (find key j xs)) a)
          else find key j xs)
  unfolding find upsert
  find-upsert j a f [] keeps = ground arith
  find-upsert j a f (x ∷ xs) keeps = ground (
    arith,
    keeps x,
    eq_iff (key x) (key a),
    eq_iff (key x) j,
    eq_iff (key a) j,
    find-upsert j a f xs keeps,
  )

  pub modify-IsKeyed :
      (k : String) (f : A → A) (xs : List A)
      → ((a : A) → key (f a) ≡ key a)
      → IsKeyed key xs
      → IsKeyed key (modify key k f xs)
  unfolding modify
  modify-IsKeyed k f [] keeps h = tt
  modify-IsKeyed k f (x ∷ xs) keeps h =
      ground (arith, keeps x, find-modify k (key x) f xs keeps, modify-IsKeyed k f xs keeps h.1)

  pub upsert-IsKeyed :
      (a : A) (f : A → A) (xs : List A)
      → ((x : A) → key (f x) ≡ key x)
      → IsKeyed key xs
      → IsKeyed key (upsert key a f xs)
  unfolding upsert
  upsert-IsKeyed a f [] keeps h = (unfold find in refl, tt)
  upsert-IsKeyed a f (x ∷ xs) keeps h = ground (
    arith,
    keeps x,
    eq_iff (key x) (key a),
    eq_iff (key a) (key x),
    find-upsert (key x) a f xs keeps,
    upsert-IsKeyed a f xs keeps h.1,
  )

  -- The row of the key after an update of it.
  pub find-modify_self :
      (k : String) (f : A → A) (xs : List A) {a : A}
      → ((x : A) → key (f x) ≡ key x)
      → find key k xs ≡ some a
      → find key k (modify key k f xs) ≡ some (f a)
  find-modify_self k f xs keeps found = rw (find-modify k k f xs keeps) (rw (eq_refl k, found))

  -- The rows of other keys stay as they are.
  pub find-modify_ne :
      (k j : String) (f : A → A) (xs : List A)
      → ((x : A) → key (f x) ≡ key x)
      → k ≢ j
      → find key j (modify key k f xs) ≡ find key j xs
  find-modify_ne k j f xs keeps ne = rw (find-modify k j f xs keeps) (rw (==-false k j ne))

-- A value that is known at one key and at all others.
pub by_key {ℓ} :
    {A : Type ℓ} (new old : String → A) (k : String) (a : A) (j : String)
    → new k ≡ a
    → ((i : String) → k ≢ i → new i ≡ old i)
    → new j ≡ (if k == j then a else old j)
by_key new old k a j here there = elim (Bool-cases (k == j)) [
  | inl e ↦ rw e (subst (λ i. new i ≡ a) ((eq_iff k j).0 e) here)
  | inr e ↦ rw e (there j λ same. absurd (let t = rw ((eq_iff k j).1 same) at e in cc))
]
