-- ===== src/Base/Order.antt =====
-- ORDER BY: a stable sort by a Boolean comparison, and what its first row is.
use mathlib.Core.Path.{◌≡◌, subst, sym, ◌∙◌}
use mathlib.Core.Logic.{inl, inr}
use mathlib.Core.Bool.{Bool, true, false, false≢true}
use mathlib.Core.List.{List, [], ◌∷◌, Memᴰ}
use mathlib.Core.Option.{some, some-injective}
use reconx.Base.Tests.{if◌then◌else◌, Bool-cases}
use reconx.Base.Lists.{All, head?, select, All-select, select-All, All-self}

-- A comparison that orders rows, ties allowed.
pub record IsPreorder {ℓ} {A : Type ℓ} (le : A → A → Bool) : Type ℓ where
  pub total : (a b : A) → le a b ≡ false → le b a ≡ true
  pub trans : (a b c : A) → le a b ≡ true → le b c ≡ true → le a c ≡ true

module _ {ℓ} {A : Type ℓ} (le : A → A → Bool) where
  unfoldable pub insert : A → List A → List A
  insert x [] = x ∷ []
  insert x (y ∷ ys) = if le x y then x ∷ y ∷ ys else y ∷ insert x ys

  unfoldable pub sort : List A → List A
  unfolding insert
  sort [] = []
  sort (x ∷ xs) = insert x (sort xs)

  -- Every row is at or before the later ones.
  abbrev pub IsSorted : List A → Type 0
  IsSorted [] = Unit
  IsSorted (x ∷ xs) = All (λ y. le x y ≡ true) xs × IsSorted xs

module _ {ℓ κ} {A : Type ℓ} (le : A → A → Bool) (P : A → Type κ) where
  pub All-insert : (x : A) (ys : List A) → P x → All P ys → All P (insert le x ys)
  unfolding insert
  All-insert x [] p h = (p, tt)
  All-insert x (y ∷ ys) p h = elim (Bool-cases (le x y)) [
    | inl e ↦ rw e (p, h)
    | inr e ↦ rw e (h.0, All-insert x ys p h.1)
  ]

  pub All-of_insert : (x : A) (ys : List A) → All P (insert le x ys) → P x × All P ys
  unfolding insert
  All-of_insert x [] h = (h.0, tt)
  All-of_insert x (y ∷ ys) h = elim (Bool-cases (le x y)) [
    | inl e ↦ let k : All P (x ∷ y ∷ ys) = rw e at h in (k.0, k.1)
    | inr e ↦
        let k : All P (y ∷ insert le x ys) = rw e at h in
        let (p, q) = All-of_insert x ys k.1 in (p, (k.0, q))
  ]

  pub All-sort : (xs : List A) → All P xs → All P (sort le xs)
  unfolding sort
  All-sort [] h = tt
  All-sort (x ∷ xs) h = All-insert x (sort le xs) h.0 (All-sort xs h.1)

  pub All-of_sort : (xs : List A) → All P (sort le xs) → All P xs
  unfolding sort
  All-of_sort [] h = tt
  All-of_sort (x ∷ xs) h = let (p, q) = All-of_insert x (sort le xs) h in (p, All-of_sort xs q)

module _ {ℓ} {A : Type ℓ} {le : A → A → Bool} (order : IsPreorder le) where
  pub All-le_trans :
      (x y : A) (ys : List A)
      → le x y ≡ true
      → All (λ z. le y z ≡ true) ys
      → All (λ z. le x z ≡ true) ys
  All-le_trans x y [] e h = tt
  All-le_trans x y (z ∷ zs) e h = (order.trans x y z e h.0, All-le_trans x y zs e h.1)

  pub insert-IsSorted : (x : A) (ys : List A) → IsSorted le ys → IsSorted le (insert le x ys)
  unfolding insert
  insert-IsSorted x [] s = (tt, tt)
  insert-IsSorted x (y ∷ ys) s = elim (Bool-cases (le x y)) [
    | inl e ↦ rw e ((e, All-le_trans x y ys e s.0), s)
    | inr e ↦
        rw e (
          All-insert le (λ z. le y z ≡ true) x ys (order.total x y e) s.0,
          insert-IsSorted x ys s.1,
        )
  ]

  pub sort-IsSorted : (xs : List A) → IsSorted le (sort le xs)
  unfolding sort
  sort-IsSorted [] = tt
  sort-IsSorted (x ∷ xs) = insert-IsSorted x (sort le xs) (sort-IsSorted xs)

  pub le_refl : (a : A) → le a a ≡ true
  le_refl a = elim (Bool-cases (le a a)) [ inl q ↦ q | inr q ↦ order.total a a q ]

  IsSorted-head :
      (m : A) (ys : List A) → IsSorted le ys → head? ys ≡ some m → All (λ y. le m y ≡ true) ys
  IsSorted-head m [] s e = tt
  IsSorted-head m (y ∷ ys) s e =
      subst (λ t. All (λ z. le t z ≡ true) (y ∷ ys)) (some-injective y m e) (le_refl y, s.0)

  -- The first row of the sorted rows is at or before every row.
  pub head?-sort : (m : A) (xs : List A) → head? (sort le xs) ≡ some m → All (λ y. le m y ≡ true) xs
  head?-sort m xs e =
      All-of_sort le (λ y. le m y ≡ true) xs (IsSorted-head m (sort le xs) (sort-IsSorted xs) e)

-- A row of the table that passes the test, at or before every row that does.
pub record IsFirst {ℓ} {A : Type ℓ} (le : A → A → Bool) (p : A → Bool) (rows : List A) (m : A)
    : Type ℓ where
  pub listed : Memᴰ m rows
  pub passes : p m ≡ true
  pub best : All (λ y. p y ≡ true → le m y ≡ true) rows

All-head {ℓ κ} :
    {A : Type ℓ} (P : A → Type κ) (m : A) (ys : List A) → head? ys ≡ some m → All P ys → P m
All-head P m [] e h = cc
All-head P m (y ∷ ys) e h = subst P (some-injective y m e) h.0

module _ {ℓ} {A : Type ℓ} (le : A → A → Bool) (p : A → Bool) where
  best_of_select :
      (m : A) (rows : List A)
      → All (λ y. le m y ≡ true) (select p rows)
      → All (λ y. p y ≡ true → le m y ≡ true) rows
  best_of_select m [] h = tt
  best_of_select m (y ∷ ys) h = elim (Bool-cases (p y)) [
    | inl e ↦
        let k : All (λ z. le m z ≡ true) (y ∷ select p ys) = rw e at h in
        (λ _. k.0, best_of_select m ys k.1)
    | inr e ↦
        let k : All (λ z. le m z ≡ true) (select p ys) = rw e at h in
        (λ t. absurd (false≢true (sym e ∙ t)), best_of_select m ys k)
  ]

  -- SELECT … WHERE p ORDER BY le LIMIT 1
  pub IsFirst-head :
      (order : IsPreorder le) (m : A) (rows : List A)
      → head? (sort le (select p rows)) ≡ some m
      → IsFirst le p rows m
  IsFirst-head order m rows e = record {
    listed =
        All-head (λ x. Memᴰ x rows) m (sort le (select p rows)) e
          (All-sort le (λ x. Memᴰ x rows) (select p rows)
            (All-select (λ x. Memᴰ x rows) p rows (All-self rows)));
    passes =
        All-head (λ x. p x ≡ true) m (sort le (select p rows)) e
          (All-sort le (λ x. p x ≡ true) (select p rows) (select-All p rows));
    best = best_of_select m rows (head?-sort order m (select p rows) e);
  }
