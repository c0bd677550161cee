-- ===== src/Base/Cursor.antt =====
-- Pages by cursor: a page is the first rows of a sorted table, and the next page starts after the key
-- of its last row.
use Prim.Native.String.{String}
use Prim.Native.Nat.{ℕ, zero, suc}
use mathlib.Core.Path.{◌≡◌, refl, sym, ap, ◌∙◌, subst}
use mathlib.Core.Logic.{inl, inr, ◌≢◌}
use mathlib.Core.Bool.{Bool, true, false, not, ◌&&◌}
use mathlib.Core.List.{List, [], ◌∷◌}
use mathlib.Core.Option.{some, some-injective}
use native.Mathlib.Omega.{arith}
use reconx.Base.Tests.{Bool-cases}
use reconx.Base.Lists.{All, select, All-select, All-take, All-last, take, drop, last?}
use reconx.Base.Order.{IsPreorder, insert, sort, IsSorted, sort-IsSorted, All-insert, All-le_trans}

-- A strict linear order of texts.
pub record IsLinear (lt : String → String → Bool) : Type 0 where
  pub irrefl : (a : String) → lt a a ≡ false
  pub trans : (a b c : String) → lt a b ≡ true → lt b c ≡ true → lt a c ≡ true
  pub total : (a b : String) → lt a b ≡ false → lt b a ≡ false → a ≡ b

module _ {lt : String → String → Bool} (linear : IsLinear lt) where
  lt_asymm : (a b : String) → lt a b ≡ true → lt b a ≡ false
  lt_asymm a b e = elim (Bool-cases (lt b a)) [
    | inl f ↦ absurd (let k = linear.trans a b a e f in let i = linear.irrefl a in cc)
    | inr f ↦ f
  ]

  not_lt_trans : (a b c : String) → lt b a ≡ false → lt c b ≡ false → lt c a ≡ false
  not_lt_trans a b c e f = elim (Bool-cases (lt c a)) [
    | inr g ↦ g
    | inl g ↦ elim (Bool-cases (lt a b)) [
      | inl h ↦ absurd (let k = linear.trans c a b g h in cc)
      | inr h ↦ absurd (let k = subst (λ t. lt c t ≡ true) (linear.total a b h e) g in cc)
    ]
  ]

  lt_of_ne : (a b : String) → lt b a ≡ false → a ≢ b → lt a b ≡ true
  lt_of_ne a b e ne = elim (Bool-cases (lt a b)) [
    | inl f ↦ f
    | inr f ↦ absurd (ne (linear.total a b f e))
  ]

not-true : (b : Bool) → not b ≡ true → b ≡ false
not-true true e = cc
not-true false e = refl

not-of_not : (b : Bool) → not b ≡ false → b ≡ true
not-of_not true e = refl
not-of_not false e = cc

-- Selecting by two tests, and by equal ones.
pub select-both {ℓ} :
    {A : Type ℓ} (p q r : A → Bool) (xs : List A)
    → ((x : A) → r x ≡ (p x && q x))
    → select r xs ≡ select q (select p xs)
select-both p q r [] e = refl
select-both p q r (x ∷ xs) e = ground (arith, e x, select-both p q r xs e)

module _ {ℓ} {A : Type ℓ} {le : A → A → Bool} (order : IsPreorder le) (q : A → Bool) where
  select-drops : (x : A) (ys : List A) → q x ≡ false → select q (insert le x ys) ≡ select q ys
  unfolding insert
  select-drops x [] e = rw e
  select-drops x (y ∷ ys) e = ground (arith, select-drops x ys e)

  insert_least : (x : A) (ys : List A) → All (λ y. le x y ≡ true) ys → insert le x ys ≡ x ∷ ys
  unfolding insert
  insert_least x [] h = refl
  insert_least x (y ∷ ys) h = rw h.0

  select-insert :
      (x : A) (ys : List A)
      → q x ≡ true
      → IsSorted le ys
      → select q (insert le x ys) ≡ insert le x (select q ys)
  unfolding insert
  select-insert x [] e s = rw e
  select-insert x (y ∷ ys) e s = elim (Bool-cases (le x y)) [
    | inl e1 ↦
        rw (e1, e)
          (sym (
            insert_least x (select q (y ∷ ys))
              (All-select (λ z. le x z ≡ true) q (y ∷ ys) (e1, All-le_trans order x y ys e1 s.0))))
    | inr e1 ↦ elim (Bool-cases (q y)) [
      | inl e2 ↦ rw (e1, e2) (rw e1 (ap (λ t. y ∷ t) (select-insert x ys e s.1)))
      | inr e2 ↦ rw (e1, e2) (select-insert x ys e s.1)
    ]
  ]

  -- A test selects from a sorted table what sorting the selected rows gives.
  pub select-sort : (xs : List A) → select q (sort le xs) ≡ sort le (select q xs)
  unfolding sort
  select-sort [] = refl
  select-sort (x ∷ xs) = elim (Bool-cases (q x)) [
    | inl e ↦ rw e (
        select-insert x (sort le xs) e (sort-IsSorted order xs) ∙ ap (insert le x) (select-sort xs))
    | inr e ↦ rw e (select-drops x (sort le xs) e ∙ select-sort xs)
  ]

module _ {ℓ} {A : Type ℓ} (key : A → String) where
  -- No two rows have one key.
  abbrev pub IsDistinct : List A → Type 0
  IsDistinct [] = Unit
  IsDistinct (x ∷ xs) = All (λ y. key x ≢ key y) xs × IsDistinct xs

  pub select-IsDistinct : (p : A → Bool) (xs : List A) → IsDistinct xs → IsDistinct (select p xs)
  select-IsDistinct p [] h = tt
  select-IsDistinct p (x ∷ xs) h = elim (Bool-cases (p x)) [
    | inl e ↦ rw e (All-select (λ y. key x ≢ key y) p xs h.0, select-IsDistinct p xs h.1)
    | inr e ↦ rw e (select-IsDistinct p xs h.1)
  ]

  insert-IsDistinct :
      (le : A → A → Bool) (x : A) (ys : List A)
      → All (λ y. key x ≢ key y) ys
      → IsDistinct ys
      → IsDistinct (insert le x ys)
  unfolding insert
  insert-IsDistinct le x [] h d = (tt, tt)
  insert-IsDistinct le x (y ∷ ys) h d = elim (Bool-cases (le x y)) [
    | inl e ↦ rw e (h, d)
    | inr e ↦ rw e (
      All-insert le (λ z. key y ≢ key z) x ys (λ t. h.0 (sym t)) d.0,
      insert-IsDistinct le x ys h.1 d.1,
    )
  ]

  All-sorted : (le : A → A → Bool) (P : A → Type 0) (xs : List A) → All P xs → All P (sort le xs)
  unfolding sort
  All-sorted le P [] h = tt
  All-sorted le P (x ∷ xs) h = All-insert le P x (sort le xs) h.0 (All-sorted le P xs h.1)

  pub sort-IsDistinct : (le : A → A → Bool) (xs : List A) → IsDistinct xs → IsDistinct (sort le xs)
  unfolding sort
  sort-IsDistinct le [] h = tt
  sort-IsDistinct le (x ∷ xs) h =
      insert-IsDistinct le x (sort le xs) (All-sorted le (λ y. key x ≢ key y) xs h.0)
        (sort-IsDistinct le xs h.1)

  -- The comparison of rows by their keys.
  abbrev pub by_text : (String → String → Bool) → A → A → Bool
  by_text lt a b = not (lt (key b) (key a))

  module _ {lt : String → String → Bool} (linear : IsLinear lt) where
    pub by_text-IsPreorder : IsPreorder (by_text lt)
    by_text-IsPreorder = record {
      total = λ a b e. rw (lt_asymm linear (key b) (key a) (not-of_not _ e));
      trans = λ a b c e f.
          rw (not_lt_trans linear (key a) (key b) (key c) (not-true _ e) (not-true _ f));
    }

    -- After a row of a sorted table without ties come only greater rows.
    All-greater :
        (x : A) (ys : List A)
        → All (λ y. by_text lt x y ≡ true) ys
        → All (λ y. key x ≢ key y) ys
        → All (λ y. lt (key x) (key y) ≡ true) ys
    All-greater x [] h d = tt
    All-greater x (y ∷ ys) h d =
        (lt_of_ne linear (key x) (key y) (not-true _ h.0) d.0, All-greater x ys h.1 d.1)

    select_everything : (p : A → Bool) (xs : List A) → All (λ x. p x ≡ true) xs → select p xs ≡ xs
    select_everything p [] h = refl
    select_everything p (x ∷ xs) h = rw h.0 (ap (λ t. x ∷ t) (select_everything p xs h.1))

    only_first :
        (x : A) (xs : List A) (s : A)
        → x ≡ s
        → All (λ y. lt (key x) (key y) ≡ true) xs
        → select (λ y. lt (key s) (key y)) (x ∷ xs) ≡ xs
    only_first x xs s same h =
        subst (λ t. select (λ y. lt (key t) (key y)) (x ∷ xs) ≡ xs) same
          (rw (linear.irrefl (key x)) (select_everything (λ y. lt (key x) (key y)) xs h))

    -- What comes after the last row of a page of a sorted table is the rest of the table.
    pub after_page :
        (n : ℕ) (xs : List A) (s : A)
        → IsSorted (by_text lt) xs
        → IsDistinct xs
        → last? (take n xs) ≡ some s
        → select (λ x. lt (key s) (key x)) xs ≡ drop n xs
    after_page zero xs s h d e = cc
    after_page (suc n) [] s h d e = cc
    after_page (suc zero) (x ∷ xs) s h d e =
        only_first x xs s (some-injective x s e) (All-greater x xs h.0 d.0)
    after_page (suc (suc n)) (x ∷ []) s h d e = only_first x [] s (some-injective x s e) tt
    after_page (suc (suc n)) (x ∷ y ∷ ys) s h d e =
        let later : lt (key x) (key s) ≡ true =
          All-last (λ z. lt (key x) (key z) ≡ true) (take (suc n) (y ∷ ys)) s e
            (All-take (λ z. lt (key x) (key z) ≡ true) (suc n) (y ∷ ys)
              (All-greater x (y ∷ ys) h.0 d.0)) in
        rw (lt_asymm linear (key x) (key s) later) (after_page (suc n) (y ∷ ys) s h.1 d.1 e)
