-- ===== src/Base/Batch.antt =====
-- SELECT … WHERE p ORDER BY le LIMIT n: what such a query returns.
use Prim.Native.Nat.{ℕ, zero, suc, ◌≤◌}
use mathlib.Core.Path.{◌≡◌}
use mathlib.Core.Bool.{Bool, true}
use mathlib.Core.List.{List, [], ◌∷◌, Memᴰ}
use native.Mathlib.Omega.{arith}
use reconx.Base.Lists.{
  All, select, All-select, select-All, All-self, take, All-take, length, length-take,
}
use reconx.Base.Order.{IsPreorder, sort, All-sort, IsSorted, sort-IsSorted}

module _ {ℓ} {A : Type ℓ} (le : A → A → Bool) (p : A → Bool) where
  -- Rows of the table that pass the test, at most n of them, in order.
  abbrev pub IsBatch : ℕ → List A → List A → Type ℓ
  IsBatch n rows batch =
      All (λ r. Memᴰ r rows × (p r ≡ true)) batch × (length batch ≤ n) × IsSorted le batch

  All-both :
      (rows batch : List A)
      → All (λ r. Memᴰ r rows) batch
      → All (λ r. p r ≡ true) batch
      → All (λ r. Memᴰ r rows × (p r ≡ true)) batch
  All-both rows [] h k = tt
  All-both rows (r ∷ rs) h k = ((h.0, k.0), All-both rows rs h.1 k.1)

  IsSorted-take : (n : ℕ) (rows : List A) → IsSorted le rows → IsSorted le (take n rows)
  IsSorted-take zero rows s = tt
  IsSorted-take (suc n) [] s = tt
  IsSorted-take (suc n) (r ∷ rows) s =
      (All-take (λ y. le r y ≡ true) n rows s.0, IsSorted-take n rows s.1)

  pub take-IsBatch :
      (order : IsPreorder le) (n : ℕ) (rows : List A)
      → IsBatch n rows (take n (sort le (select p rows)))
  take-IsBatch order n rows = (
    All-take (λ r. Memᴰ r rows × (p r ≡ true)) n (sort le (select p rows))
        (All-sort le (λ r. Memᴰ r rows × (p r ≡ true)) (select p rows)
          (All-both rows (select p rows) (All-select (λ r. Memᴰ r rows) p rows (All-self rows))
            (select-All p rows))),
    omega (arith, length-take n (sort le (select p rows))),
    IsSorted-take n (sort le (select p rows)) (sort-IsSorted order (select p rows)),
  )
