-- ===== src/Ingestion/Stores/Fresh.antt =====
-- ON CONFLICT DO NOTHING: what an insertion makes of a table.
use reconx.Base.{
  String, ◌≡◌, refl, none, some, List, [], ◌∷◌, ◌++◌, arith, if◌then◌else◌, ◌==◌, eq_refl,
}
use reconx.Base.Table.{find}
use reconx.Ingestion.Stores.{insert_new}

module _ {A : Type 0} (key : A → String) where
  pub find-append_new :
      (k : String) (row : A) (rows : List A)
      → find key k rows ≡ none
      → find key k (rows ++ row ∷ []) ≡ (if key row == k then some row else none)
  unfolding find
  find-append_new k row [] e = refl
  find-append_new k row (x ∷ xs) e = ground (arith, find-append_new k row xs)

  pub find-append_old :
      (k : String) (row : A) (rows : List A) (a : A)
      → find key k rows ≡ some a
      → find key k (rows ++ row ∷ []) ≡ some a
  unfolding find
  find-append_old k row [] a e = cc
  find-append_old k row (x ∷ xs) a e = ground (arith, find-append_old k row xs a)

  -- The row of the key after an insertion: the old one where there is one, else the new one.
  pub find-insert_new :
      (row : A) (rows : List A)
      → find key (key row) rows ≡ none
      → find key (key row) (insert_new key row rows) ≡ some row
  find-insert_new row rows e =
      rw e (rw (find-append_new (key row) row rows e) (rw (eq_refl (key row))))

  pub insert_new_old :
      (row old : A) (rows : List A)
      → find key (key row) rows ≡ some old
      → insert_new key row rows ≡ rows
  insert_new_old row old rows e = rw e
