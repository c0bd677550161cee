-- ===== src/Resolution/Queries/Decided.antt =====
-- db.go, InsertResolutionRecord: the decision that a lookup finds afterwards.
use mathlib.Core.Option
use reconx.Base.{◌≡◌, refl, ◌∙◌, some, List, arith, eq_refl, Option-cases, inl, inr}
use reconx.Base.Table.{find, find-key, find-upsert, upsert}
use reconx.Resolution.Tables.{ResolutionRecord}
use reconx.Resolution.Queries.States.{resolution_key, decided_again}

-- A decision, the first of its transaction or a later one, is what is found under its key.
pub find-decided :
    (row : ResolutionRecord) (rows : List ResolutionRecord)
    → find resolution_key row.transaction_ref (upsert resolution_key row (decided_again row) rows)
      ≡ some row
find-decided row rows =
    find-upsert resolution_key row.transaction_ref row (decided_again row) rows (λ _. refl)
    ∙ rw (eq_refl row.transaction_ref) again
  where
    again :
        some (
          Option.get_or
            (Option.map (decided_again row) (find resolution_key row.transaction_ref rows))
            row)
        ≡ some row
    again = elim (Option-cases (find resolution_key row.transaction_ref rows)) [
      | inl missing ↦ rw missing
      | inr (old, found) ↦
          rw found (ground (arith, find-key resolution_key row.transaction_ref rows old))
    ]
