-- ===== src/Ingestion/Stores/Depth.antt =====
-- services/ingestion/internal/dlq/dlq.go, Depth, and the two background loops of cmd/main.go that only
-- read the dead letter queue or purge cached replies. Each tick of a loop is a run of its own.
use mathlib.Core.Option
use reconx.Base.{
  ℕ, suc, zero, ◌+◌, String, ◌≡◌, refl, Option, none, some, List, [], ◌∷◌, ◌==◌, if◌then◌else◌,
  select, length, ap, ◌∙◌, arith, eq_iff, Bool-cases, inl, inr,
}
use reconx.Base.Exec.{Result, ok, err}
use reconx.Base.Table.{find, upsert, find-upsert}
use reconx.Ingestion.Stores.{Entry, Tables, Env, Call, StoreError, failed, Store, purge}

abbrev pub depth_key : String × ℕ → String
depth_key row = row.0

-- SELECT source_system, COUNT(*) … GROUP BY source_system
unfoldable pub grouped : List Entry → List (String × ℕ)
unfolding upsert
grouped [] = []
grouped (e ∷ es) = upsert depth_key (e.source_system, 1) (λ row. (row.0, row.1 + 1)) (grouped es)

unfoldable pub depth : Env → Store StoreError (List (String × ℕ))
unfolding grouped
depth env tables = (if env.fails Call.group then err failed else ok (grouped tables.dlq), tables)

-- The gauges by source, one set after the other.
unfoldable pub set_gauges : List (String × ℕ) → List (String × ℕ) → List (String × ℕ)
unfolding upsert
set_gauges [] gauges = gauges
set_gauges ((src, n) ∷ depths) gauges =
    set_gauges depths (upsert depth_key (src, n) (λ row. (row.0, n)) gauges)

abbrev on_depths : Result StoreError (List (String × ℕ)) → List (String × ℕ) → List (String × ℕ)
on_depths (err e) gauges = gauges
on_depths (ok depths) gauges = set_gauges depths gauges

-- Each tick finds the tables as they are then.
unfoldable pub update_dlq_metrics : List (Env × Tables) → List (String × ℕ) → List (String × ℕ)
unfolding depth set_gauges
update_dlq_metrics [] gauges = gauges
update_dlq_metrics ((env, tables) ∷ ticks) gauges =
    update_dlq_metrics ticks (on_depths (depth env tables).0 gauges)

unfoldable pub purge_expired_keys : List Env → Tables → Tables
unfolding purge
purge_expired_keys [] tables = tables
purge_expired_keys (env ∷ ticks) tables = purge_expired_keys ticks (purge env tables).1

abbrev pub count_of : String → List Entry → ℕ
count_of src es = length (select (λ e. e.source_system == src) es)

abbrev row_for : String → ℕ → Option (String × ℕ)
row_for src zero = none
row_for src (suc n) = some (src, suc n)

one_more :
    (src new : String) (n : ℕ) (found : Option (String × ℕ))
    → new ≡ src
    → found ≡ row_for src n
    → some (Option.get_or (Option.map (λ (r : String × ℕ). (r.0, r.1 + 1)) found) (new, 1))
      ≡ row_for src (suc n)
one_more src new zero found same e = rw e (rw same refl)
one_more src new (suc n) found same e =
    let more : suc n + 1 ≡ suc (suc n) = omega arith in rw e (ap (λ k. some (src, k)) more)

-- The depth of a source is the number of its entries, and a source without entries has no row.
find-grouped :
    (src : String) (es : List Entry)
    → find depth_key src (grouped es) ≡ row_for src (count_of src es)
unfolding grouped find
find-grouped src [] = refl
find-grouped src (e ∷ es) =
    let rows =
      find-upsert depth_key src (e.source_system, 1) (λ (r : String × ℕ). (r.0, r.1 + 1))
        (grouped es) (λ r. refl) in
    elim (Bool-cases (e.source_system == src)) [
      | inr q ↦ rw rows (rw q (find-grouped src es))
      | inl q ↦ rw rows (
          rw q (
            one_more src e.source_system (count_of src es) (find depth_key src (grouped es))
              ((eq_iff e.source_system src).0 q) (find-grouped src es)))
    ]

set_gauges-other :
    (src : String) (depths gauges : List (String × ℕ))
    → find depth_key src depths ≡ none
    → find depth_key src (set_gauges depths gauges) ≡ find depth_key src gauges
unfolding set_gauges find
set_gauges-other src [] gauges h = refl
set_gauges-other src ((s, n) ∷ depths) gauges h = elim (Bool-cases (s == src)) [
  | inl q ↦ absurd (let k = rw q at h in cc)
  | inr q ↦
      set_gauges-other src depths
        (upsert depth_key (s, n) (λ (row : String × ℕ). (row.0, n)) gauges) (rw q at h)
      ∙ find-upsert depth_key src (s, n) (λ (row : String × ℕ). (row.0, n)) gauges (λ r. refl)
      ∙ rw q
]

-- The gauge of a source is not reset when its last entry leaves the dead letter queue: a tick that finds
-- no entry of the source leaves the gauge at what it was.
update_dlq_metrics_stale :
    (src : String) (env : Env) (tables : Tables) (gauges : List (String × ℕ))
    → count_of src tables.dlq ≡ 0
    → find depth_key src (update_dlq_metrics ((env, tables) ∷ []) gauges)
      ≡ find depth_key src gauges
unfolding update_dlq_metrics depth
update_dlq_metrics_stale src env tables gauges none_left =
    elim (Bool-cases (env.fails Call.group)) [
      | inl q ↦ rw q
      | inr q ↦ rw q (
          set_gauges-other src (grouped tables.dlq) gauges
            (find-grouped src tables.dlq ∙ ap (row_for src) none_left))
    ]
