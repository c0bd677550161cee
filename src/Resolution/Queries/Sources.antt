-- ===== src/Resolution/Queries/Sources.antt =====
-- db.go: the resolver's helper queries. Rows that tie under ORDER BY keep the table's order here,
-- which PostgreSQL leaves open.
use mathlib.Core.Option
use reconx.Base.{
  String, Bool, true, false, not, ◌&&◌, Option, none, some, List, [], ◌∷◌, map, leb, ◌==◌,
  if◌then◌else◌, head?, any, select,
}
use reconx.Base.Order.{sort}
use reconx.Base.Exec.{raise}
use reconx.Resolution.Tables.{
  failed, DetailRow, SourceRow, Database, Call, Env, DbError, Db, query, query_row,
}

abbrev pub latest_first : SourceRow → SourceRow → Bool
latest_first a b = leb b.server_received_at a.server_received_at

abbrev pub earliest_first : SourceRow → SourceRow → Bool
earliest_first a b = leb a.server_received_at b.server_received_at

abbrev pub rows_of : String → Database → List SourceRow
rows_of tx_ref db = select (λ r. r.transaction_ref == tx_ref) db.ingestion_records

unfoldable pub get_sources_by_latest : Env → String → Db DbError String
get_sources_by_latest env tx_ref = query_row env Call.by_latest λ db.
    Option.map (λ (r : SourceRow). r.source_system) (head? (sort latest_first (rows_of tx_ref db)))

unfoldable pub get_sources_by_first : Env → String → Db DbError String
get_sources_by_first env tx_ref = query_row env Call.by_first λ db.
    Option.map (λ (r : SourceRow). r.source_system)
      (head? (sort earliest_first (rows_of tx_ref db)))

abbrev pub has_amount : Option String → Bool
has_amount none = false
has_amount (some a) = true

abbrev pub amount_of : DetailRow → String
amount_of r = Option.get_or r.amount ""

abbrev pub amounts_of : String → Database → List DetailRow
amounts_of tx_ref db =
    select (λ r. r.transaction_ref == tx_ref && has_amount r.amount) db.match_details

abbrev pub highest_first : Env → DetailRow → DetailRow → Bool
highest_first env a b = env.numeric_leb (amount_of b) (amount_of a)

abbrev pub lowest_first : Env → DetailRow → DetailRow → Bool
lowest_first env a b = env.numeric_leb (amount_of a) (amount_of b)

-- A query that names a column which its table does not have is refused by the database.
abbrev pub naming {ℓ} : {A : Type ℓ} → String → List String → A → A → A
naming column columns present missing = if any (λ c. c == column) columns then present else missing

unfoldable pub get_source_by_highest_amount : Env → String → Db DbError String
get_source_by_highest_amount env tx_ref =
    naming "source_system" env.match_details_columns
      (query_row env Call.by_highest λ db.
        Option.map (λ (r : DetailRow). r.source_system)
          (head? (sort (highest_first env) (amounts_of tx_ref db))))
      (raise failed)

unfoldable pub get_source_by_lowest_amount : Env → String → Db DbError String
get_source_by_lowest_amount env tx_ref =
    naming "source_system" env.match_details_columns
      (query_row env Call.by_lowest λ db.
        Option.map (λ (r : DetailRow). r.source_system)
          (head? (sort (lowest_first env) (amounts_of tx_ref db))))
      (raise failed)

-- SELECT DISTINCT: each source once, in the order of the first row that names it.
unfoldable pub distinct : List String → List String
distinct [] = []
distinct (s ∷ ss) = s ∷ select (λ t. not (t == s)) (distinct ss)

unfoldable pub get_present_sources : Env → String → Db DbError (List String)
get_present_sources env tx_ref =
    query env Call.present
      λ db. distinct (map (λ (r : SourceRow). r.source_system) (rows_of tx_ref db))
