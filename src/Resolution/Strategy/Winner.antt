-- ===== src/Resolution/Strategy/Winner.antt =====
-- strategies.go: what each strategy chooses, and that no strategy writes.
use mathlib.Core.Option
use reconx.Base.{String, Bool, true, ◌≡◌, Option, some, arith}
use reconx.Base.{head?, ◌&&◌, ◌==◌, if◌then◌else◌, any}
use reconx.Base.Exec.{continue, renamed, ok, err, continue-ok, passed, renamed-ok}
use reconx.Base.Order.{IsPreorder, IsFirst, IsFirst-head, sort}
use reconx.Resolution.Tables.{
  Call, DbError, Db, scanned, SourceRow, DetailRow, Database, Env, scanned-ok, failed,
}
use reconx.Resolution.Queries.Sources.{
  amount_of, amounts_of, rows_of, latest_first, earliest_first, highest_first, lowest_first,
  has_amount, get_sources_by_latest, get_sources_by_first, get_source_by_highest_amount,
  get_source_by_lowest_amount, get_present_sources,
}
use reconx.Resolution.Strategy.{
  missing_is, winner, no_sources, strategy_failed, Strategy, source_priority, latest_record,
  highest_amount, lowest_amount, first_submitted, Resolved, ResolveError, resolve,
}

latest_first-IsPreorder : IsPreorder latest_first
latest_first-IsPreorder = record {
  total = λ a b h. ground arith;
  trans = λ a b c h k. ground arith;
}

earliest_first-IsPreorder : IsPreorder earliest_first
earliest_first-IsPreorder = record {
  total = λ a b h. ground arith;
  trans = λ a b c h k. ground arith;
}

-- The test of the rows of a transaction.
abbrev pub of_ref : String → SourceRow → Bool
of_ref tx_ref r = r.transaction_ref == tx_ref

-- A query for one row, with what is done with its source, comes to a result only through a row.
source_row :
    {A : Type 0} (env : Env) (call : Call) (rename : DbError → ResolveError) (source : A → String)
    (row : Option A) (k : String → Db ResolveError Resolved) (db : Database) {r : Resolved}
    → (continue
        (renamed rename (if env.fails call then err failed else scanned (Option.map source row)))
        k
        db).0
      ≡ ok r
    → (a : A) × (row ≡ some a) × ((k (source a) db).0 ≡ ok r)
source_row env call rename source row k db e =
    let (s, fetched, rest) =
      continue-ok
        (renamed rename (if env.fails call then err failed else scanned (Option.map source row))) k
        db e in
    let found = scanned-ok _ (passed (env.fails call) failed _ (renamed-ok rename _ fetched)).1 in
    let (a, is_row, is_source) = (Option.map-eq-some_iff source row).0 found in
    (a, is_row, rw is_source rest)

-- latest_record chooses the source of a row of the transaction that was received at or after each of
-- its rows.
latest_winner :
    (quote : String → String) (env : Env) (tx_ref priorities : String) (db : Database)
    (r : Resolved)
    → (resolve quote env tx_ref latest_record priorities db).0 ≡ ok r
    → (row : SourceRow) × IsFirst latest_first (of_ref tx_ref) db.ingestion_records row
      × (r.chosen_source ≡ row.source_system)
unfolding resolve get_sources_by_latest
latest_winner quote env tx_ref priorities db r e =
    let (row, is_head, rest) =
      source_row env Call.by_latest (missing_is no_sources) (λ (x : SourceRow). x.source_system)
        (head? (sort latest_first (rows_of tx_ref db)))
        (winner quote env tx_ref latest_record "latest_record: " " submitted most recently") db e in
    (row, IsFirst-head _ _ latest_first-IsPreorder row _ is_head, cc)

-- first_submitted chooses the source of a row of the transaction that was received at or before each
-- of its rows.
earliest_winner :
    (quote : String → String) (env : Env) (tx_ref priorities : String) (db : Database)
    (r : Resolved)
    → (resolve quote env tx_ref first_submitted priorities db).0 ≡ ok r
    → (row : SourceRow) × IsFirst earliest_first (of_ref tx_ref) db.ingestion_records row
      × (r.chosen_source ≡ row.source_system)
unfolding resolve get_sources_by_first
earliest_winner quote env tx_ref priorities db r e =
    let (row, is_head, rest) =
      source_row env Call.by_first (missing_is no_sources) (λ (x : SourceRow). x.source_system)
        (head? (sort earliest_first (rows_of tx_ref db)))
        (winner quote env tx_ref first_submitted "first_submitted: " " submitted earliest") db e in
    (row, IsFirst-head _ _ earliest_first-IsPreorder row _ is_head, cc)

-- The test of the detail rows of a transaction that have an amount.
abbrev with_amount : String → DetailRow → Bool
with_amount tx_ref r = r.transaction_ref == tx_ref && has_amount r.amount

highest_first-IsPreorder : (env : Env) → IsPreorder env.numeric_leb → IsPreorder (highest_first env)
highest_first-IsPreorder env order = record {
  total = λ a b h. order.total (amount_of b) (amount_of a) h;
  trans = λ a b c h k. order.trans (amount_of c) (amount_of b) (amount_of a) k h;
}

lowest_first-IsPreorder : (env : Env) → IsPreorder env.numeric_leb → IsPreorder (lowest_first env)
lowest_first-IsPreorder env order = record {
  total = λ a b h. order.total (amount_of a) (amount_of b) h;
  trans = λ a b c h k. order.trans (amount_of a) (amount_of b) (amount_of c) h k;
}

-- On a table that has the column source_system, where NUMERIC is ordered, highest_amount chooses the
-- source of a detail row of the transaction whose amount is at or above each of its amounts.
highest_winner :
    (quote : String → String) (env : Env) (tx_ref priorities : String) (db : Database)
    (r : Resolved)
    → IsPreorder env.numeric_leb
    → any (λ c. c == "source_system") env.match_details_columns ≡ true
    → (resolve quote env tx_ref highest_amount priorities db).0 ≡ ok r
    → (row : DetailRow) × IsFirst (highest_first env) (with_amount tx_ref) db.match_details row
      × (r.chosen_source ≡ row.source_system)
unfolding resolve get_source_by_highest_amount
highest_winner quote env tx_ref priorities db r order column e =
    let (row, is_head, rest) =
      source_row env Call.by_highest (missing_is strategy_failed)
        (λ (x : DetailRow). x.source_system)
        (head? (sort (highest_first env) (amounts_of tx_ref db)))
        (winner quote env tx_ref highest_amount "highest_amount: " " reports the highest amount") db
        (rw column at e) in
    (row, IsFirst-head _ _ (highest_first-IsPreorder env order) row _ is_head, cc)

-- On a table that has the column source_system, where NUMERIC is ordered, lowest_amount chooses the
-- source of a detail row of the transaction whose amount is at or below each of its amounts.
lowest_winner :
    (quote : String → String) (env : Env) (tx_ref priorities : String) (db : Database)
    (r : Resolved)
    → IsPreorder env.numeric_leb
    → any (λ c. c == "source_system") env.match_details_columns ≡ true
    → (resolve quote env tx_ref lowest_amount priorities db).0 ≡ ok r
    → (row : DetailRow) × IsFirst (lowest_first env) (with_amount tx_ref) db.match_details row
      × (r.chosen_source ≡ row.source_system)
unfolding resolve get_source_by_lowest_amount
lowest_winner quote env tx_ref priorities db r order column e =
    let (row, is_head, rest) =
      source_row env Call.by_lowest (missing_is strategy_failed)
        (λ (x : DetailRow). x.source_system)
        (head? (sort (lowest_first env) (amounts_of tx_ref db)))
        (winner quote env tx_ref lowest_amount "lowest_amount: " " reports the lowest amount") db
        (rw column at e) in
    (row, IsFirst-head _ _ (lowest_first-IsPreorder env order) row _ is_head, cc)

-- latest_record and first_submitted choose the source of a row of the transaction that was received at
-- or after, and at or before, each of its rows.
pub time_winners :
    (quote : String → String) (env : Env) (tx_ref priorities : String) (db : Database)
    (latest first : Resolved)
    → (resolve quote env tx_ref latest_record priorities db).0 ≡ ok latest
    → (resolve quote env tx_ref first_submitted priorities db).0 ≡ ok first
    → ((row : SourceRow) × IsFirst latest_first (of_ref tx_ref) db.ingestion_records row
        × (latest.chosen_source ≡ row.source_system))
      × ((row : SourceRow) × IsFirst earliest_first (of_ref tx_ref) db.ingestion_records row
          × (first.chosen_source ≡ row.source_system))
time_winners quote env tx_ref priorities db latest first e f = (
  latest_winner quote env tx_ref priorities db latest e,
  earliest_winner quote env tx_ref priorities db first f,
)

-- No strategy changes the database.
pub resolve_reads :
    (quote : String → String) (env : Env) (tx_ref : String) (strategy : Strategy)
    (priorities : String) (db : Database)
    → (resolve quote env tx_ref strategy priorities db).1 ≡ db
unfolding resolve get_sources_by_latest get_sources_by_first get_source_by_highest_amount
    get_source_by_lowest_amount get_present_sources
resolve_reads quote env tx_ref source_priority priorities db = ground arith
resolve_reads quote env tx_ref latest_record priorities db = ground arith
resolve_reads quote env tx_ref highest_amount priorities db = ground arith
resolve_reads quote env tx_ref lowest_amount priorities db = ground arith
resolve_reads quote env tx_ref first_submitted priorities db = ground arith
