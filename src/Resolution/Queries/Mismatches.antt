-- ===== src/Resolution/Queries/Mismatches.antt =====
-- db.go: ListMismatched, the page of MISMATCHED transactions with their details.
use reconx.Base.{ℕ, String, Bool, not, ◌&&◌, ◌||◌, List, [], ◌∷◌, ◌++◌, ◌==◌, take, any, select}
use reconx.Base.Exec.{◌>>=◌, pure}
use reconx.Base.Int.{ℤ}
use reconx.Base.Order.{sort}
use reconx.Base.Table.{modify}
use reconx.Resolution.Tables.{ReconState, DetailRow, Call, Env, DbError, Db, query}
use reconx.Resolution.Queries.Retries.{page_size_of}

pub record MatchDetail : Type 0 where
  pub system_name : String
  pub discrepancy_found : Bool

pub record MismatchedRow : Type 0 where
  pub transaction_ref : String
  pub last_updated : ℕ
  pub details : List MatchDetail

-- The JOIN of the two filtered queries: some detail of the transaction names the source.
abbrev pub from_source : String → List DetailRow → ReconState → Bool
from_source source_filter details s =
    any (λ d. d.transaction_ref == s.transaction_ref && d.system_name == source_filter) details

-- The WHERE clause of the query that the four cases choose.
abbrev pub listed : Env → List DetailRow → String → String → ReconState → Bool
listed env details page_token source_filter s =
    s.status == "MISMATCHED"
    && (page_token == "" || env.text_ltb page_token s.transaction_ref)
    && (source_filter == "" || from_source source_filter details s)

abbrev pub by_ref : Env → ReconState → ReconState → Bool
by_ref env a b = not (env.text_ltb b.transaction_ref a.transaction_ref)

abbrev pub bare_row : ReconState → MismatchedRow
bare_row s = record {
  transaction_ref = s.transaction_ref;
  last_updated = s.last_updated;
  details = [];
}

unfoldable pub bare_rows : List ReconState → List MismatchedRow
bare_rows [] = []
bare_rows (s ∷ ss) = bare_row s ∷ bare_rows ss

abbrev pub row_key : MismatchedRow → String
row_key r = r.transaction_ref

abbrev pub detail_of : DetailRow → MatchDetail
detail_of d = record { system_name = d.system_name; discrepancy_found = d.discrepancy_found }

-- The loop over the detail rows: each is appended to the row of its transaction.
unfoldable pub attach_details : List DetailRow → List MismatchedRow → List MismatchedRow
attach_details [] rows = rows
attach_details (d ∷ ds) rows = attach_details ds (
    modify row_key d.transaction_ref (λ r. record r { details = r.details ++ detail_of d ∷ [] })
      rows)

abbrev pub is_ref_of : List MismatchedRow → DetailRow → Bool
is_ref_of rows d = any (λ r. r.transaction_ref == d.transaction_ref) rows

abbrev pub by_detail_ref : Env → DetailRow → DetailRow → Bool
by_detail_ref env a b = not (env.text_ltb b.transaction_ref a.transaction_ref)

-- The second query is made only where the first one found rows.
abbrev pub with_details : Env → List MismatchedRow → Db DbError (List MismatchedRow)
with_details env [] = pure []
with_details env (r ∷ rs) = do
  details ←
      query env Call.match_details
        λ db. sort (by_detail_ref env) (select (is_ref_of (r ∷ rs)) db.match_details)
  pure (attach_details details (r ∷ rs))

unfoldable pub list_mismatched : Env → ℤ → String → String → Db DbError (List MismatchedRow)
unfolding bare_rows
list_mismatched env page_size page_token source_filter = do
  rows ← query env Call.list_mismatched λ db. bare_rows (
      take (page_size_of 20 100 page_size) (
        sort (by_ref env)
          (select (listed env db.match_details page_token source_filter) db.recon_state)))
  with_details env rows
