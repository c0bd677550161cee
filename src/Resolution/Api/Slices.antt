-- ===== src/Resolution/Api/Slices.antt =====
-- handler.go, listMismatches, and db.go, ListMismatched: the references of one page.
use reconx.Base.{
  false, ◌<◌, String, ◌≡◌, refl, sym, ap, ◌∙◌, List, [], ◌∷◌, ◌++◌, map, arith, take, last?, select,
  Bool-cases, inl, inr,
}
use reconx.Base.Exec.{Result, ok, ok-injective, Result-cases}
use reconx.Base.Int.{ℤ, pos, negsuc}
use reconx.Base.Order.{sort}
use reconx.Base.Table.{modify}
use reconx.Resolution.Tables.{ReconState, DetailRow, Database, Call, Env, DbError}
use reconx.Resolution.Queries.States.{state_key}
use reconx.Resolution.Queries.Retries.{page_size_of}
use reconx.Resolution.Queries.Mismatches.{
  MismatchedRow, listed, by_ref, bare_rows, row_key, attach_details, with_details, list_mismatched,
  detail_of, by_detail_ref, is_ref_of,
}
use reconx.Resolution.Api.{Page, page_of, token_of, mismatches_handler}

-- The MISMATCHED transactions after a cursor, in the order of their references.
abbrev pub rows_after : Env → Database → String → String → List ReconState
rows_after env db page_token source_filter =
    sort (by_ref env) (select (listed env db.match_details page_token source_filter) db.recon_state)

pub page_size_of-pos : (n : ℤ) → 0 < page_size_of 20 100 n
unfolding page_size_of
page_size_of-pos (negsuc n) = omega arith
page_size_of-pos (pos n) = ground arith

modify-row_key :
    (k : String) (f : MismatchedRow → MismatchedRow) (rows : List MismatchedRow)
    → ((r : MismatchedRow) → row_key (f r) ≡ row_key r)
    → map row_key (modify row_key k f rows) ≡ map row_key rows
unfolding modify
modify-row_key k f [] keeps = refl
modify-row_key k f (r ∷ rows) keeps = ground (arith, keeps r, modify-row_key k f rows keeps)

-- The details change no reference.
attach_details-row_key :
    (details : List DetailRow) (rows : List MismatchedRow)
    → map row_key (attach_details details rows) ≡ map row_key rows
unfolding attach_details
attach_details-row_key [] rows = refl
attach_details-row_key (d ∷ ds) rows =
    attach_details-row_key ds _
    ∙ modify-row_key d.transaction_ref (λ r. record r { details = r.details ++ detail_of d ∷ [] })
        rows (λ _. refl)

bare_rows-row_key :
    (states : List ReconState) → map row_key (bare_rows states) ≡ map state_key states
unfolding bare_rows
bare_rows-row_key [] = refl
bare_rows-row_key (s ∷ ss) = ap (λ t. s.transaction_ref ∷ t) (bare_rows-row_key ss)

with_details-row_key :
    (env : Env) (rows : List MismatchedRow) (db : Database) {out : List MismatchedRow}
    → (with_details env rows db).0 ≡ ok out
    → map row_key out ≡ map row_key rows
with_details-row_key env [] db e = ap (map row_key) (sym (ok-injective e))
with_details-row_key env (r ∷ rs) db {out} e = elim (Bool-cases (env.fails Call.match_details)) [
  | inl f ↦ absurd (let k = rw f at e in cc)
  | inr f ↦
      let details : List DetailRow =
        sort (by_detail_ref env) (select (is_ref_of (r ∷ rs)) db.match_details) in
      let k : Path (Result DbError (List MismatchedRow)) (ok (attach_details details (r ∷ rs)))
          (ok out) =
        rw f at e in
      ap (map row_key) (sym (ok-injective k)) ∙ attach_details-row_key details (r ∷ rs)
]

-- A page holds the first rows after its cursor.
pub list_mismatched-row_key :
    (env : Env) (page_size : ℤ) (page_token source_filter : String) (db : Database)
    {rows : List MismatchedRow}
    → (list_mismatched env page_size page_token source_filter db).0 ≡ ok rows
    → map row_key rows
      ≡ map state_key
          (take (page_size_of 20 100 page_size) (rows_after env db page_token source_filter))
unfolding list_mismatched
list_mismatched-row_key env page_size page_token source_filter db e =
    let states : List ReconState =
      take (page_size_of 20 100 page_size) (rows_after env db page_token source_filter) in
    elim (Bool-cases (env.fails Call.list_mismatched)) [
      | inl f ↦ absurd (let k = rw f at e in cc)
      | inr f ↦
          with_details-row_key env (bare_rows states) db (rw f at e) ∙ bare_rows-row_key states
    ]

-- A page of the handler is made of the rows that the query returns.
pub handler_rows :
    (env : Env) (page_size : ℤ) (page_token source_filter : String) (db : Database)
    (page : Page MismatchedRow)
    → (mismatches_handler env page_size page_token source_filter db).0 ≡ ok page
    → (rows : List MismatchedRow) × ((list_mismatched env page_size page_token source_filter db).0
        ≡ ok rows)
      × (page ≡ page_of row_key rows)
unfolding mismatches_handler
handler_rows env page_size page_token source_filter db page e =
    elim (Result-cases (list_mismatched env page_size page_token source_filter db).0) [
      | inl (rows, r) ↦ (rows, r, sym (ok-injective (rw r at e)))
      | inr (x, r) ↦ absurd (let k = rw r at e in cc)
    ]

pub token-map :
    {A : Type 0} (key : A → String) (xs : List A)
    → token_of key (last? xs) ≡ token_of (λ k. k) (last? (map key xs))
token-map key [] = refl
token-map key (x ∷ []) = refl
token-map key (x ∷ y ∷ xs) = token-map key (y ∷ xs)

with_details-succeeds :
    (env : Env) (rows : List MismatchedRow) (db : Database)
    → env.fails Call.match_details ≡ false
    → (out : List MismatchedRow) × ((with_details env rows db).0 ≡ ok out)
with_details-succeeds env [] db up = ([], refl)
with_details-succeeds env (r ∷ rs) db up = (
  attach_details (sort (by_detail_ref env) (select (is_ref_of (r ∷ rs)) db.match_details)) (r ∷ rs),
  rw up,
)

list_mismatched-succeeds :
    (env : Env) (page_size : ℤ) (page_token source_filter : String) (db : Database)
    → env.fails Call.list_mismatched ≡ false
    → env.fails Call.match_details ≡ false
    → (out : List MismatchedRow) × ((list_mismatched env page_size page_token source_filter db).0
        ≡ ok out)
unfolding list_mismatched
list_mismatched-succeeds env page_size page_token source_filter db up details =
    rw up (with_details-succeeds env _ db details)

-- With the database up the handler answers with a page.
pub handler_answers :
    (env : Env) (page_size : ℤ) (page_token source_filter : String) (db : Database)
    → env.fails Call.list_mismatched ≡ false
    → env.fails Call.match_details ≡ false
    → (page : Page MismatchedRow) × ((mismatches_handler env page_size page_token source_filter
          db).0
        ≡ ok page)
unfolding mismatches_handler
handler_answers env page_size page_token source_filter db up details =
    let (rows, e) = list_mismatched-succeeds env page_size page_token source_filter db up details in
    (page_of row_key rows, rw e)
