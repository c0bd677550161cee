-- ===== src/Resolution/Api/Pages.antt =====
-- handler.go, listMismatches: how the pages follow one another.
use reconx.Base.{
  ℕ, String, Bool, true, false, ◌&&◌, ◌||◌, ◌≡◌, sym, ◌≢◌, ◌⊎◌, ap, ◌∙◌, subst, some, List, map,
  arith, ◌==◌, ==-false, take, drop, last?, select, Bool-cases, Option-cases, inl, inr, All-take,
  select-All, All-last,
}
use reconx.Base.Cursor.{
  IsLinear, select-both, select-sort, IsDistinct, select-IsDistinct, sort-IsDistinct,
  by_text-IsPreorder, after_page,
}
use reconx.Base.Exec.{ok}
use reconx.Base.Int.{ℤ}
use reconx.Base.Order.{sort, sort-IsSorted, All-sort}
use reconx.Resolution.Tables.{ReconState, Database, Env}
use reconx.Resolution.Queries.States.{state_key}
use reconx.Resolution.Queries.Retries.{page_size_of}
use reconx.Resolution.Queries.Mismatches.{MismatchedRow, listed, by_ref, row_key}
use reconx.Resolution.Api.{Page, token_of, mismatches_handler}
use reconx.Resolution.Api.Slices.{rows_after, list_mismatched-row_key, handler_rows, token-map}

later_true : (m t f : Bool) → t ≡ true → (m && (false || true) && f) ≡ ((m && t && f) && true)
later_true m t f e = ground arith

later_false : (m t f : Bool) → (m && (false || false) && f) ≡ ((m && t && f) && false)
later_false m t f = ground arith

middle_true : (m t f : Bool) → (m && t && f) ≡ true → t ≡ true
middle_true m t f e = ground arith

module _ (env : Env) (linear : IsLinear env.text_ltb) (db : Database)
    (distinct : IsDistinct state_key db.recon_state) (source_filter : String) where
  -- A row after the last one of a page is a row after the page's cursor.
  listed_after :
      (page_token : String) (s x : ReconState)
      → s.transaction_ref ≢ ""
      → listed env db.match_details page_token source_filter s ≡ true
      → listed env db.match_details s.transaction_ref source_filter x ≡ (
          listed env db.match_details page_token source_filter x
          && env.text_ltb s.transaction_ref x.transaction_ref)
  listed_after page_token s x ne h =
      elim (Bool-cases (env.text_ltb s.transaction_ref x.transaction_ref)) [
        | inr e ↦ rw (==-false s.transaction_ref "" ne, e) (later_false _ _ _)
        | inl e ↦
            rw (==-false s.transaction_ref "" ne, e)
              (later_true _ _ _ (after (Bool-cases (page_token == "")) e (middle_true _ _ _ h)))
      ]
    where
      after :
          ((page_token == "") ≡ true) ⊎ ((page_token == "") ≡ false)
          → env.text_ltb s.transaction_ref x.transaction_ref ≡ true
          → (page_token == "" || env.text_ltb page_token s.transaction_ref) ≡ true
          → (page_token == "" || env.text_ltb page_token x.transaction_ref) ≡ true
      after (inl b) e t = rw b
      after (inr b) e t =
          rw b (linear.trans page_token s.transaction_ref x.transaction_ref (rw b at t) e)

  rows_after_page :
      (page_token : String) (n : ℕ) (s : ReconState)
      → s.transaction_ref ≢ ""
      → last? (take n (rows_after env db page_token source_filter)) ≡ some s
      → rows_after env db s.transaction_ref source_filter
        ≡ drop n (rows_after env db page_token source_filter)
  rows_after_page page_token n s ne e =
      let p : ReconState → Bool = listed env db.match_details page_token source_filter in
      let q : ReconState → Bool = λ x. env.text_ltb s.transaction_ref x.transaction_ref in
      let order = by_text-IsPreorder state_key linear in
      let chosen : List ReconState = select p db.recon_state in
      let is_listed : p s ≡ true =
        All-last (λ x. p x ≡ true) (take n (sort (by_ref env) chosen)) s e
          (All-take (λ x. p x ≡ true) n (sort (by_ref env) chosen)
            (All-sort (by_ref env) (λ x. p x ≡ true) chosen (select-All p db.recon_state))) in
      ap (sort (by_ref env)) (
        select-both p q (listed env db.match_details s.transaction_ref source_filter) db.recon_state
          (λ x. listed_after page_token s x ne is_listed))
      ∙ sym (select-sort order q chosen)
      ∙ after_page state_key linear n (sort (by_ref env) chosen) s (sort-IsSorted order chosen)
          (sort-IsDistinct state_key (by_ref env) chosen
            (select-IsDistinct state_key p db.recon_state distinct))
          e

  -- What follows a cursor that is the reference of the last row of a slice is what follows the slice.
  pub next_rows :
      (t : String) (n : ℕ) (c : String)
      → c ≡ token_of state_key (last? (take n (rows_after env db t source_filter)))
      → c ≢ ""
      → rows_after env db c source_filter ≡ drop n (rows_after env db t source_filter)
  next_rows t n c same filled =
      elim (Option-cases (last? (take n (rows_after env db t source_filter)))) [
        | inl e ↦ absurd (filled (same ∙ rw e))
        | inr (s, e) ↦
            let is_ref : c ≡ s.transaction_ref = same ∙ rw e in
            subst
              (λ k. rows_after env db k source_filter ≡ drop n (rows_after env db t source_filter))
              (sym is_ref) (rows_after_page t n s (λ b. filled (is_ref ∙ b)) e)
      ]

  -- A page holds the references of the first rows after its cursor, and leads on from the last of
  -- them.
  pub page_refs :
      (page_size : ℤ) (page_token : String) (page : Page MismatchedRow)
      → (mismatches_handler env page_size page_token source_filter db).0 ≡ ok page
      → (map row_key page.entries
          ≡ map state_key
              (take (page_size_of 20 100 page_size) (rows_after env db page_token source_filter)))
        × (page.next_page_token
            ≡ token_of state_key (
                last? (
                  take
                    (page_size_of 20 100 page_size)
                    (rows_after env db page_token source_filter))))
  page_refs page_size page_token page e =
      let states : List ReconState =
        take (page_size_of 20 100 page_size) (rows_after env db page_token source_filter) in
      let (rows, r, is_page) = handler_rows env page_size page_token source_filter db page e in
      let refs : map row_key rows ≡ map state_key states =
        list_mismatched-row_key env page_size page_token source_filter db r in
      (
        ap (λ (p : Page MismatchedRow). map row_key p.entries) is_page ∙ refs,
        ap (λ (p : Page MismatchedRow). p.next_page_token) is_page
            ∙ token-map row_key rows
            ∙ ap (λ ks. token_of (λ k. k) (last? ks)) refs
            ∙ sym (token-map state_key states),
      )

  -- Two pages of the list, the second asked for with the cursor of the first, hold the references of
  -- two consecutive slices of the MISMATCHED transactions in the order of their references, each of
  -- the page's size: nothing is skipped and nothing comes twice. The references are distinct, and the
  -- database's order of texts is linear.
  mismatches_handler-pages :
      (page_size : ℤ) (page_token : String) (page next : Page MismatchedRow)
      → (mismatches_handler env page_size page_token source_filter db).0 ≡ ok page
      → (mismatches_handler env page_size page.next_page_token source_filter db).0 ≡ ok next
      → page.next_page_token ≢ ""
      → (map row_key page.entries
          ≡ map state_key
              (take (page_size_of 20 100 page_size) (rows_after env db page_token source_filter)))
        × (map row_key next.entries
            ≡ map state_key (
                take (page_size_of 20 100 page_size) (
                  drop
                    (page_size_of 20 100 page_size)
                    (rows_after env db page_token source_filter))))
  mismatches_handler-pages page_size page_token page next e1 e2 ne =
      let n = page_size_of 20 100 page_size in
      let (refs, cursor) = page_refs page_size page_token page e1 in
      let (later, _) = page_refs page_size page.next_page_token next e2 in
      (
        refs,
        later
            ∙ ap (λ t. map state_key (take n t))
                (next_rows page_token n page.next_page_token cursor ne),
      )
