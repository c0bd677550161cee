-- ===== src/Resolution/Api/Walk.antt =====
-- handler.go, listMismatches: a client that follows next_page_token to the end of the list.
use mathlib.Core.List.{map-append}
use mathlib.Core.Option
use reconx.Base.{
  select, ℕ, zero, suc, ◌<◌, ◌-◌, String, ◌≡◌, refl, sym, ap, ◌∙◌, ◌≢◌, inl, inr, Bool, false,
  Option, none, some, List, [], ◌∷◌, ◌++◌, map, arith, ◌==◌, ==-false, if◌then◌else◌, take, drop,
  last?, length, All, All-take, All-select, All-last, Option-cases, take-append-drop,
}
use reconx.Base.Cursor.{IsLinear, IsDistinct}
use reconx.Base.Exec.{Result, ok, err}
use reconx.Base.Int.{ℤ}
use reconx.Base.Order.{All-sort}
use reconx.Resolution.Tables.{ReconState, Database, Call, Env}
use reconx.Resolution.Queries.States.{state_key}
use reconx.Resolution.Queries.Retries.{page_size_of}
use reconx.Resolution.Queries.Mismatches.{MismatchedRow, listed, by_ref, row_key}
use reconx.Resolution.Api.{Page, mismatches_handler}
use reconx.Resolution.Api.Slices.{rows_after, page_size_of-pos, handler_answers}
use reconx.Resolution.Api.Pages.{page_refs, next_rows}

-- What a client makes of a reply: it stops at an error and at an empty cursor, and else asks on.
abbrev pub follow :
    (String → Option (List String)) → Result ℕ (Page MismatchedRow) → Option (List String)
follow ask (err e) = none
follow ask (ok page) =
    if page.next_page_token == ""
    then some (map row_key page.entries)
    else Option.map (λ refs. map row_key page.entries ++ refs) (ask page.next_page_token)

-- The references that a client gathers in at most so many requests, from a cursor to the end.
unfoldable pub walk : Env → ℤ → String → Database → ℕ → String → Option (List String)
unfolding mismatches_handler
walk env page_size source_filter db zero page_token = none
walk env page_size source_filter db (suc n) page_token =
    follow (walk env page_size source_filter db n)
      (mismatches_handler env page_size page_token source_filter db).0

length-drop : {A : Type 0} (n : ℕ) (xs : List A) → length (drop n xs) ≡ length xs - n
length-drop zero xs = omega arith
length-drop (suc n) [] = omega arith
length-drop (suc n) (x ∷ xs) = omega (arith, length-drop n xs)

take-nil : {A : Type 0} (n : ℕ) → take {A = A} n [] ≡ []
take-nil zero = refl
take-nil (suc n) = refl

nothing_taken : {A : Type 0} (n : ℕ) (xs : List A) → 0 < n → last? (take n xs) ≡ none → xs ≡ []
nothing_taken zero xs p e = absurd (omega arith)
nothing_taken (suc n) [] p e = refl
nothing_taken (suc zero) (x ∷ xs) p e = cc
nothing_taken (suc (suc n)) (x ∷ []) p e = cc
nothing_taken (suc (suc n)) (x ∷ y ∷ xs) p e =
    absurd (let k = nothing_taken (suc n) (y ∷ xs) (omega arith) e in cc)

something_taken :
    {A : Type 0} (n : ℕ) (xs : List A) (a : A) → last? (take n xs) ≡ some a → 0 < length xs
something_taken zero xs a e = cc
something_taken (suc n) [] a e = cc
something_taken (suc n) (x ∷ xs) a e = omega arith

module _ (env : Env) (page_size : ℤ) (source_filter : String) (db : Database) where
  abbrev size : ℕ
  size = page_size_of 20 100 page_size

  abbrev rows : String → List ReconState
  rows page_token = rows_after env db page_token source_filter

  -- The last page is the rest of the list.
  walk_end :
      (n : ℕ) (t : String) (page : Page MismatchedRow)
      → (mismatches_handler env page_size t source_filter db).0 ≡ ok page
      → page.next_page_token ≡ ""
      → map row_key page.entries ≡ map state_key (rows t)
      → walk env page_size source_filter db (suc n) t ≡ some (map state_key (rows t))
  unfolding walk
  walk_end n t page e stop refs = rw (e, stop) (ap some refs)

  -- A page that leads on stands before what the cursor leads to.
  walk_step :
      (n : ℕ) (t : String) (page : Page MismatchedRow)
      → (mismatches_handler env page_size t source_filter db).0 ≡ ok page
      → page.next_page_token ≢ ""
      → map row_key page.entries ≡ map state_key (take size (rows t))
      → walk env page_size source_filter db n page.next_page_token
        ≡ some (map state_key (drop size (rows t)))
      → walk env page_size source_filter db (suc n) t ≡ some (map state_key (rows t))
  unfolding walk
  walk_step n t page e more refs rest =
      rw (e, ==-false page.next_page_token "" more, rest, refs)
        (ap some (
          sym (map-append state_key (take size (rows t)) (drop size (rows t)))
          ∙ ap (map state_key) (take-append-drop size (rows t))))

module _ (env : Env) (linear : IsLinear env.text_ltb) (page_size : ℤ) (source_filter : String)
    (db : Database) (distinct : IsDistinct state_key db.recon_state)
    (named : All (λ s. state_key s ≢ "") db.recon_state)
    (up : env.fails Call.list_mismatched ≡ false)
    (details : env.fails Call.match_details ≡ false) where
  last_named :
      (t : String) (s : ReconState)
      → last? (take (size env page_size source_filter db) (rows_after env db t source_filter))
        ≡ some s
      → s.transaction_ref ≢ ""
  last_named t s e =
      let p : ReconState → Bool = listed env db.match_details t source_filter in
      let P : ReconState → Type 0 = λ x. state_key x ≢ "" in
      let states : List ReconState = rows_after env db t source_filter in
      let k : ℕ = page_size_of 20 100 page_size in
      All-last P (take k states) s e (
        All-take P k states
          (All-sort (by_ref env) P (select p db.recon_state) (All-select P p db.recon_state named)))

  -- A client that asks for the MISMATCHED transactions after a cursor and follows next_page_token
  -- until it is empty comes to an end, in no more requests than there are transactions and one, and
  -- has then gathered the references of all of them, in their order. The references are distinct and
  -- not empty, the database's order of texts is linear, and the two queries do not fail.
  pub walk_lem :
      (fuel : ℕ) (t : String)
      → length (rows_after env db t source_filter) < fuel
      → walk env page_size source_filter db fuel t
        ≡ some (map state_key (rows_after env db t source_filter))
  walk_lem zero t h = absurd (omega arith)
  walk_lem (suc n) t h =
      let k : ℕ = page_size_of 20 100 page_size in
      let states : List ReconState = rows_after env db t source_filter in
      let (page, e) = handler_answers env page_size t source_filter db up details in
      let (refs, cursor) = page_refs env linear db distinct source_filter page_size t page e in
      elim (Option-cases (last? (take k states))) [
        | inl none_left ↦
            let empty : states ≡ [] =
              nothing_taken k states (page_size_of-pos page_size) none_left in
            walk_end env page_size source_filter db n t page e (cursor ∙ rw none_left)
              (refs ∙ ap (map state_key) (rw empty (take-nil k)))
        | inr (s, last) ↦
            let more : page.next_page_token ≢ "" =
              λ b. last_named t s last (sym (cursor ∙ rw last) ∙ b) in
            let same : rows_after env db page.next_page_token source_filter ≡ drop k states =
              next_rows env linear db distinct source_filter t k page.next_page_token cursor more in
            let less : length (rows_after env db page.next_page_token source_filter) < n = omega (
              arith,
              ap length same,
              length-drop k states,
              something_taken k states s last,
              page_size_of-pos page_size,
            ) in
            walk_step env page_size source_filter db n t page e more refs
              (walk_lem n page.next_page_token less ∙ ap (λ xs. some (map state_key xs)) same)
      ]
