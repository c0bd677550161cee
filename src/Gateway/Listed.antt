-- ===== src/Gateway/Listed.antt =====
-- handlers.go, listMismatches, with services/resolution behind it: what a client sees that follows the
-- page tokens, also where a stream breaks off.
use mathlib.Core.Option
use reconx.Base.{
  subst, ℕ, String, Bool, ◌<◌, ◌≡◌, refl, ◌⊎◌, inl, inr, Option, none, some, List, [], ◌∷◌, ◌++◌,
  map, length, take, drop, last?, ap, sym, ◌∙◌, ◌≢◌, All, arith, All-select, All-take, select,
}
use reconx.Base.Exec.{Result, ok, err, Exec}
use reconx.Base.Cursor.{IsLinear, IsDistinct}
use reconx.Base.Int.{ℤ}
use reconx.Base.Order.{All-sort}
use reconx.Proto.{StateResponse}
use reconx.Resolution.Tables.{DbError, ReconState, Database, Env}
use reconx.Resolution.Queries.States.{state_key}
use reconx.Resolution.Queries.Retries.{page_size_of}
use reconx.Resolution.Queries.Mismatches.{MismatchedRow, list_mismatched, listed, by_ref}
use reconx.Resolution.Manual.{sent_of, FilterRequest, StreamError, send_rows}
use reconx.Resolution.Manual as M
use reconx.Resolution.Manual.Stream.{send_rows_lem}
use reconx.Resolution.Api.{token_of}
use reconx.Resolution.Api.Slices.{page_size_of-pos, rows_after, list_mismatched-row_key, token-map}
use reconx.Resolution.Api.Pages.{next_rows}
use reconx.Gateway.Http.{Request, RpcError, StateJson, page_body, write_json, write_error}
use reconx.Gateway.Slices.{
  sent_ref, item_ref, on_end_page, json-ref, sent-refs, shorter_slice, no_slice, last-token,
  token-ne,
}
use reconx.Gateway.Handlers.{
  Libs, Clients, MismatchStream, state_response_json, next_token, on_end, buffered, filter_request,
  reply, list_mismatches,
}

-- The call of the resolution server: the messages that its stream carries, then how it ends.
unfoldable pub list_call :
    (StreamError → RpcError)
    → Env
    → (StateResponse → Bool)
    → FilterRequest
    → Exec Database RpcError MismatchStream
unfolding M.list_mismatches
list_call as_rpc env broken req db =
    let (sent, error) = M.list_mismatches env broken req db in
    (ok (record { messages = sent; error = Option.map as_rpc error }), db)

abbrev pub listing :
    (StreamError → RpcError) → Env → (StateResponse → Bool) → Clients Database → Clients Database
listing as_rpc env broken others = record others { list_mismatches = list_call as_rpc env broken }

-- How a page with its token stands to the list it is taken from: either both are empty, or the page
-- holds the first references of the list, at least one, and the token leaves the others to list.
abbrev pub IsPart : Env → Database → String → String → List StateJson → String → Type 0
IsPart env db source_filter page_token items token =
    let left : List ReconState = rows_after env db page_token source_filter in
    ((items ≡ []) × (left ≡ []))
    ⊎ ((0 < length items)
        × (map item_ref items ≡ map state_key (take (length items) left))
        × (rows_after env db token source_filter ≡ drop (length items) left))

module _ (libs : Libs) (as_rpc : StreamError → RpcError) (env : Env)
    (linear : IsLinear env.text_ltb) (broken : StateResponse → Bool) (others : Clients Database)
    (req : Request) (db : Database) (distinct : IsDistinct state_key db.recon_state)
    (named : All (λ s. state_key s ≢ "") db.recon_state) where
  IsPart-of_slice :
      (n : ℕ) (source_filter page_token : String) (items : List StateJson) (rest : List String)
      → 0 < n
      → map state_key (take n (rows_after env db page_token source_filter))
        ≡ map item_ref items ++ rest
      → (items ≢ []) ⊎ (rest ≡ [])
      → IsPart env db source_filter page_token items (next_token (last? items))
  IsPart-of_slice n f t [] rest positive slice (inl ne) = absurd (ne refl)
  IsPart-of_slice n f t [] rest positive slice (inr none_left) =
      inl (refl, no_slice n (rows_after env db t f) rest positive slice none_left)
  IsPart-of_slice n f t (x ∷ xs) rest positive slice why =
      let left : List ReconState = rows_after env db t f in
      let page : map state_key (take (length (x ∷ xs)) left) ≡ map item_ref (x ∷ xs) =
        shorter_slice state_key item_ref n left (x ∷ xs) rest slice in
      let cursor : next_token (last? (x ∷ xs))
          ≡ token_of state_key (last? (take (length (x ∷ xs)) left)) =
        last-token (x ∷ xs)
        ∙ token-map item_ref (x ∷ xs)
        ∙ ap (λ ks. token_of (λ k. k) (last? ks)) (sym page)
        ∙ sym (token-map state_key (take (length (x ∷ xs)) left)) in
      let is_named : All (λ s. state_key s ≢ "") (take (length (x ∷ xs)) left) =
        All-take (λ s. state_key s ≢ "") (length (x ∷ xs)) left
          (All-sort (by_ref env) (λ s. state_key s ≢ "")
            (select (listed env db.match_details t f) db.recon_state)
            (All-select (λ s. state_key s ≢ "") (listed env db.match_details t f) db.recon_state
              named)) in
      inr (
        omega arith,
        sym page,
        next_rows env linear db distinct f t (length (x ∷ xs)) _ cursor
            (token-ne (take (length (x ∷ xs)) left) x xs _ is_named page cursor),
      )

  IsPart-of_sent :
      (page_size : ℤ) (source_filter page_token : String) (rows : List MismatchedRow)
      (items : List StateJson) (token : String)
      → (list_mismatched env page_size page_token source_filter db).0 ≡ ok rows
      → (on_end
          (map (state_response_json libs) (send_rows broken rows).0)
          (Option.map as_rpc (send_rows broken rows).1)).body
        ≡ page_body items token
      → IsPart env db source_filter page_token items token
  IsPart-of_sent page_size f t rows items token r e =
      let (sent, error) = send_rows broken rows in
      let (rest, split, whole) = sent-refs broken rows sent error (send_rows_lem broken rows).1 in
      let (same, end, why) =
        on_end_page (map (state_response_json libs) sent) (Option.map as_rpc error) items token e in
      let refs : map item_ref items ≡ map sent_ref sent =
        ap (map item_ref) (sym same) ∙ json-ref libs sent in
      subst (IsPart env db f t items) end (
        IsPart-of_slice (page_size_of 20 100 page_size) f t items rest (page_size_of-pos page_size)
          (sym (list_mismatched-row_key env page_size t f db r)
            ∙ split
            ∙ ap (λ ks. ks ++ rest) (sym refs))
          (complete error whole why))
    where
      complete :
          {rest : List String} {items : List StateJson} (error : Option StreamError)
          → (rest ≡ []) ⊎ (error ≢ none)
          → (items ≢ []) ⊎ (Option.map as_rpc error ≡ none)
          → (items ≢ []) ⊎ (rest ≡ [])
      complete error (inl r) why = inr r
      complete error (inr n) (inl i) = inl i
      complete none (inr n) (inr e) = absurd (n refl)
      complete (some x) (inr n) (inr e) = cc

  IsPart-of_result :
      (page_size : ℤ) (source_filter page_token : String) (items : List StateJson) (token : String)
      (result : Result DbError (List MismatchedRow))
      → (list_mismatched env page_size page_token source_filter db).0 ≡ result
      → (on_end
          (map (state_response_json libs) (sent_of broken result).0)
          (Option.map as_rpc (sent_of broken result).1)).body
        ≡ page_body items token
      → IsPart env db source_filter page_token items token
  unfolding write_error write_json
  IsPart-of_result n f t items token (ok rows) r e = IsPart-of_sent n f t rows items token r e
  IsPart-of_result n f t items token (err x) r e = cc

  -- Every page that the gateway writes, also one whose stream broke off, is either empty with nothing
  -- left to list, or holds the next references in order, and its token leaves exactly the rest to list.
  -- The transactions have distinct references, none empty, and the order of texts is linear.
  pub list_mismatches-IsPart :
      (items : List StateJson) (token : String)
      → (list_mismatches libs (listing as_rpc env broken others) req db).0.body
        ≡ page_body items token
      → IsPart env db
          (libs.query_get req.raw_query "source_filter")
          (libs.query_get req.raw_query "page_token")
          items
          token
  unfolding list_mismatches reply buffered list_call M.list_mismatches filter_request
  list_mismatches-IsPart items token e = IsPart-of_result _ _ _ items token _ refl e
