-- ===== src/Gateway/Slices.antt =====
-- handlers.go, listMismatches: the references that a buffered stream and a page hold.
use mathlib.Core.List.{append-nil, map-append}
use reconx.Base.{
  suc, zero, ℕ, String, Bool, ◌<◌, ◌≡◌, refl, ◌⊎◌, inl, inr, Option, none, some, List, [], ◌∷◌,
  ◌++◌, map, length, take, last?, ap, sym, ◌∙◌, ◌≢◌, All, arith,
}
use reconx.Proto.{StateResponse}
use reconx.Resolution.Tables.{ReconState}
use reconx.Resolution.Queries.States.{state_key}
use reconx.Resolution.Queries.Mismatches.{MismatchedRow, row_key}
use reconx.Resolution.Manual.{StreamError, state_response}
use reconx.Resolution.Manual.Stream.{IsSent}
use reconx.Resolution.Api.{token_of}
use reconx.Gateway.Http.{RpcError, StateJson, page_body, write_json, write_error}
use reconx.Gateway.Handlers.{Libs, state_response_json, next_token, write_page, on_end}

abbrev pub sent_ref : StateResponse → String
sent_ref m = m.transaction_ref

abbrev pub item_ref : StateJson → String
item_ref item = item.transaction_ref

-- The items of a page that is written are those of the stream; an empty one is written only where the
-- stream ended without an error.
pub on_end_page :
    (stream : List StateJson) (error : Option RpcError) (items : List StateJson) (token : String)
    → (on_end stream error).body ≡ page_body items token
    → (stream ≡ items) × (next_token (last? items) ≡ token) × ((items ≢ []) ⊎ (error ≡ none))
unfolding write_page write_error write_json
on_end_page [] (some e) items token h = cc
on_end_page [] none items token h = (cc, cc, inr refl)
on_end_page (x ∷ xs) error items token h =
    let same : x ∷ xs ≡ items = cc in
    let end : next_token (last? (x ∷ xs)) ≡ token = cc in
    (same, rw (← same) end, inl (λ e. absurd (let k = same ∙ e in cc)))

module _ (libs : Libs) where
  pub json-ref :
      (ms : List StateResponse) → map item_ref (map (state_response_json libs) ms) ≡ map sent_ref ms
  unfolding state_response_json
  json-ref [] = refl
  json-ref (m ∷ ms) = ap (λ t. m.transaction_ref ∷ t) (json-ref ms)

response-ref :
    (rows : List MismatchedRow) → map sent_ref (map state_response rows) ≡ map row_key rows
unfolding state_response
response-ref [] = refl
response-ref (r ∷ rows) = ap (λ t. r.transaction_ref ∷ t) (response-ref rows)

-- What was sent is the beginning of the rows, and all of them where the stream ended well.
pub sent-refs :
    (broken : StateResponse → Bool) (rows : List MismatchedRow) (sent : List StateResponse)
    (error : Option StreamError)
    → IsSent broken rows sent error
    → (rest : List String) × (map row_key rows ≡ map sent_ref sent ++ rest)
      × ((rest ≡ []) ⊎ (error ≢ none))
sent-refs broken rows sent none h =
    ([], sym (response-ref rows) ∙ rw h (sym (append-nil _)), inl refl)
sent-refs broken rows sent (some e) (row, rest, h, b) = (
  map sent_ref (state_response row ∷ rest),
  sym (response-ref rows)
      ∙ ap (map sent_ref) h
      ∙ map-append sent_ref sent (state_response row ∷ rest),
  inr (λ k. absurd cc),
)

-- The beginning of a slice is a shorter slice.
pub shorter_slice :
    {A B : Type 0} (key : A → String) (ref : B → String) (n : ℕ) (xs : List A) (ys : List B)
    (rest : List String)
    → map key (take n xs) ≡ map ref ys ++ rest
    → map key (take (length ys) xs) ≡ map ref ys
shorter_slice key ref n xs [] rest h = refl
shorter_slice key ref zero xs (y ∷ ys) rest h = cc
shorter_slice key ref (suc n) [] (y ∷ ys) rest h = cc
shorter_slice key ref (suc n) (x ∷ xs) (y ∷ ys) rest h =
    let first : key x ≡ ref y = cc in
    let others : map key (take n xs) ≡ map ref ys ++ rest = cc in
    cc (first, shorter_slice key ref n xs ys rest others)

pub no_slice :
    (n : ℕ) (xs : List ReconState) (rest : List String)
    → 0 < n
    → map state_key (take n xs) ≡ rest
    → rest ≡ []
    → xs ≡ []
no_slice zero xs rest h e r = absurd (omega arith)
no_slice (suc n) [] rest h e r = refl
no_slice (suc n) (x ∷ xs) rest h e r = cc

pub last-token :
    (items : List StateJson) → next_token (last? items) ≡ token_of item_ref (last? items)
last-token [] = refl
last-token (x ∷ []) = refl
last-token (x ∷ y ∷ xs) = last-token (y ∷ xs)

pub token-ne :
    (ss : List ReconState) (x : StateJson) (xs : List StateJson) (c : String)
    → All (λ s. state_key s ≢ "") ss
    → map state_key ss ≡ map item_ref (x ∷ xs)
    → c ≡ token_of state_key (last? ss)
    → c ≢ ""
token-ne [] x xs c h e t k = cc
token-ne (s ∷ []) x xs c h e t k = h.0 (sym t ∙ k)
token-ne (s ∷ u ∷ ss) x [] c h e t k = cc
token-ne (s ∷ u ∷ ss) x (y ∷ ys) c h e t k = token-ne (u ∷ ss) y ys c h.1 (cc) t k
