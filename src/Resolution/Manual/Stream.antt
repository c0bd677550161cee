-- ===== src/Resolution/Manual/Stream.antt =====
-- server.go, ListMismatches: what the stream has carried when the call ends.
use reconx.Base.{
  Bool, true, false, ◌≡◌, refl, inl, inr, Option, none, some, List, [], ◌∷◌, ◌++◌, ap, map,
  Bool-cases, All,
}
use reconx.Proto.{StateResponse}
use reconx.Resolution.Queries.Mismatches.{MismatchedRow}
use reconx.Resolution.Manual.{StreamError, send_rows, state_response}

-- How the sending of the rows ended: all were sent, or the sending stopped at the first message that
-- the stream refused.
abbrev pub IsSent :
    (StateResponse → Bool) → List MismatchedRow → List StateResponse → Option StreamError → Type 0
IsSent broken rows sent none = sent ≡ map state_response rows
IsSent broken rows sent (some e) =
    (row : MismatchedRow) × (rest : List StateResponse) × (map state_response rows
      ≡ sent ++ state_response row ∷ rest)
    × (broken (state_response row) ≡ true)

-- What was sent is accepted by the stream, and is the rows in their order, each once, up to the end or
-- to the first row that the stream refused.
pub send_rows_lem :
    (broken : StateResponse → Bool) (rows : List MismatchedRow)
    → All (λ m. broken m ≡ false) (send_rows broken rows).0
      × IsSent broken rows (send_rows broken rows).0 (send_rows broken rows).1
unfolding send_rows
send_rows_lem broken [] = (tt, refl)
send_rows_lem broken (row ∷ rows) = elim (Bool-cases (broken (state_response row))) [
  | inl e ↦ rw e (tt, (row, map state_response rows, refl, e))
  | inr e ↦
      let (accepted, sent) = send_rows_lem broken rows in
      rw e ((e, accepted), later (send_rows broken rows).0 (send_rows broken rows).1 sent)
]
  where
    later :
        (sent : List StateResponse) (error : Option StreamError)
        → IsSent broken rows sent error
        → IsSent broken (row ∷ rows) (state_response row ∷ sent) error
    later sent none h = ap (λ t. state_response row ∷ t) h
    later sent (some e) (r, rest, h, b) = (r, rest, ap (λ t. state_response row ∷ t) h, b)
