-- ===== src/Ingestion/Adapters/Lines.antt =====
-- bufio.Scanner with its split function ScanLines, as webhook.go, file.go and rest.go use it.
use reconx.Base.{
  ℕ, ◌<◌, Bool, true, false, not, ◌&&◌, ◌≡◌, refl, ◌≢◌, Option, none, some, List, [], ◌∷◌, ◌++◌,
  length, leb, if◌then◌else◌, select, All, arith, Bool-cases, inl, inr, ap,
}
use reconx.Ingestion.Adapters.{AdapterError, token_too_long}

abbrev eqb : ℕ → ℕ → Bool
eqb a b = leb a b && leb b a

abbrev join_first : ℕ → List (List ℕ) → List (List ℕ)
join_first b [] = (b ∷ []) ∷ []
join_first b (line ∷ lines) = (b ∷ line) ∷ lines

-- The lines without their \n; a last one need not end in it.
unfoldable pub raw_lines : List ℕ → List (List ℕ)
raw_lines [] = []
raw_lines (b ∷ bs) = let rest = raw_lines bs in if eqb b 10 then [] ∷ rest else join_first b rest

-- Without a last \r.
unfoldable pub drop_cr : List ℕ → List ℕ
drop_cr [] = []
drop_cr (b ∷ []) = if eqb b 13 then [] else b ∷ []
drop_cr (b ∷ c ∷ bs) = b ∷ drop_cr (c ∷ bs)

-- The scan ends with an error where a line, without its \n, fills the buffer.
unfoldable pub scanned : ℕ → List (List ℕ) → List (List ℕ) × Option AdapterError
unfolding drop_cr
scanned max [] = ([], none)
scanned max (line ∷ lines) =
    let (tokens, error) = scanned max lines in
    if leb max (length line) then ([], some token_too_long) else (drop_cr line ∷ tokens, error)

unfoldable pub scan_lines : ℕ → List ℕ → List (List ℕ) × Option AdapterError
unfolding raw_lines scanned
scan_lines max bytes = scanned max (raw_lines bytes)

abbrev pub is_empty : List ℕ → Bool
is_empty [] = true
is_empty (b ∷ bs) = false

-- The tokens that a loop with `if len(line) == 0 { continue }` goes on with.
abbrev pub non_empty : List (List ℕ) → List (List ℕ)
non_empty lines = select (λ line. not (is_empty line)) lines

-- Lines written one after the other, each with its \n.
abbrev pub unlines : List (List ℕ) → List ℕ
unlines [] = []
unlines (line ∷ lines) = line ++ 10 ∷ unlines lines

-- A line that a text of lines can hold and the scanner can read.
abbrev pub IsLine : ℕ → List ℕ → Type 0
IsLine max line = (length line < max) × All (λ b. (b ≢ 10) × (b ≢ 13)) line

raw_lines-unlines :
    (line : List ℕ) (rest : List ℕ)
    → All (λ b. (b ≢ 10) × (b ≢ 13)) line
    → raw_lines (line ++ 10 ∷ rest) ≡ line ∷ raw_lines rest
unfolding raw_lines
raw_lines-unlines [] rest h = refl
raw_lines-unlines (b ∷ line) rest h =
    let same = raw_lines-unlines line rest h.1 in
    elim (Bool-cases (eqb b 10)) [
      | inl e ↦ absurd (h.0.0 (ground arith))
      | inr e ↦ rw e (ap (join_first b) same)
    ]

drop_cr-id : (line : List ℕ) → All (λ b. (b ≢ 10) × (b ≢ 13)) line → drop_cr line ≡ line
unfolding drop_cr
drop_cr-id [] h = refl
drop_cr-id (b ∷ []) h = elim (Bool-cases (eqb b 13)) [
  | inl e ↦ absurd (h.0.1 (ground arith))
  | inr e ↦ rw e
]
drop_cr-id (b ∷ c ∷ line) h = ap (λ t. b ∷ t) (drop_cr-id (c ∷ line) h.1)

pub scan_lines-unlines :
    (max : ℕ) (lines : List (List ℕ))
    → All (IsLine max) lines
    → scan_lines max (unlines lines) ≡ (lines, none)
unfolding scan_lines scanned
scan_lines-unlines max [] h = refl
scan_lines-unlines max (line ∷ lines) h =
    let fits : leb max (length line) ≡ false = ground (arith, h.0.0) in
    rw (raw_lines-unlines line (unlines lines) h.0.1, fits, drop_cr-id line h.0.1)
      (rw (scan_lines-unlines max lines h.1))
