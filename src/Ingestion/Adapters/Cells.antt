-- ===== src/Ingestion/Adapters/Cells.antt =====
-- db.go: the values of a row and the texts that an adapter reads of it (poll, stringVal).
use reconx.Base.{String, Option, none, some, List, [], ◌∷◌, ℕ}
use reconx.Base.Table.{find, upsert}

-- A scanned value. The text beside a time, or of any other value, is what fmt's %v prints of it.
pub data Value : Type 0 where
  text_value : String → Value
  bytes_value : String → Value
  time_value : (t : ℕ) (shown : String) → Value
  null_value : Value
  other_value : (shown : String) → Value

abbrev pub row_key : String × Value → String
row_key cell = cell.0

-- `rowMap[col] = vals[i]` for each column.
unfoldable pub row_map : List String → List Value → List (String × Value) → List (String × Value)
unfolding upsert
row_map [] vals row = row
row_map (col ∷ cols) [] row = row
row_map (col ∷ cols) (v ∷ vals) row =
    row_map cols vals (upsert row_key (col, v) (λ _. (col, v)) row)

-- The text of a value; none where the search goes on with the next key.
abbrev value_text : Option (String × Value) → Option String
value_text none = none
value_text (some (k, text_value s)) = some s
value_text (some (k, bytes_value s)) = some s
value_text (some (k, time_value t shown)) = some shown
value_text (some (k, null_value)) = none
value_text (some (k, other_value shown)) = some shown

abbrev first_text : Option String → String → String
first_text none rest = rest
first_text (some s) rest = s

unfoldable pub string_val : List (String × Value) → List String → String
unfolding find
string_val row [] = ""
string_val row (k ∷ keys) = first_text (value_text (find row_key k row)) (string_val row keys)

abbrev pub ref_columns : List String
ref_columns = "transaction_ref" ∷ "ref" ∷ "reference_id" ∷ "order_id" ∷ "invoice_id" ∷ []
