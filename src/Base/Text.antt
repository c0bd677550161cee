-- ===== src/Base/Text.antt =====
-- Go's strings.ToLower, strings.ToUpper, strings.TrimSpace and strings.Split, on ASCII text.
use Prim.Native.Nat.{ℕ, ◌+◌, ◌-◌, compare, Ordering}
use Prim.Native.Char.{Char, char, code}
use Prim.Native.String.{String}
use mathlib.Core.Path.{◌≡◌, refl}
use mathlib.Core.Bool.{false, not, Bool, ◌&&◌, ◌||◌}
use mathlib.Core.List.{List, [], ◌∷◌}
use mathlib.Core.Option.{Option, none, some, get_or}
use text.Mathlib.Text.{◌==◌}
use reconx.Base.Tests.{leb, if◌then◌else◌}

-- A number moved within the first half of ASCII is a character; any other is left as it is.
shift : Char → ℕ → Char
shift c n =
    elim (compare n 55296) as (λ o. compare n 55296 ≡ o → Char) [
      | Ordering.lt ↦ λ e. char n (rw e tt)
      | Ordering.eq ↦ λ e. c
      | Ordering.gt ↦ λ e. c
    ]
      refl

abbrev is_upper : Char → Bool
is_upper c = leb 65 (code c) && leb (code c) 90

abbrev is_lower : Char → Bool
is_lower c = leb 97 (code c) && leb (code c) 122

-- Space, \t, \n, \v, \f, \r.
abbrev pub is_space : Char → Bool
is_space c = (leb 9 (code c) && leb (code c) 13) || (leb 32 (code c) && leb (code c) 32)

unfoldable pub to_lower : String → String
unfolding shift
to_lower String.[] = String.[]
to_lower (String.◌∷◌ c s) =
    String.◌∷◌ (if is_upper c then shift c (code c + 32) else c) (to_lower s)

unfoldable pub to_upper : String → String
unfolding shift
to_upper String.[] = String.[]
to_upper (String.◌∷◌ c s) =
    String.◌∷◌ (if is_lower c then shift c (code c - 32) else c) (to_upper s)

unfoldable pub trim_left : String → String
trim_left String.[] = String.[]
trim_left (String.◌∷◌ c s) = if is_space c then trim_left s else String.◌∷◌ c s

unfoldable pub trim_right : String → String
trim_right String.[] = String.[]
trim_right (String.◌∷◌ c s) =
    let rest = trim_right s in if is_space c && rest == "" then String.[] else String.◌∷◌ c rest

unfoldable pub trim_space : String → String
unfolding trim_left trim_right
trim_space s = trim_right (trim_left s)

abbrev prepend : Char → List String → List String
prepend c [] = String.◌∷◌ c String.[] ∷ []
prepend c (p ∷ ps) = String.◌∷◌ c p ∷ ps

-- The parts between the commas; the empty text has one empty part.
unfoldable pub split_commas : String → List String
split_commas String.[] = String.[] ∷ []
split_commas (String.◌∷◌ c s) =
    let rest = split_commas s in
    if leb 44 (code c) && leb (code c) 44 then String.[] ∷ rest else prepend c rest

abbrev eq_char : Char → Char → Bool
eq_char c d = leb (code c) (code d) && leb (code d) (code c)

-- What follows the prefix; none where the text does not begin with it.
unfoldable pub drop_prefix : String → String → Option String
drop_prefix String.[] s = some s
drop_prefix (String.◌∷◌ c p) String.[] = none
drop_prefix (String.◌∷◌ c p) (String.◌∷◌ d s) = if eq_char c d then drop_prefix p s else none

-- strings.TrimPrefix
unfoldable pub trim_prefix : String → String → String
unfolding drop_prefix
trim_prefix s prefix = get_or (drop_prefix prefix s) s

abbrev is_slash : Char → Bool
is_slash c = leb 47 (code c) && leb (code c) 47

abbrev is_dot : Char → Bool
is_dot c = leb 46 (code c) && leb (code c) 46

unfoldable has_slash : String → Bool
has_slash String.[] = false
has_slash (String.◌∷◌ c s) = is_slash c || has_slash s

abbrev or_here : Char → String → String → String
or_here c s rest = if rest == "" && is_dot c && not (has_slash s) then String.◌∷◌ c s else rest

-- filepath.Ext: from the last dot of the last element of a path, or "".
unfoldable pub extension : String → String
unfolding has_slash
extension String.[] = ""
extension (String.◌∷◌ c s) = or_here c s (extension s)
