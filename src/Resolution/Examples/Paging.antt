-- ===== src/Resolution/Examples/Paging.antt =====
-- The theorem on a walk over the pages of the MISMATCHED transactions, at a table of three
-- rows, with the texts in the order of their characters' codes.
use Prim.Native.Char.{code}
use reconx.Base.{
  ne-of_false, ℕ, String, Bool, true, false, ◌||◌, ◌&&◌, ltb, leb, ◌≡◌, refl, [], ◌∷◌, arith, ap,
  ◌∙◌, some,
}
use text.Mathlib.TextEquality.{Char-path}
use reconx.Base.Int.{pos}
use reconx.Base.Order.{sort}
use reconx.Base.Cursor.{IsLinear, IsDistinct}
use reconx.Resolution.Tables.{ReconState, Database, Env}
use reconx.Resolution.Queries.States.{state_key}
use reconx.Resolution.Api.Walk.{walk, walk_lem}
use reconx.Resolution.Examples.{env, t1, db}

unfoldable pub text_less : String → String → Bool
text_less String.[] String.[] = false
text_less String.[] (String.◌∷◌ d t) = true
text_less (String.◌∷◌ c s) String.[] = false
text_less (String.◌∷◌ c s) (String.◌∷◌ d t) =
    ltb (code c) (code d) || (leb (code c) (code d) && text_less s t)

text_less_irrefl : (a : String) → text_less a a ≡ false
unfolding text_less
text_less_irrefl String.[] = refl
text_less_irrefl (String.◌∷◌ c s) = ground (arith, text_less_irrefl s)

text_less_trans :
    (a b c : String) → text_less a b ≡ true → text_less b c ≡ true → text_less a c ≡ true
unfolding text_less
text_less_trans String.[] String.[] c e f = cc
text_less_trans String.[] (String.◌∷◌ y b) String.[] e f = cc
text_less_trans String.[] (String.◌∷◌ y b) (String.◌∷◌ z c) e f = refl
text_less_trans (String.◌∷◌ x a) String.[] c e f = cc
text_less_trans (String.◌∷◌ x a) (String.◌∷◌ y b) String.[] e f = cc
text_less_trans (String.◌∷◌ x a) (String.◌∷◌ y b) (String.◌∷◌ z c) e f =
    ground (arith, text_less_trans a b c)

neither_less :
    (m n : ℕ) (p q : Bool)
    → (ltb m n || (leb m n && p)) ≡ false
    → (ltb n m || (leb n m && q)) ≡ false
    → (m ≡ n) × (p ≡ false) × (q ≡ false)
neither_less m n p q e f = (ground arith, ground arith, ground arith)

text_less-total : (a b : String) → text_less a b ≡ false → text_less b a ≡ false → a ≡ b
unfolding text_less
text_less-total String.[] String.[] e f = refl
text_less-total String.[] (String.◌∷◌ d t) e f = cc
text_less-total (String.◌∷◌ c s) String.[] e f = cc
text_less-total (String.◌∷◌ c s) (String.◌∷◌ d t) e f =
    let (same, less, more) = neither_less (code c) (code d) (text_less s t) (text_less t s) e f in
    let rest : s ≡ t = text_less-total s t less more in
    let first : c ≡ d = Char-path c d same in
    ap (λ h. String.◌∷◌ h s) first ∙ ap (λ r. String.◌∷◌ d r) rest

pub text_less-IsLinear : IsLinear text_less
text_less-IsLinear = record {
  irrefl = text_less_irrefl;
  trans = text_less_trans;
  total = text_less-total;
}

abbrev pub text_env : Env
text_env = record env { text_ltb = text_less }

abbrev state : String → ReconState
state ref = record t1 { transaction_ref = ref }

abbrev pub three : Database
three = record db { recon_state = state "T5" ∷ state "T1" ∷ state "T3" ∷ []; match_details = [] }

pub three-IsDistinct : IsDistinct state_key three.recon_state
three-IsDistinct = (
  (ne-of_false "T5" "T1" refl, (ne-of_false "T5" "T3" refl, tt)),
  ((ne-of_false "T1" "T3" refl, tt), (tt, tt)),
)

walk_lem_example : walk text_env (pos 1) "" three 4 "" ≡ some ("T1" ∷ "T3" ∷ "T5" ∷ [])
unfolding text_less sort
walk_lem_example =
    walk_lem text_env text_less-IsLinear (pos 1) "" three three-IsDistinct
      ((λ e. cc), ((λ e. cc), ((λ e. cc), tt))) refl refl 4 "" (omega arith)
