-- ===== src/Resolution/Examples/Texts.antt =====
-- Tests of the text functions on ASCII text.
use reconx.Base.{◌≡◌, refl, [], ◌∷◌}
use reconx.Base.Text.{to_lower, to_upper, trim_space, split_commas}

text_tests :
    (to_lower "LaTest" ≡ "latest")
    × (to_upper "inr" ≡ "INR")
    × (trim_space "  a b " ≡ "a b")
    × (split_commas "a,,b" ≡ "a" ∷ "" ∷ "b" ∷ [])
unfolding to_lower to_upper trim_space split_commas
text_tests = (refl, refl, refl, refl)
