-- ===== src/Ingestion/Pipeline/Validity.antt =====
-- validate.go: what the validation stage accepts.
use Prim.Native.Char.{code}
use reconx.Base.{
  ℕ, ◌+◌, ◌≤◌, String, Bool, true, false, not, ◌&&◌, ◌≡◌, refl, ◌≢◌, ◌⊎◌, inl, inr, ◌↔◌, arith, ltb,
  if◌then◌else◌, ◌==◌, eq_iff, ==-false, ne-of_false, length,
}
use reconx.Base.Exec.{Result, ok, err, continue-ok}
use reconx.Ingestion.Pipeline.{
  NormalizedRecord, Libs, StageError, validate, matches_tx_ref, all_printable, is_known_currency,
  is_future, clock_skew_tolerance, max_payload_size,
}

-- Every character is printable ASCII.
abbrev pub IsPrintable : String → Type 0
IsPrintable String.[] = Unit
IsPrintable (String.◌∷◌ c s) = (32 ≤ code c) × (code c ≤ 126) × IsPrintable s

-- The rules of the stage, each as a condition on the record.
pub record IsValid {D : Type 0} (libs : Libs D) (now : ℕ) (rec : NormalizedRecord D) : Type 0 where
  pub has_key : rec.idempotency_key ≢ ""
  pub has_ref : rec.transaction_ref ≢ ""
  pub has_source : rec.source_system ≢ ""
  pub printable : IsPrintable rec.transaction_ref
  pub fits : length rec.raw_payload ≤ max_payload_size
  pub currency_known : (rec.currency ≡ "") ⊎ (is_known_currency rec.currency ≡ true)
  pub not_future : rec.record_timestamp ≤ now + clock_skew_tolerance
  pub not_negative : (libs.is_zero rec.amount ≡ true) ⊎ (libs.is_negative rec.amount ≡ false)

-- What the guards of the stage test.
record Passes {D : Type 0} (libs : Libs D) (now : ℕ) (rec : NormalizedRecord D) : Type 0 where
  g1 : (rec.idempotency_key == "") ≡ false
  g2 : (rec.transaction_ref == "") ≡ false
  g3 : (rec.source_system == "") ≡ false
  g4 : matches_tx_ref rec.transaction_ref ≡ true
  g5 : ltb max_payload_size (length rec.raw_payload) ≡ false
  g6 : (not (rec.currency == "") && not (is_known_currency rec.currency)) ≡ false
  g7 : is_future now rec.record_timestamp ≡ false
  g8 : (not (libs.is_zero rec.amount) && libs.is_negative rec.amount) ≡ false

not-false : (b : Bool) → not b ≡ false → b ≡ true
not-false true e = refl
not-false false e = cc

guard_passed :
    (b : Bool) (e : StageError) {u : Unit {0}}
    → Path (Result StageError Unit) (if b then err e else ok tt) (ok u)
    → b ≡ false
guard_passed true e h = cc
guard_passed false e h = refl

Passes-of_ok :
    {D : Type 0} (libs : Libs D) (now : ℕ) (rec : NormalizedRecord D)
    → (validate libs now rec).0 ≡ ok tt
    → Passes libs now rec
unfolding validate
Passes-of_ok libs now rec e =
    let (_, r1, k1) = continue-ok _ _ _ e in
    let (_, r2, k2) = continue-ok _ _ _ k1 in
    let (_, r3, k3) = continue-ok _ _ _ k2 in
    let (_, r4, k4) = continue-ok _ _ _ k3 in
    let (_, r5, k5) = continue-ok _ _ _ k4 in
    let (_, r6, k6) = continue-ok _ _ _ k5 in
    let (_, r7, k7) = continue-ok _ _ _ k6 in
    record {
      g1 = guard_passed _ _ r1;
      g2 = guard_passed _ _ r2;
      g3 = guard_passed _ _ r3;
      g4 = not-false _ (guard_passed _ _ r4);
      g5 = guard_passed _ _ r5;
      g6 = guard_passed _ _ r6;
      g7 = guard_passed _ _ r7;
      g8 = guard_passed _ _ k7;
    }

ok_of_Passes :
    {D : Type 0} (libs : Libs D) (now : ℕ) (rec : NormalizedRecord D)
    → Passes libs now rec
    → validate libs now rec ≡ (ok tt, rec)
unfolding validate
ok_of_Passes libs now rec p = rw (p.g1, p.g2, p.g3, p.g4, p.g5, p.g6, p.g7, p.g8)

all_printable-true : (s : String) → all_printable s ≡ true → IsPrintable s
unfolding all_printable
all_printable-true String.[] e = tt
all_printable-true (String.◌∷◌ c s) e = ground (arith, all_printable-true s)

all_printable-of : (s : String) → IsPrintable s → all_printable s ≡ true
unfolding all_printable
all_printable-of String.[] h = refl
all_printable-of (String.◌∷◌ c s) h =
    let (low, high, rest) = h in ground (arith, all_printable-of s rest)

not_both : (a b : Bool) → (not a && b) ≡ false → (a ≡ true) ⊎ (b ≡ false)
not_both true b e = inl refl
not_both false b e = inr e

not_both_of : (a b : Bool) → (a ≡ true) ⊎ (b ≡ false) → (not a && b) ≡ false
not_both_of true b h = refl
not_both_of false b h = ground arith

matches_lem : (s : String) → s ≢ "" → (matches_tx_ref s ≡ true) ↔ IsPrintable s
unfolding matches_tx_ref
matches_lem s ne = (
  λ e. all_printable-true s (let k = rw (==-false s "" ne) at e in k),
  λ p. rw (==-false s "" ne) (all_printable-of s p),
)

future_lem : (now t : ℕ) → (is_future now t ≡ false) ↔ (t ≤ now + clock_skew_tolerance)
future_lem now t = (λ e. ground arith, λ e. ground arith)

fits_lem : (n : ℕ) → (ltb max_payload_size n ≡ false) ↔ (n ≤ max_payload_size)
fits_lem n = (λ e. ground arith, λ e. ground arith)

IsValid-of_Passes :
    {D : Type 0} (libs : Libs D) (now : ℕ) (rec : NormalizedRecord D)
    → Passes libs now rec
    → IsValid libs now rec
IsValid-of_Passes libs now rec p = record {
  has_key = ne-of_false rec.idempotency_key "" p.g1;
  has_ref = ne-of_false rec.transaction_ref "" p.g2;
  has_source = ne-of_false rec.source_system "" p.g3;
  printable = (matches_lem rec.transaction_ref (ne-of_false rec.transaction_ref "" p.g2)).0 p.g4;
  fits = (fits_lem (length rec.raw_payload)).0 p.g5;
  currency_known =
      known rec.currency
        (not_both (rec.currency == "") (not (is_known_currency rec.currency)) p.g6);
  not_future = (future_lem now rec.record_timestamp).0 p.g7;
  not_negative = not_both (libs.is_zero rec.amount) (libs.is_negative rec.amount) p.g8;
}
  where
    known :
        (c : String)
        → ((c == "") ≡ true) ⊎ (not (is_known_currency c) ≡ false)
        → (c ≡ "") ⊎ (is_known_currency c ≡ true)
    known c (inl e) = inl ((eq_iff c "").0 e)
    known c (inr e) = inr (not-false (is_known_currency c) e)

Passes-of_IsValid :
    {D : Type 0} (libs : Libs D) (now : ℕ) (rec : NormalizedRecord D)
    → IsValid libs now rec
    → Passes libs now rec
Passes-of_IsValid libs now rec v = record {
  g1 = ==-false rec.idempotency_key "" v.has_key;
  g2 = ==-false rec.transaction_ref "" v.has_ref;
  g3 = ==-false rec.source_system "" v.has_source;
  g4 = (matches_lem rec.transaction_ref v.has_ref).1 v.printable;
  g5 = (fits_lem (length rec.raw_payload)).1 v.fits;
  g6 =
      not_both_of (rec.currency == "") (not (is_known_currency rec.currency))
        (unknown rec.currency v.currency_known);
  g7 = (future_lem now rec.record_timestamp).1 v.not_future;
  g8 = not_both_of (libs.is_zero rec.amount) (libs.is_negative rec.amount) v.not_negative;
}
  where
    unknown :
        (c : String)
        → (c ≡ "") ⊎ (is_known_currency c ≡ true)
        → ((c == "") ≡ true) ⊎ (not (is_known_currency c) ≡ false)
    unknown c (inl e) = inl ((eq_iff c "").1 e)
    unknown c (inr e) = inr (rw e)

-- A record that obeys the rules passes the stage unchanged.
pub validate-valid :
    {D : Type 0} (libs : Libs D) (now : ℕ) (rec : NormalizedRecord D)
    → IsValid libs now rec
    → validate libs now rec ≡ (ok tt, rec)
validate-valid libs now rec v = ok_of_Passes libs now rec (Passes-of_IsValid libs now rec v)

-- The validation stage accepts exactly the records that obey all its rules.
pub validate_iff :
    {D : Type 0} (libs : Libs D) (now : ℕ) (rec : NormalizedRecord D)
    → ((validate libs now rec).0 ≡ ok tt) ↔ IsValid libs now rec
validate_iff libs now rec = (
  λ e. IsValid-of_Passes libs now rec (Passes-of_ok libs now rec e),
  λ v. rw (validate-valid libs now rec v),
)
