-- ===== src/Base/Exec.antt =====
-- Code that reads and writes a store and may return early: what was written before an early return
-- stays written, so the store comes back beside the error too.
use mathlib.Core.Path.{◌≡◌, refl}
use mathlib.Core.Logic.{◌⊎◌, inl, inr}
use mathlib.Core.Bool.{Bool, true, false}
use reconx.Base.Tests.{if◌then◌else◌}

pub data Result {ℓ} (E A : Type ℓ) : Type ℓ where
  ok : A → Result E A
  err : E → Result E A

abbrev pub Exec {ℓ} : Type ℓ → Type ℓ → Type ℓ → Type ℓ
Exec S E A = S → Result E A × S

module _ {ℓ} {S E A : Type ℓ} where
  abbrev pub pure : A → Exec S E A
  pure a s = (ok a, s)

  -- `return err`
  abbrev pub raise : E → Exec S E A
  raise e s = (err e, s)

  abbrev pub gets : (S → A) → Exec S E A
  gets f s = (ok (f s), s)

module _ {ℓ} {S E A B : Type ℓ} where
  abbrev pub continue : Result E A → (A → Exec S E B) → Exec S E B
  continue (ok a) f s = f a s
  continue (err e) f s = (err e, s)

  infixl 10 ◌>>=◌
  abbrev pub ◌>>=◌ : Exec S E A → (A → Exec S E B) → Exec S E B
  ◌>>=◌ m f s = continue (m s).0 f (m s).1

  infixl 10 ◌>>◌
  abbrev pub ◌>>◌ : Exec S E A → Exec S E B → Exec S E B
  ◌>>◌ m n s = continue (m s).0 (λ _. n) (m s).1

abbrev pub renamed {ℓ} : {E F A : Type ℓ} → (E → F) → Result E A → Result F A
renamed f (ok a) = ok a
renamed f (err e) = err (f e)

module _ {ℓ} {S E F A : Type ℓ} where
  -- `if err != nil { return f(err) }`
  infixl 20 ◌or_raise◌
  abbrev pub ◌or_raise◌ : Exec S E A → (E → F) → Exec S F A
  ◌or_raise◌ m f s = (renamed f (m s).0, (m s).1)

  -- `_ = m`: the error is dropped, the writes are kept.
  abbrev pub ignored : Exec S E A → Exec S F (Unit {ℓ})
  ignored m s = (ok tt, (m s).1)

-- A guard that returns early when its test holds.
abbrev pub reject_if {ℓ} : {S E : Type ℓ} → Bool → E → Exec S E (Unit {ℓ})
reject_if b e s = (if b then err e else ok tt, s)

-- Inversion of a successful step, to be applied along a chain of them.
pub continue-ok {ℓ} :
    {S E A B : Type ℓ} (r : Result E A) (f : A → Exec S E B) (s : S) {b : B}
    → (continue r f s).0 ≡ ok b
    → (a : A) × (r ≡ ok a) × ((f a s).0 ≡ ok b)
continue-ok (ok a) f s h = (a, refl, h)
continue-ok (err e) f s h = cc

-- A passed guard and a successful statement.
pub passed {ℓ} :
    {E A : Type ℓ} (b : Bool) (e : E) (x : Result E A) {a : A}
    → (if b then err e else x) ≡ ok a
    → (b ≡ false) × (x ≡ ok a)
passed true e x h = cc
passed false e x h = (refl, h)

pub renamed-ok {ℓ} :
    {E F A : Type ℓ} (f : E → F) (r : Result E A) {a : A} → renamed f r ≡ ok a → r ≡ ok a
renamed-ok f (ok x) h = cc
renamed-ok f (err e) h = cc

pub ok-injective {ℓ} : {E A : Type ℓ} {a b : A} → Path (Result E A) (ok a) (ok b) → a ≡ b
ok-injective h = cc

pub Result-cases {ℓ} :
    {E A : Type ℓ} (r : Result E A) → ((a : A) × (r ≡ ok a)) ⊎ ((e : E) × (r ≡ err e))
Result-cases (ok a) = inl (a, refl)
Result-cases (err e) = inr (e, refl)
