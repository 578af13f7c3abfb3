-- ===== src/Base/OnOk.antt =====
-- What holds of the value of a result that is no refusal: a family, so that `search` takes a
-- function's branches and `?`s apart by the rules below.
use mathlib.Core.Path.{◌≡◌, refl, subst}
use mathlib.Core.Bool.{Bool, true, false}
use trade_engine.Base.Tests.{if◌then◌else◌}
use trade_engine.Base.Outcome.{Result, ok, err, ◌>>=◌, err_if, ok-injective}

pub data OnOk {ℓ κ} {E : Type 0} {A : Type ℓ} (P : A → Type κ) : Result E A → Type (ℓ ⊔ κ) where
  holds : {a : A} → P a → OnOk P (ok a)
  fails : {e : E} → OnOk P (err e)

module _ {ℓ κ} {E : Type 0} {A : Type ℓ} {P : A → Type κ} where
  pub OnOk-if : (b : Bool) {r s : Result E A} → OnOk P r → OnOk P s → OnOk P (if b then r else s)
  OnOk-if true h k = h
  OnOk-if false h k = k

  -- The same, with the equation of the test.
  pub OnOk-if_eq :
      (b : Bool) {r s : Result E A}
      → (b ≡ true → OnOk P r)
      → (b ≡ false → OnOk P s)
      → OnOk P (if b then r else s)
  OnOk-if_eq true h k = h refl
  OnOk-if_eq false h k = k refl

  pub OnOk-ok : {r : Result E A} {a : A} → OnOk P r → r ≡ ok a → P a
  OnOk-ok (holds p) e = subst P (ok-injective e) p
  OnOk-ok fails e = cc

  pub OnOk-of : (r : Result E A) → ((a : A) → r ≡ ok a → P a) → OnOk P r
  OnOk-of (ok a) f = holds (f a refl)
  OnOk-of (err e) f = fails

pub OnOk-bind {ℓ κ ι} :
    {E : Type 0} {A : Type ℓ} {B : Type ι} {P : B → Type κ} (r : Result E A) {f : A → Result E B}
    → ((a : A) → OnOk P (f a))
    → OnOk P (r >>= f)
OnOk-bind (ok a) h = h a
OnOk-bind (err e) h = fails

-- The same, with the equation that the first step returned `a`.
pub OnOk-bind_eq {ℓ κ ι} :
    {E : Type 0} {A : Type ℓ} {B : Type ι} {P : B → Type κ} (r : Result E A) {f : A → Result E B}
    → ((a : A) → r ≡ ok a → OnOk P (f a))
    → OnOk P (r >>= f)
OnOk-bind_eq (ok a) h = h a refl
OnOk-bind_eq (err e) h = fails

pub OnOk-err_if {κ} :
    {E B : Type 0} {P : B → Type κ} (b : Bool) (e : E) {k : Result E B}
    → (b ≡ false → OnOk P k)
    → OnOk P (err_if b e >>= λ _. k)
OnOk-err_if true e h = fails
OnOk-err_if false e h = h refl
