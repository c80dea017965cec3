-- ===== src/Base/Ends.antt =====
-- Postconditions of a Go call that returns a value or an error.
use mathlib.Core.Path.{◌≡◌, refl, subst}
use mathlib.Core.Logic.{◌≢◌}
use mathlib.Core.Bool.{Bool, true, false}
use rongta_f11_open.Base.Tests.{if◌then◌else◌}
use Prim.Native.String.{String}
use rongta_f11_open.Base.Outcome.{Error, Result, ok, err, panic, stuck, ◌>>=◌, ◌>>◌, fail_if}

-- The call returns: an error, or a value with the property.
pub data Ends {ℓ κ} {A : Type ℓ} (P : A → Type κ) : Result A → Type (ℓ ⊔ κ) where
  value : {a : A} → P a → Ends P (ok a)
  error : {e : Error} → Ends P (err e)

-- It returns, whatever the value is.
abbrev pub Returns {ℓ} : {A : Type ℓ} → Result A → Type ℓ
Returns = Ends (λ _. Unit {0})

module _ {ℓ κ} {A : Type ℓ} {P : A → Type κ} where
  pub Ends-ok : {r : Result A} {a : A} → Ends P r → r ≡ ok a → P a
  Ends-ok (value h) e = subst P (cc) h
  Ends-ok error e = cc

  pub Ends-total : {r : Result A} → Ends P r → (r ≢ panic) × (r ≢ stuck)
  Ends-total (value h) = (λ e. cc, λ e. cc)
  Ends-total error = (λ e. cc, λ e. cc)

  pub Ends-if :
      (b : Bool) {x y : Result A}
      → (b ≡ true → Ends P x)
      → (b ≡ false → Ends P y)
      → Ends P (if b then x else y)
  Ends-if true hx hy = hx refl
  Ends-if false hx hy = hy refl

  pub Ends-bind {ℓ' κ'} :
      {B : Type ℓ'} {Q : B → Type κ'} {r : Result A} {f : A → Result B}
      → Ends P r
      → ((a : A) → P a → Ends Q (f a))
      → Ends Q (r >>= f)
  Ends-bind (value {a} h) k = k a h
  Ends-bind error k = error

pub Ends-fail_if : (b : Bool) (message : String) → Ends (λ _. b ≡ false) (fail_if b message)
Ends-fail_if true message = error
Ends-fail_if false message = value refl

-- Behind a test that did not fail.
pub Ends-guard {ℓ κ} :
    {A : Type ℓ} {P : A → Type κ} (b : Bool) (message : String) {r : Result A}
    → (b ≡ false → Ends P r)
    → Ends P (fail_if b message >> r)
Ends-guard b message k = Ends-bind (Ends-fail_if b message) (λ _ e. k e)

pub Ends-weaken {ℓ κ κ'} :
    {A : Type ℓ} {P : A → Type κ} {Q : A → Type κ'} {r : Result A}
    → Ends P r
    → ((a : A) → P a → Q a)
    → Ends Q r
Ends-weaken (value {a} h) k = value (k a h)
Ends-weaken error k = error
