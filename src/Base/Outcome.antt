-- ===== src/Base/Outcome.antt =====
-- The outcome of a Go call: a (value, error) pair with one half set, or a run-time panic.
use Prim.Native.String.{String}
use Prim.Native.Nat.{ℕ}
use mathlib.Core.Path.{◌≡◌, refl}
use mathlib.Core.Bool.{Bool, true, false}

-- `new` is errors.New; `errorf` is fmt.Errorf with a %d; `wrapped` is one with a %w.
pub data Error : Type 0 where
  new : String → Error
  errorf : String → ℕ → Error
  wrapped : String → Error → Error
  wrapped_nil : String → Error

-- `panic` is a nil dereference or an index out of range. `stuck` is no Go outcome: the fuel of a
-- loop of the model ran out.
pub data Result {ℓ} (V : Type ℓ) : Type ℓ where
  panic stuck : Result V
  err : Error → Result V
  ok : V → Result V

infixl 5 ◌>>=◌ ◌>>◌
abbrev pub ◌>>=◌ {ℓ κ} :
    {V : Type ℓ} {W : Type κ} (call : Result V) (rest : V → Result W) → Result W
panic >>= rest = panic
stuck >>= rest = stuck
err why >>= rest = err why
ok v >>= rest = rest v

abbrev pub ◌>>◌ {ℓ κ} : {V : Type ℓ} {W : Type κ} (call : Result V) (rest : Result W) → Result W
call >> rest = call >>= λ _. rest

-- `if bad { return errors.New(message) }`
abbrev pub fail_if : Bool → String → Result (Unit {0})
fail_if true message = err (new message)
fail_if false message = ok tt

-- `if err != nil { return errors.New(message) }`
abbrev pub masked {ℓ} : {V : Type ℓ} → String → Result V → Result V
masked message (err why) = err (new message)
masked message panic = panic
masked message stuck = stuck
masked message (ok v) = ok v

-- `if err != nil { return fmt.Errorf("message: %w", err) }`
abbrev pub annotated {ℓ} : {V : Type ℓ} → String → Result V → Result V
annotated message (err why) = err (wrapped message why)
annotated message panic = panic
annotated message stuck = stuck
annotated message (ok v) = ok v

-- A property of the value that a call returns, if it returns one.
abbrev pub OnOk {ℓ κ} : {V : Type ℓ} → (V → Type κ) → Result V → Type κ
OnOk P (ok v) = P v
OnOk P (err why) = Unit
OnOk P panic = Unit
OnOk P stuck = Unit

pub >>=-eq-ok {ℓ κ} :
    {V : Type ℓ} {W : Type κ} (call : Result V) (rest : V → Result W) {w : W}
    → (call >>= rest) ≡ ok w
    → (v : V) × (call ≡ ok v) × (rest v ≡ ok w)
>>=-eq-ok panic rest e = cc
>>=-eq-ok stuck rest e = cc
>>=-eq-ok (err why) rest e = cc
>>=-eq-ok (ok v) rest e = (v, refl, e)

-- Two continuations that agree on the value that a step returns.
pub >>=-ext {ℓ κ} :
    {A : Type ℓ} {B : Type κ} (m : Result A) (f g : A → Result B)
    → ((a : A) → m ≡ ok a → f a ≡ g a)
    → (m >>= f) ≡ (m >>= g)
>>=-ext (ok a) f g h = h a refl
>>=-ext (err e) f g h = refl
>>=-ext panic f g h = refl
>>=-ext stuck f g h = refl

pub >>=_assoc {ℓ} :
    {A B C : Type ℓ} (m : Result A) (f : A → Result B) (g : B → Result C)
    → ((m >>= f) >>= g) ≡ (m >>= λ a. f a >>= g)
>>=_assoc (ok a) f g = refl
>>=_assoc (err e) f g = refl
>>=_assoc panic f g = refl
>>=_assoc stuck f g = refl
