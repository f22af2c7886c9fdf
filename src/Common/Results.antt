-- ===== src/Common/Results.antt =====
-- What a function that may throw returns: the error thrown, or a value.
use mathlib.Core.Path.{◌≡◌, refl}
use mathlib.Core.Logic.{◌⊎◌, inl, inr}
use mathlib.Core.Bool.{Bool, true, false}

pub data Result {κ ℓ} (Thrown : Type κ) (Value : Type ℓ) : Type (κ ⊔ ℓ) where
  err : Thrown → Result Thrown Value
  ok : Value → Result Thrown Value

infixl 5 ◌>>=◌ ◌>>◌
-- The first error ends the sequence.
abbrev pub ◌>>=◌ {κ ℓ μ} :
    {Thrown : Type κ} {Value : Type ℓ} {Next : Type μ}
    → Result Thrown Value
    → (Value → Result Thrown Next)
    → Result Thrown Next
err thrown >>= next = err thrown
ok value >>= next = next value

-- A check, then the rest.
abbrev pub ◌>>◌ {κ μ} :
    {Thrown : Type κ} {Next : Type μ}
    → Result Thrown (Unit {0})
    → Result Thrown Next
    → Result Thrown Next
check >> rest = check >>= λ _. rest

-- `if (test) throw e`
abbrev pub throw_if {κ} : {Thrown : Type κ} → Bool → Thrown → Result Thrown (Unit {0})
throw_if false thrown = ok tt
throw_if true thrown = err thrown

pub Result-cases {κ ℓ} :
    {Thrown : Type κ} {Value : Type ℓ} (r : Result Thrown Value)
    → ((v : Value) × (r ≡ ok v)) ⊎ ((t : Thrown) × (r ≡ err t))
Result-cases (err t) = inr (t, refl)
Result-cases (ok v) = inl (v, refl)

-- A sequence gives a value only if its first step gives one for the rest to go on with.
pub >>=-eq-ok {κ ℓ μ} :
    {Thrown : Type κ} {V : Type ℓ} {W : Type μ} (first : Result Thrown V)
    (rest : V → Result Thrown W) {w : W}
    → (first >>= rest) ≡ ok w
    → (v : V) × (first ≡ ok v) × (rest v ≡ ok w)
>>=-eq-ok (err thrown) rest done = cc done
>>=-eq-ok (ok v) rest done = (v, refl, done)
