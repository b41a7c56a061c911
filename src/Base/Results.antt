-- ===== src/Base/Results.antt =====
-- Results of code that may throw, with the error type left open.
use mathlib.Core.Path.{◌≡◌, refl, ap}
use mathlib.Core.Bool.{Bool, true, false}

pub data Result {ℓ κ} (E : Type κ) (A : Type ℓ) : Type (ℓ ⊔ κ) where
  ok : A → Result E A
  err : E → Result E A

-- `if (!test) throw failure`.
abbrev pub require {μ} : {E : Type μ} → Bool → E → Result E (Unit {0})
require false failure = err failure
require true failure = ok tt

-- What follows a step runs only if the step did not throw.
abbrev pub ◌>>=◌ {ℓ κ μ} :
    {E : Type μ} {A : Type ℓ} {B : Type κ} → Result E A → (A → Result E B) → Result E B
err failure >>= next = err failure
ok value >>= next = next value

abbrev pub ◌>>◌ {ℓ μ} : {E : Type μ} {B : Type ℓ} → Result E (Unit {0}) → Result E B → Result E B
err failure >> rest = err failure
ok done >> rest = rest

infixl 5 ◌>>=◌ ◌>>◌
-- A chain that succeeds ran its first step to a value, and the rest from it.
pub >>=-eq-ok {ℓ κ μ} :
    {E : Type μ} {A : Type ℓ} {B : Type κ} (step : Result E A) (next : A → Result E B)
    → {done : B} → (step >>= next) ≡ ok done
    → (value : A) × (step ≡ ok value) × (next value ≡ ok done)
>>=-eq-ok (err failure) next chain = cc
>>=-eq-ok (ok value) next chain = (value, refl, chain)

-- The same where the first step only throws or passes.
pub >>-eq-ok {ℓ μ} :
    {E : Type μ} {B : Type ℓ} (step : Result E (Unit {0})) (rest : Result E B)
    → {done : B} → (step >> rest) ≡ ok done
    → rest ≡ ok done
>>-eq-ok (err failure) rest chain = cc
>>-eq-ok (ok done) rest chain = chain

abbrev value_or {ℓ μ} : {E : Type μ} {A : Type ℓ} → A → Result E A → A
value_or d (err failure) = d
value_or d (ok value) = value

abbrev passed {ℓ μ} : (E : Type μ) {A : Type ℓ} → A → Result E A
passed E a = ok a

pub ok_injective {ℓ μ} : {E : Type μ} {A : Type ℓ} (a b : A) → passed E a ≡ ok b → a ≡ b
ok_injective a b h = ap (value_or a) h

-- A guard that passes, and what follows it.
pub require-eq-ok {ℓ μ} :
    {E : Type μ} {B : Type ℓ} (test : Bool) (failure : E) (rest : Result E B)
    → {done : B} → (require test failure >> rest) ≡ ok done
    → (test ≡ true) × (rest ≡ ok done)
require-eq-ok true failure rest chain = (refl, chain)
require-eq-ok false failure rest chain = cc
