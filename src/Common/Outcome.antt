-- ===== src/Common/Outcome.antt =====
-- A Python call that returns a value or raises.
use mathlib.Core.Path.{◌≡◌, refl}
use mathlib.Core.Logic.{◌⊎◌, inl, inr}
use mathlib.Core.Bool.{Bool, true, false}

pub data Result {ℓ} (E A : Type ℓ) : Type ℓ where
  err : (raised : E) → Result E A
  ok : (returned : A) → Result E A

pub Result-cases {ℓ} :
    {E A : Type ℓ} (call : Result E A)
    → ((raised : E) × (call ≡ err raised)) ⊎ ((returned : A) × (call ≡ ok returned))
Result-cases (ok value) = inr (value, refl)
Result-cases (err raised) = inl (raised, refl)

-- An exception ends the block that it is raised in.
infixl 5 ◌>>◌ ◌>>=◌
abbrev pub ◌>>=◌ {ℓ} : {E A B : Type ℓ} (call : Result E A) (after : A → Result E B) → Result E B
err raised >>= after = err raised
ok value >>= after = after value

abbrev pub ◌>>◌ {ℓ} : {E B : Type ℓ} (check : Result E (Unit {ℓ})) (after : Result E B) → Result E B
err raised >> after = err raised
ok _ >> after = after

-- `if not test: raise problem`
abbrev pub require {ℓ} : {E : Type ℓ} (test : Bool) (problem : E) → Result E (Unit {ℓ})
require false problem = err problem
require true _ = ok tt

-- The parts of a block that returned.
pub >>=-eq-ok {ℓ} :
    {E A B : Type ℓ} (call : Result E A) (after : A → Result E B) {last : B}
    → (call >>= after) ≡ ok last
    → (value : A) × (call ≡ ok value) × (after value ≡ ok last)
>>=-eq-ok (err raised) after returned = cc
>>=-eq-ok (ok value) after returned = (value, refl, returned)

pub require-eq-ok {ℓ} :
    {E B : Type ℓ} (test : Bool) (problem : E) (after : Result E B) {last : B}
    → (require test problem >> after) ≡ ok last
    → (test ≡ true) × (after ≡ ok last)
require-eq-ok false problem after returned = cc
require-eq-ok true problem after returned = (refl, returned)
