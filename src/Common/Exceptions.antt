-- ===== src/Common/Exceptions.antt =====
-- A computation that returns a value or throws; `E` names the exceptions that a component throws.
use mathlib.Core.Path.{◌≡◌, refl}
use mathlib.Core.Logic.{◌⊎◌, inl, inr}
use mathlib.Core.Bool.{Bool, true, false}

pub data Result {ℓ} (E : Type 0) (A : Type ℓ) : Type ℓ where
  err : E → Result E A
  ok : A → Result E A

-- `if (refused) throw exception;`
abbrev pub throw_if : {E : Type 0} → Bool → E → Result E (Unit {0})
throw_if false exception = ok tt
throw_if true exception = err exception

infixl 5 ◌>>=◌ ◌>>◌
abbrev pub ◌>>=◌ {ℓ κ} :
    {E : Type 0} {A : Type ℓ} {B : Type κ} → Result E A → (A → Result E B) → Result E B
err exception >>= next = err exception
ok value >>= next = next value

-- Every result is a value or an exception.
pub Result-cases {ℓ} :
    {E : Type 0} {A : Type ℓ} (r : Result E A) → ((a : A) × (r ≡ ok a)) ⊎ ((e : E) × (r ≡ err e))
Result-cases (ok value) = inl (value, refl)
Result-cases (err exception) = inr (exception, refl)

-- A check, and what comes after it.
abbrev pub ◌>>◌ {ℓ} : {E : Type 0} {B : Type ℓ} → Result E (Unit {0}) → Result E B → Result E B
checked >> next = checked >>= λ _. next

-- A chain that returns a value returned one at its first step.
pub >>=-eq-ok {ℓ κ} :
    {E : Type 0} {A : Type ℓ} {B : Type κ} (r : Result E A) (next : A → Result E B) {value : B}
    → (r >>= next) ≡ ok value
    → (first : A) × (r ≡ ok first) × (next first ≡ ok value)
>>=-eq-ok (err exception) next h = cc
>>=-eq-ok (ok first) next h = (first, refl, h)
