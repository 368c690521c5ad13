-- ===== src/Base/Results.antt =====
-- A Go call that returns, or that panics (an index out of range, a nil map or pointer).
use mathlib.Core.Path.{◌≡◌, refl}
use mathlib.Core.Bool.{Bool, true, false}

pub data Outcome (A : Type 0) : Type 0 where
  return : A → Outcome A
  panic : Outcome A

infixl 5 ◌>>=◌
abbrev pub ◌>>=◌ : {A B : Type 0} → Outcome A → (A → Outcome B) → Outcome B
return a >>= f = f a
panic >>= f = panic

abbrev pub panic_unless : {A : Type 0} → Bool → A → Outcome A
panic_unless true a = return a
panic_unless false a = panic

-- Where a sequence returns, its first call did.
pub >>=-eq-return :
    {A B : Type 0} (m : Outcome A) (f : A → Outcome B) {b : B}
    → (m >>= f) ≡ return b
    → (a : A) × (m ≡ return a) × (f a ≡ return b)
>>=-eq-return (return a) f h = (a, refl, h)
>>=-eq-return panic f h = cc
