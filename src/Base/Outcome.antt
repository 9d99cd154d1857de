-- ===== src/Base/Outcome.antt =====
-- How a C function ends: with a value, or by a fault that the program does not come back from.
use mathlib.Core.Bool.{Bool, true, false}
use mathlib.Core.Path.{◌≡◌, ap}

pub data Fault : Type 0 where
  -- a failed `assert`
  assertion : Fault
  -- locking a mutex that is held already
  deadlock : Fault
  -- a read through NULL
  null_pointer : Fault
  -- more nested calls than the model was given
  depth : Fault
  -- a `strcpy` of a text that is too long for the array
  overrun : Fault

pub data Outcome {ℓ} (A : Type ℓ) : Type ℓ where
  done : A → Outcome A
  fault : Fault → Outcome A

infixl 5 ◌>>=◌ ◌>>◌
abbrev pub ◌>>=◌ {ℓ κ} : {A : Type ℓ} {B : Type κ} → Outcome A → (A → Outcome B) → Outcome B
done a >>= f = f a
fault e >>= f = fault e

abbrev pub ◌>>◌ {ℓ} : {B : Type ℓ} → Outcome (Unit {0}) → Outcome B → Outcome B
m >> k = m >>= λ _. k

-- `assert(b)`
abbrev pub assert : Bool → Outcome (Unit {0})
assert true = done tt
assert false = fault assertion

-- The call comes back, and what it gives back satisfies `P`.
abbrev pub Ends {ℓ κ} : {A : Type ℓ} → (A → Type κ) → Outcome A → Type (ℓ ⊔ κ)
Ends {A} P m = (a : A) × (m ≡ done a) × P a

-- The value of a call that comes back.
abbrev pub value_or {ℓ} : {A : Type ℓ} → A → Outcome A → A
value_or a (done b) = b
value_or a (fault e) = a

pub done-injective {ℓ} : {A : Type ℓ} {a b : A} → done a ≡ done b → a ≡ b
done-injective {a = a} e = ap (value_or a) e
