-- ===== src/Base/Tables.antt =====
-- Tables of C strings by index, with NULL for an entry that is not set.
use Prim.Native.Nat.{ℕ, zero, suc}
use mathlib.Core.List.{List, [], ◌∷◌}
use mathlib.Core.Option.{Option, none}

abbrev pub entry {ℓ} : {A : Type ℓ} → List (Option A) → ℕ → Option A
entry [] i = none
entry (x ∷ xs) zero = x
entry (x ∷ xs) (suc i) = entry xs i
