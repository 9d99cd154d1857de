-- ===== src/Variables/Mask.antt =====
-- The bit set `not_eventable_variables` of src/variable-container.c, a `uint32_t` with a bit for
-- each variable. `1 << i`, `|` and `&` are read digit by digit; at most 31 variables exist, so no
-- bit falls off.
use gmrender_resurrect_silan.Base.{
  ℕ, zero, suc, ◌+◌, ◌*◌, ◌/◌, ◌%◌, ◌≡◌, Bool, not, ◌&&◌, ◌||◌, arith, ◌==◌,
}

-- `mask & (1 << i)`
unfoldable pub testbit : ℕ → ℕ → Bool
testbit mask zero = mask % 2 == 1
testbit mask (suc i) = testbit (mask / 2) i

-- `mask | (1 << i)`
unfoldable pub set_bit : ℕ → ℕ → ℕ
set_bit mask zero = 2 * (mask / 2) + 1
set_bit mask (suc i) = 2 * set_bit (mask / 2) i + mask % 2

-- `mask & ~(1 << i)`
unfoldable pub clear_bit : ℕ → ℕ → ℕ
clear_bit mask zero = 2 * (mask / 2)
clear_bit mask (suc i) = 2 * clear_bit (mask / 2) i + mask % 2

-- Setting a bit sets that bit and no other.
pub testbit-set_bit : (mask i j : ℕ) → testbit (set_bit mask i) j ≡ (i == j) || testbit mask j
unfolding testbit set_bit
testbit-set_bit mask zero zero = ground arith
testbit-set_bit mask zero (suc j) =
    let e : (2 * (mask / 2) + 1) / 2 ≡ mask / 2 = omega arith in ground (arith, e)
testbit-set_bit mask (suc i) zero = ground arith
testbit-set_bit mask (suc i) (suc j) =
    let e : (2 * set_bit (mask / 2) i + mask % 2) / 2 ≡ set_bit (mask / 2) i = omega arith in
    ground (arith, e, testbit-set_bit (mask / 2) i j)

-- Clearing a bit clears that bit and no other.
pub testbit-clear_bit :
    (mask i j : ℕ) → testbit (clear_bit mask i) j ≡ not (i == j) && testbit mask j
unfolding testbit clear_bit
testbit-clear_bit mask zero zero = ground arith
testbit-clear_bit mask zero (suc j) =
    let e : (2 * (mask / 2)) / 2 ≡ mask / 2 = omega arith in ground (arith, e)
testbit-clear_bit mask (suc i) zero = ground arith
testbit-clear_bit mask (suc i) (suc j) =
    let e : (2 * clear_bit (mask / 2) i + mask % 2) / 2 ≡ clear_bit (mask / 2) i = omega arith in
    ground (arith, e, testbit-clear_bit (mask / 2) i j)
