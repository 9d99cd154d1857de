-- ===== src/Silan/Refine/Volume.antt =====
-- The keys for the volume, through upnp_control_set_volume down to the player.
use gmrender_resurrect_silan.Base.{ℕ, ◌+◌, ◌-◌, ◌≤◌, ◌<◌, ◌≡◌, ltb, if◌then◌else◌, arith}
use gmrender_resurrect_silan.Base.Int.{pos, minus_one, ◌+ℤ◌}
use gmrender_resurrect_silan.Silan.Watch.{changed_volume}

-- The width of a step.
abbrev width : ℕ → ℕ
width n = if ltb 50 n then 5 else if ltb 20 n then 4 else if ltb 10 n then 2 else 1

abbrev up : ℕ → ℕ
up n = if ltb 100 (n + width n) then 100 else n + width n

abbrev down : ℕ → ℕ
down n = n - width n

-- A step up from a volume below 100 ends above it and not above 100.
pub volume-up :
    (n : ℕ) → n < 100 → (m : ℕ) × (changed_volume (pos 1) (pos n) ≡ pos m) × (n < m) × (m ≤ 100)
unfolding changed_volume ◌+ℤ◌
volume-up n h = (up n, ground (arith, h), ground (arith, h), ground (arith, h))

-- A step down from a volume of 1 to 100 ends below it.
pub volume-down :
    (n : ℕ) → 0 < n → n ≤ 100 → (m : ℕ) × (changed_volume minus_one (pos n) ≡ pos m) × (m < n)
unfolding changed_volume ◌+ℤ◌
volume-down n h k = (down n, ground (arith, h, k), ground (arith, h, k))
