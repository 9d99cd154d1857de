-- ===== src/Silan/Refine/Watch.antt =====
-- The seconds of output_silan_loop on a state that is safe.
use gmrender_resurrect_silan.Base.{
  ◌+◌, ◌≡◌, refl, Bool, true, false, ◌&&◌, ◌||◌, Option, ltb, ◌==◌, Bool-cases, inl, inr,
  if◌then◌else◌, arith,
}
use gmrender_resurrect_silan.Base.Int.{ℤ, eq_ℤ}
use gmrender_resurrect_silan.Silan.Model.{
  Ipc, status_spdifin, status_amp_mute, status_amp_power, slmp_state_play, has, set_amp_power,
}
use gmrender_resurrect_silan.Silan.Watch.{
  auto_power_off, auto_spdifin, amp_unmute, Board, power_on, power_off, is_locked, tick_spdifin,
  unmute, tick_player, tick,
}
use gmrender_resurrect_silan.Silan.Refine.Safe.{IsSafe}
use gmrender_resurrect_silan.Silan.Refine.Amplifier.{set_amp_mute-IsSafe, set_amp_power-IsSafe}
use gmrender_resurrect_silan.Silan.Refine.Player.{set_spdifin-IsSafe}

-- A choice between two boards.
if-IsSafe :
    (c : Bool) (a b : Board)
    → IsSafe a.silan
    → (c ≡ false → IsSafe b.silan)
    → IsSafe (if c then a else b).silan
if-IsSafe true a b v w = v
if-IsSafe false a b v w = w refl

power_on-IsSafe : (b : Board) → IsSafe b.silan → IsSafe (power_on b).silan
power_on-IsSafe b v =
    if-IsSafe (has b.silan status_amp_power) b
      (record b { cnt_mute = 0; silan = set_amp_power true b.silan }) v
      (λ _. set_amp_power-IsSafe true b.silan v)

power_off-IsSafe : (b : Board) → IsSafe b.silan → IsSafe (power_off b).silan
power_off-IsSafe b v =
    if-IsSafe (has b.silan status_amp_power) (record b { silan = set_amp_power false b.silan }) b
      (set_amp_power-IsSafe false b.silan v) (λ _. v)

tick_spdifin-IsSafe :
    (lock : Option ℤ) (b : Board) → IsSafe b.silan → IsSafe (tick_spdifin lock b).silan
unfolding tick_spdifin
tick_spdifin-IsSafe lock b v =
    if-IsSafe (is_locked lock) _ _ (power_on-IsSafe (record b { cnt_unlock = 0 }) v) (λ _.
      if-IsSafe (ltb b.cnt_unlock auto_power_off) _ _ v (λ _.
        if-IsSafe (b.cnt_unlock == auto_power_off) _ _
          (power_off-IsSafe (record b { cnt_unlock = b.cnt_unlock + 1 }) v) (λ _. v)))

is-powered : (b c d : Bool) → b && c ≡ true → b || d ≡ true
is-powered true c d h = refl
is-powered false c d h = ground (arith, h)

unmute-IsSafe : (b : Board) → IsSafe b.silan → IsSafe (unmute b).silan
unfolding unmute
unmute-IsSafe b v =
    elim (Bool-cases (has b.silan status_amp_power && has b.silan status_amp_mute)) [
      | inl e ↦ rw e (
          if-IsSafe (ltb b.cnt_mute amp_unmute) _ _ v (λ _.
            if-IsSafe (b.cnt_mute == amp_unmute) _ _
              (set_amp_mute-IsSafe false b.silan
                (is-powered (has b.silan status_amp_power) (has b.silan status_amp_mute) false e) v)
              (λ _. v)))
      | inr e ↦ rw e v
    ]

module _ ⦃ipc : Ipc⦄ where
  tick_player-IsSafe : (b : Board) → IsSafe b.silan → IsSafe (tick_player b).silan
  unfolding tick_player
  tick_player-IsSafe b v =
      if-IsSafe (eq_ℤ b.silan.state slmp_state_play) _ _
        (power_on-IsSafe (record b { cnt_stop = 0 }) v)
        (λ _.
          if-IsSafe (ltb b.cnt_stop auto_spdifin) _ _ v (λ _.
            if-IsSafe (b.cnt_stop == auto_spdifin) _ _ (set_spdifin-IsSafe b.silan v) (λ _. v)))

  pub tick-IsSafe : (lock : Option ℤ) (b : Board) → IsSafe b.silan → IsSafe (tick lock b).silan
  unfolding tick
  tick-IsSafe lock b v =
      unmute-IsSafe (if has b.silan status_spdifin then tick_spdifin lock b else tick_player b) (
        if-IsSafe (has b.silan status_spdifin) _ _ (tick_spdifin-IsSafe lock b v)
          (λ _. tick_player-IsSafe b v))
