-- ===== src/Silan/Refine/Automatic.antt =====
-- What the seconds of output_silan_loop come to when they add up: the counters of the watchdog.
use gmrender_resurrect_silan.Base.{
  ℕ, suc, ◌+◌, ◌≤◌, ◌<◌, ◌≡◌, refl, ap, ◌∙◌, Bool, true, false, ◌&&◌, Option, List, [], ◌∷◌, ltb,
  ◌==◌, Bool-cases, inl, inr, if◌then◌else◌, arith,
}
use gmrender_resurrect_silan.Base.Int.{ℤ, pos, eq_ℤ}
use gmrender_resurrect_silan.Silan.Model.{
  gpio_write, gpio_amp_power, set_amp_power, Silan, Ipc, status_spdifin, status_amp_mute,
  status_amp_power, slmp_state_play, has, set_amp_mute,
}
use gmrender_resurrect_silan.Silan.Player.{set_spdifin}
use gmrender_resurrect_silan.Silan.Watch.{
  tick_spdifin, is_locked, auto_power_off, power_off, auto_spdifin, amp_unmute, Board, unmute,
  tick_player, tick, ticks,
}
use gmrender_resurrect_silan.Silan.Refine.Amplifier.{
  put_bit-elsewhere, put_bit-here, set_amp_mute-writes,
}
use gmrender_resurrect_silan.Silan.Refine.Posting.{set_spdifin-posts}

-- The number of seconds.
abbrev pub count : List (Option ℤ) → ℕ
count [] = 0
count (lock ∷ locks) = suc (count locks)

-- What the unmuting leaves as it is.
pub record IsBeside (b c : Board) : Type 0 where
  pub same_state : b.silan.state ≡ c.silan.state
  pub same_stop : b.cnt_stop ≡ c.cnt_stop
  pub same_unlock : b.cnt_unlock ≡ c.cnt_unlock
  pub same_spdifin : has b.silan status_spdifin ≡ has c.silan status_spdifin
  pub same_power : has b.silan status_amp_power ≡ has c.silan status_amp_power

IsBeside-refl : (b : Board) → IsBeside b b
IsBeside-refl b = record {
  same_state = refl;
  same_stop = refl;
  same_unlock = refl;
  same_spdifin = refl;
  same_power = refl;
}

heard-IsBeside :
    (n : ℕ) (b : Board) → IsBeside (record b { cnt_mute = n; silan = set_amp_mute false b.silan }) b
heard-IsBeside n b =
    let st = b.silan.status in
    let e = set_amp_mute-writes false b.silan in
    record {
      same_state = ap (λ s. s.state) e;
      same_stop = refl;
      same_unlock = refl;
      same_spdifin =
          ap (λ (s : Silan). has s status_spdifin) e
          ∙ put_bit-elsewhere false status_amp_mute status_spdifin st (omega arith);
      same_power =
          ap (λ (s : Silan). has s status_amp_power) e
          ∙ put_bit-elsewhere false status_amp_mute status_amp_power st (omega arith);
    }

if-IsBeside :
    (c : Bool) (a b d : Board) → IsBeside a d → IsBeside b d → IsBeside (if c then a else b) d
if-IsBeside true a b d v w = v
if-IsBeside false a b d v w = w

unmute-IsBeside : (b : Board) → IsBeside (unmute b) b
unfolding unmute
unmute-IsBeside b =
    let counted : IsBeside (record b { cnt_mute = b.cnt_mute + 1 }) b = record {
      same_state = refl;
      same_stop = refl;
      same_unlock = refl;
      same_spdifin = refl;
      same_power = refl;
    } in
    if-IsBeside (has b.silan status_amp_power && has b.silan status_amp_mute) _ _ b
      (if-IsBeside (ltb b.cnt_mute amp_unmute) _ _ b counted (
        if-IsBeside (b.cnt_mute == amp_unmute) _ _ b (heard-IsBeside (b.cnt_mute + 1) b)
          (IsBeside-refl b)))
      (IsBeside-refl b)

module _ ⦃ipc : Ipc⦄ where
  -- A second in which nothing is played, before the last one that counts.
  idle-tick :
      (lock : Option ℤ) (b : Board)
      → has b.silan status_spdifin ≡ false
      → eq_ℤ b.silan.state slmp_state_play ≡ false
      → b.cnt_stop < 120
      → tick lock b ≡ unmute (record b { cnt_stop = b.cnt_stop + 1 })
  unfolding tick tick_player
  idle-tick lock b off idle lt =
      let below : ltb b.cnt_stop auto_spdifin ≡ true = ground (arith, lt) in
      rw (off, idle, below) refl

  -- The last of them.
  last-tick :
      (lock : Option ℤ) (b : Board)
      → has b.silan status_spdifin ≡ false
      → eq_ℤ b.silan.state slmp_state_play ≡ false
      → b.cnt_stop ≡ 120
      → tick lock b ≡ unmute (record b { cnt_stop = b.cnt_stop + 1; silan = set_spdifin b.silan })
  unfolding tick tick_player
  last-tick lock b off idle e =
      let below : ltb b.cnt_stop auto_spdifin ≡ false = ground (arith, e) in
      let at : (b.cnt_stop == auto_spdifin) ≡ true = ground (arith, e) in
      rw (off, idle, below, at) refl

  -- If the input is not the SPDIF and the player does not play, then the second in which the count of
  -- idle seconds has passed 120 switches the input to the SPDIF.
  pub idle-switches :
      (locks : List (Option ℤ)) (b : Board)
      → has b.silan status_spdifin ≡ false
      → eq_ℤ b.silan.state slmp_state_play ≡ false
      → b.cnt_stop ≤ 120
      → count locks + b.cnt_stop ≡ 121
      → has (ticks locks b).silan status_spdifin ≡ true
  unfolding ticks
  idle-switches [] b off idle le e = let h : 1 ≤ 0 = omega (arith, le, e) in elim h [ ]
  idle-switches (lock ∷ []) b off idle le e =
      let t = last-tick lock b off idle (omega (arith, e)) in
      let c : Board = record b { cnt_stop = b.cnt_stop + 1; silan = set_spdifin b.silan } in
      ap (λ (d : Board). has d.silan status_spdifin) t
      ∙ (unmute-IsBeside c).same_spdifin
      ∙ ap (λ (s : Silan). has s status_spdifin) (set_spdifin-posts b.silan off)
      ∙ put_bit-here true status_spdifin b.silan.status
  idle-switches (lock ∷ next ∷ locks) b off idle le e =
      let t = idle-tick lock b off idle (omega (arith, le, e)) in
      let u = unmute-IsBeside (record b { cnt_stop = b.cnt_stop + 1 }) in
      let stop = ap (λ (d : Board). d.cnt_stop) t ∙ u.same_stop in
      idle-switches (next ∷ locks) (tick lock b)
        (ap (λ (d : Board). has d.silan status_spdifin) t ∙ u.same_spdifin ∙ off)
        (ap (λ (d : Board). eq_ℤ d.silan.state slmp_state_play) t
          ∙ ap (λ n. eq_ℤ n slmp_state_play) u.same_state
          ∙ idle)
        (omega (arith, le, e, stop)) (omega (arith, e, stop))

  -- A second without a lock, before the last one that counts.
  silent-tick :
      (lock : Option ℤ) (b : Board)
      → has b.silan status_spdifin ≡ true
      → is_locked lock ≡ false
      → b.cnt_unlock < 300
      → tick lock b ≡ unmute (record b { cnt_unlock = b.cnt_unlock + 1 })
  unfolding tick tick_spdifin
  silent-tick lock b on silent lt =
      let below : ltb b.cnt_unlock auto_power_off ≡ true = ground (arith, lt) in
      rw (on, silent, below) refl

  -- The last of them.
  power-tick :
      (lock : Option ℤ) (b : Board)
      → has b.silan status_spdifin ≡ true
      → is_locked lock ≡ false
      → b.cnt_unlock ≡ 300
      → tick lock b ≡ unmute (power_off (record b { cnt_unlock = b.cnt_unlock + 1 }))
  unfolding tick tick_spdifin
  power-tick lock b on silent e =
      let below : ltb b.cnt_unlock auto_power_off ≡ false = ground (arith, e) in
      let at : (b.cnt_unlock == auto_power_off) ≡ true = ground (arith, e) in
      rw (on, silent, below, at) refl

  power_off-off : (b : Board) → has (power_off b).silan status_amp_power ≡ false
  unfolding set_amp_power
  power_off-off b = elim (Bool-cases (has b.silan status_amp_power)) [
    | inl e ↦ rw e (
        put_bit-here false status_amp_power
          (gpio_write gpio_amp_power (pos 1) (set_amp_mute true b.silan)).status)
    | inr e ↦ rw e e
  ]

  abbrev pub Silent : List (Option ℤ) → Type 0
  Silent [] = Unit {0}
  Silent (lock ∷ locks) = (is_locked lock ≡ false) × Silent locks

  -- If the input is the SPDIF and no lock is read from it, then the second in which the count of such
  -- seconds has passed 300 leaves the amplifier off.
  pub silence-switches_off :
      (locks : List (Option ℤ)) (b : Board)
      → has b.silan status_spdifin ≡ true
      → Silent locks
      → b.cnt_unlock ≤ 300
      → count locks + b.cnt_unlock ≡ 301
      → has (ticks locks b).silan status_amp_power ≡ false
  unfolding ticks
  silence-switches_off [] b on silent le e = let h : 1 ≤ 0 = omega (arith, le, e) in elim h [ ]
  silence-switches_off (lock ∷ []) b on (silent, _) le e =
      let t = power-tick lock b on silent (omega (arith, e)) in
      let c : Board = record b { cnt_unlock = b.cnt_unlock + 1 } in
      ap (λ (d : Board). has d.silan status_amp_power) t
      ∙ (unmute-IsBeside (power_off c)).same_power
      ∙ power_off-off c
  silence-switches_off (lock ∷ next ∷ locks) b on (silent, rest) le e =
      let t = silent-tick lock b on silent (omega (arith, le, e)) in
      let u = unmute-IsBeside (record b { cnt_unlock = b.cnt_unlock + 1 }) in
      let unlock = ap (λ (d : Board). d.cnt_unlock) t ∙ u.same_unlock in
      silence-switches_off (next ∷ locks) (tick lock b)
        (ap (λ (d : Board). has d.silan status_spdifin) t ∙ u.same_spdifin ∙ on) rest
        (omega (arith, le, e, unlock)) (omega (arith, e, unlock))

  stuck-tick :
      (lock : Option ℤ) (b : Board)
      → has b.silan status_spdifin ≡ true
      → is_locked lock ≡ false
      → 300 < b.cnt_unlock
      → tick lock b ≡ unmute b
  unfolding tick tick_spdifin
  stuck-tick lock b on silent lt =
      let below : ltb b.cnt_unlock auto_power_off ≡ false = ground (arith, lt) in
      let at : (b.cnt_unlock == auto_power_off) ≡ false = ground (arith, lt) in
      rw (on, silent, below, at) refl

  -- Once the count of seconds without a lock has passed 300, it is not taken up again: if the input is
  -- the SPDIF and the amplifier is on then, it stays on, however long no lock is read.
  pub silence-stays_on :
      (locks : List (Option ℤ)) (b : Board)
      → has b.silan status_spdifin ≡ true
      → has b.silan status_amp_power ≡ true
      → Silent locks
      → 300 < b.cnt_unlock
      → has (ticks locks b).silan status_amp_power ≡ true
  unfolding ticks
  silence-stays_on [] b on power silent lt = power
  silence-stays_on (lock ∷ locks) b on power (silent, rest) lt =
      let t = stuck-tick lock b on silent lt in
      let u = unmute-IsBeside b in
      let unlock = ap (λ (d : Board). d.cnt_unlock) t ∙ u.same_unlock in
      silence-stays_on locks (tick lock b)
        (ap (λ (d : Board). has d.silan status_spdifin) t ∙ u.same_spdifin ∙ on)
        (ap (λ (d : Board). has d.silan status_amp_power) t ∙ u.same_power ∙ power) rest
        (omega (arith, lt, unlock))
