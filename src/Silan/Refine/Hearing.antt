-- ===== src/Silan/Refine/Hearing.antt =====
-- How an amplifier that was switched on comes to be heard: the last counter of output_silan_loop.
use gmrender_resurrect_silan.Base.{
  ◌+◌, ◌≤◌, ◌<◌, ◌≡◌, refl, sym, ap, ◌∙◌, subst, Bool, true, false, Option, List, [], ◌∷◌, ltb,
  ◌==◌, arith,
}
use gmrender_resurrect_silan.Base.Int.{ℤ, eq_ℤ}
use gmrender_resurrect_silan.Silan.Model.{
  Silan, Ipc, status_spdifin, status_amp_mute, status_amp_power, slmp_state_play, has, set_amp_mute,
}
use gmrender_resurrect_silan.Silan.Watch.{
  power_on, amp_unmute, Board, is_locked, tick_spdifin, unmute, tick_player, tick, ticks,
}
use gmrender_resurrect_silan.Silan.Refine.Amplifier.{
  put_bit-elsewhere, put_bit-here, set_amp_mute-writes,
}
use gmrender_resurrect_silan.Silan.Refine.Automatic.{count}

abbrev pub Locked : List (Option ℤ) → Type 0
Locked [] = Unit {0}
Locked (lock ∷ locks) = (is_locked lock ≡ true) × Locked locks

-- There is something to hear: with the input from the SPDIF a lock every second, else the player plays.
abbrev pub Sounds : Bool → List (Option ℤ) → ℤ → Type 0
Sounds true locks state = Locked locks
Sounds false locks state = eq_ℤ state slmp_state_play ≡ true

later-Sounds :
    (m : Bool) (lock : Option ℤ) (locks : List (Option ℤ)) (state : ℤ)
    → Sounds m (lock ∷ locks) state
    → Sounds m locks state
later-Sounds true lock locks state h = h.1
later-Sounds false lock locks state h = h

power_on-stays : (b : Board) → has b.silan status_amp_power ≡ true → power_on b ≡ b
power_on-stays b e = rw e refl

early-unmute :
    (b : Board)
    → has b.silan status_amp_power ≡ true
    → has b.silan status_amp_mute ≡ true
    → b.cnt_mute < 3
    → unmute b ≡ record b { cnt_mute = b.cnt_mute + 1 }
unfolding unmute
early-unmute b on muted lt =
    let below : ltb b.cnt_mute amp_unmute ≡ true = ground (arith, lt) in rw (on, muted, below) refl

due-unmute :
    (b : Board)
    → has b.silan status_amp_power ≡ true
    → has b.silan status_amp_mute ≡ true
    → b.cnt_mute ≡ 3
    → unmute b ≡ record b { cnt_mute = b.cnt_mute + 1; silan = set_amp_mute false b.silan }
unfolding unmute
due-unmute b on muted e =
    let below : ltb b.cnt_mute amp_unmute ≡ false = ground (arith, e) in
    let at : (b.cnt_mute == amp_unmute) ≡ true = ground (arith, e) in rw (on, muted, below, at) refl

set_amp_mute-bits :
    (s : Silan)
    → (has (set_amp_mute false s) status_amp_mute ≡ false)
      × (has (set_amp_mute false s) status_amp_power ≡ has s status_amp_power)
set_amp_mute-bits s =
    let e = set_amp_mute-writes false s in
    (
      ap (λ (t : Silan). has t status_amp_mute) e ∙ put_bit-here false status_amp_mute s.status,
      ap (λ (t : Silan). has t status_amp_power) e
          ∙ put_bit-elsewhere false status_amp_mute status_amp_power s.status (omega arith),
    )

module _ ⦃ipc : Ipc⦄ where
  lock-tick :
      (lock : Option ℤ) (b : Board)
      → has b.silan status_spdifin ≡ true
      → is_locked lock ≡ true
      → tick lock b ≡ unmute (power_on (record b { cnt_unlock = 0 }))
  unfolding tick tick_spdifin
  lock-tick lock b on h = rw (on, h) refl

  play-tick :
      (lock : Option ℤ) (b : Board)
      → has b.silan status_spdifin ≡ false
      → eq_ℤ b.silan.state slmp_state_play ≡ true
      → tick lock b ≡ unmute (power_on (record b { cnt_stop = 0 }))
  unfolding tick tick_player
  play-tick lock b on h = rw (on, h) refl

  -- A second with something to hear.
  sound-tick :
      (m : Bool) (lock : Option ℤ) (locks : List (Option ℤ)) (b : Board)
      → has b.silan status_spdifin ≡ m
      → Sounds m (lock ∷ locks) b.silan.state
      → has b.silan status_amp_power ≡ true
      → (c : Board) × (tick lock b ≡ unmute c) × (c.silan ≡ b.silan) × (c.cnt_mute ≡ b.cnt_mute)
  sound-tick true lock locks b on h power =
      let c : Board = record b { cnt_unlock = 0 } in
      (c, lock-tick lock b on h.0 ∙ ap unmute (power_on-stays c power), refl, refl)
  sound-tick false lock locks b on h power =
      let c : Board = record b { cnt_stop = 0 } in
      (c, play-tick lock b on h ∙ ap unmute (power_on-stays c power), refl, refl)

  -- If the amplifier is on and muted and there is something to hear, then the second in which the
  -- count of such seconds has passed 3 ends the muting, and the amplifier is still on.
  pub sound-unmutes :
      (m : Bool) (locks : List (Option ℤ)) (b : Board)
      → has b.silan status_spdifin ≡ m
      → Sounds m locks b.silan.state
      → has b.silan status_amp_power ≡ true
      → has b.silan status_amp_mute ≡ true
      → b.cnt_mute ≤ 3
      → count locks + b.cnt_mute ≡ 4
      → (has (ticks locks b).silan status_amp_mute ≡ false)
        × (has (ticks locks b).silan status_amp_power ≡ true)
  unfolding ticks
  sound-unmutes m [] b on h power muted le e = let h : 1 ≤ 0 = omega (arith, le, e) in elim h [ ]
  sound-unmutes m (lock ∷ []) b on h power muted le e =
      let (c, t, same, counted) = sound-tick m lock [] b on h power in
      let up = ap (λ (s : Silan). has s status_amp_power) same ∙ power in
      let run =
        t
        ∙ due-unmute c up (ap (λ (s : Silan). has s status_amp_mute) same ∙ muted)
            (omega (arith, e, counted)) in
      let (mute, kept) = set_amp_mute-bits c.silan in
      (
        ap (λ (d : Board). has d.silan status_amp_mute) run ∙ mute,
        ap (λ (d : Board). has d.silan status_amp_power) run ∙ kept ∙ up,
      )
  sound-unmutes m (lock ∷ next ∷ locks) b on h power muted le e =
      let (c, t, same, counted) = sound-tick m lock (next ∷ locks) b on h power in
      let run =
        t
        ∙ early-unmute c (ap (λ (s : Silan). has s status_amp_power) same ∙ power)
            (ap (λ (s : Silan). has s status_amp_mute) same ∙ muted)
            (omega (arith, le, e, counted)) in
      let silan = ap (λ (d : Board). d.silan) run ∙ same in
      let mute = ap (λ (d : Board). d.cnt_mute) run in
      sound-unmutes m (next ∷ locks) (tick lock b)
        (ap (λ (s : Silan). has s status_spdifin) silan ∙ on)
        (subst (λ (s : Silan). Sounds m (next ∷ locks) s.state) (sym silan)
          (later-Sounds m lock (next ∷ locks) b.silan.state h))
        (ap (λ (s : Silan). has s status_amp_power) silan ∙ power)
        (ap (λ (s : Silan). has s status_amp_mute) silan ∙ muted)
        (omega (arith, le, e, mute, counted)) (omega (arith, e, mute, counted))
