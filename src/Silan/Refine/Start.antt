-- ===== src/Silan/Refine/Start.antt =====
-- output_silan_init of src/output_silan.c on a state that nothing has been done with.
use gmrender_resurrect_silan.Base.{◌≡◌, ◌≢◌, refl, ap, arith, true, false, Option, none, [], Text}
use gmrender_resurrect_silan.Base.Int.{pos, ltb_ℤ}
use gmrender_resurrect_silan.Base.Outcome.{done}
use gmrender_resurrect_silan.Variables.Mask.{testbit, set_bit}
use gmrender_resurrect_silan.Silan.Model.{
  status_amp_power, status_amp_mute, status_spdifin, gpio_amp_mute, gpio_amp_power, Silan, Ipc, has,
  gpio_write, set_amp_mute, set_amp_power,
}
use gmrender_resurrect_silan.Silan.Start.{
  Stored, read_sized, read_file, Boot, configured, bring_up, init,
}
use gmrender_resurrect_silan.Silan.Refine.Safe.{last_written, Quiet, IsSafe}
use gmrender_resurrect_silan.Silan.Refine.Player.{set_spdifin-IsSafe}
use gmrender_resurrect_silan.Silan.Refine.Posting.{set_spdifin-posts}

-- Everything that the start asserts or opens is there.
pub record HasBoard (boot : Boot) : Type 0 where
  pub has_gpio : ltb_ℤ boot.gpio_fd (pos 0) ≡ false
  pub has_slmp : boot.slmp.opens ≡ true
  pub has_system : boot.system.opens ≡ true
  pub has_send : ltb_ℤ boot.send_id (pos 0) ≡ false
  pub has_recv : ltb_ℤ boot.recv_id (pos 0) ≡ false

apart : gpio_amp_mute ≢ gpio_amp_power
apart = omega arith

abbrev read : Stored → Option Text
read f = read_sized f.size f.content

module _ ⦃ipc : Ipc⦄ where
  init-done :
      (boot : Boot) (s : Silan)
      → HasBoard boot
      → init boot s
        ≡ done
            (pos 0, bring_up (configured boot.boot_input_fd (read boot.slmp) (read boot.system) s))
  unfolding init read_file
  init-done boot s h = rw (h.has_gpio, h.has_slmp, h.has_system, h.has_send, h.has_recv) refl

  -- The amplifier's first switch.
  powered-IsSafe :
      (s : Silan)
      → s.died ≡ none
      → s.uri ≡ none
      → s.uri_next ≡ none
      → s.pins ≡ []
      → s.status ≡ 0
      → IsSafe (set_amp_power true s)
  unfolding set_amp_power set_amp_mute gpio_write testbit set_bit last_written Quiet
  powered-IsSafe s alive no_uri no_next pins status =
      rw (alive, no_uri, no_next, pins, status)
        (record {
          alive = refl;
          uri_Fits = tt;
          uri_next_Fits = tt;
          mute_pin = refl;
          power_pin = refl;
          off_muted = refl;
          quiet = (λ _. refl, (λ e. elim (apart e) [ ], tt));
        })

  -- output_silan_init that finds everything it needs succeeds, from a state in which nothing has been
  -- written to the pins: the amplifier is on but muted, the input is the SPDIF, and the state is safe.
  pub init-IsSafe :
      (boot : Boot) (s : Silan)
      → HasBoard boot
      → s.died ≡ none
      → s.pins ≡ []
      → (t : Silan) × (init boot s ≡ done (pos 0, t))
        × IsSafe t
        × (has t status_amp_power ≡ true)
        × (has t status_amp_mute ≡ true)
        × (has t status_spdifin ≡ true)
  unfolding bring_up set_amp_power set_amp_mute gpio_write testbit set_bit
  init-IsSafe boot s h alive pins =
      let c = configured boot.boot_input_fd (read boot.slmp) (read boot.system) s in
      let on = set_amp_power true c in
      let e = set_spdifin-posts on refl in
      (
        bring_up c,
        init-done boot s h,
        set_spdifin-IsSafe on (powered-IsSafe c alive refl refl pins refl),
        ap (λ (t : Silan). has t status_amp_power) e,
        ap (λ (t : Silan). has t status_amp_mute) e,
        ap (λ (t : Silan). has t status_spdifin) e,
      )
