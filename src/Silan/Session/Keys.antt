-- ===== src/Silan/Session/Keys.antt =====
-- The keys for the volume, from the remote control through the RenderingControl service to the player.
use gmrender_resurrect_silan.Base.{
  ℕ, ◌≤◌, ◌<◌, ◌≡◌, refl, sym, ap, ◌∙◌, Bool, true, none, some, [], ◌∷◌, arith,
}
use gmrender_resurrect_silan.Base.Int.{ℤ, pos, minus_one, ltb_ℤ}
use gmrender_resurrect_silan.Base.Outcome.{done, ◌>>=◌}
use gmrender_resurrect_silan.Xml.{Ixml}
use gmrender_resurrect_silan.Decimal.{atoi}
use gmrender_resurrect_silan.Output.{Output, output_set_volume}
use gmrender_resurrect_silan.Control.Refine.{nearest, set_volume-stores}
use gmrender_resurrect_silan.Silan.Model.{Silan, Ipc, cmd_set_volume}
use gmrender_resurrect_silan.Silan.Commands.{answer_bit}
use gmrender_resurrect_silan.Silan.Player.{set_volume, silan_output}
use gmrender_resurrect_silan.Silan.Watch.{
  press, key_volume_up, key_volume_down, changed_volume, with_device, Watch, put_control,
  volume_change,
}
use gmrender_resurrect_silan.Silan.Session.Running.{IsRunning}
use gmrender_resurrect_silan.Silan.Refine.Posting.{to_player, posted, send_cmd-posts}
use gmrender_resurrect_silan.Silan.Refine.Volume.{volume-up, volume-down}

-- The volume, as it is known after a key: to the module, to the player, which was sent a command
-- last, and to the service, whose variable reads back as it. The muting has ended in the module,
-- while the service's Mute variable is the one from before.
pub record HasVolume (m : ℕ) (before after : Watch) : Type 0 where
  pub in_module : after.control.output.device.volume ≡ pos m
  pub in_service : atoi (after.control.service.values 6) ≡ pos m
  pub to_board :
      (taken : Bool) × (after.control.output.device.sent
        ≡ (to_player cmd_set_volume (pos m) [], taken) ∷ before.control.output.device.sent)
  pub unmuted : after.control.output.device.mute ≡ pos 0
  pub mute_kept : after.control.service.values 5 ≡ before.control.service.values 5

nearest-id : (m : ℕ) → m ≤ 100 → nearest (pos m) ≡ m
nearest-id m h = ground (arith, h)

module _ ⦃ipc : Ipc⦄ where
  set_volume-posts :
      (m : ℕ) (s : Silan)
      → (set_volume (pos m) s).1
        ≡ posted (to_player cmd_set_volume (pos m) []) (record s { mute = pos 0; volume = pos m })
  unfolding set_volume answer_bit
  set_volume-posts m s =
      ap (λ (r : ℤ × Silan). r.1)
        (send_cmd-posts cmd_set_volume (pos m) none (record s { mute = pos 0; volume = pos m }) refl
          tt)

  served :
      (begin : Silan → ℤ × Silan) (m : ℕ) (o : Output Silan)
      → o.output_module ≡ some (silan_output begin)
      → (output_set_volume (pos m) o).1.device ≡ (set_volume (pos m) o.device).1
  unfolding output_set_volume silan_output
  served begin m o e = rw e refl

  volume_change-stores :
      ⦃x : Ixml⦄ (begin : Silan → ℤ × Silan) (dir : ℤ) (m : ℕ) (w : Watch)
      → IsRunning begin w
      → changed_volume dir w.control.output.device.volume ≡ pos m
      → m ≤ 100
      → (t : Watch) × (volume_change dir w.control >>= put_control w ≡ done t) × HasVolume m w t
  unfolding volume_change
  volume_change-stores begin dir m w r h le =
      let c = with_device (λ s. record s { volume = pos m }) w.control in
      let (text, t, e, shows, reads, _) = set_volume-stores (pos m) c 0 r.values r.shows in
      let output = (output_set_volume (pos (nearest (pos m))) c.output).1 in
      let device : output.device
          ≡ posted (to_player cmd_set_volume (pos m) [])
              (record c.output.device { mute = pos 0; volume = pos m }) =
        rw (nearest-id m le)
          (served begin m c.output r.selected ∙ set_volume-posts m c.output.device) in
      (
        record w { control = record { service = t; output = output } },
        rw (h, e) refl,
        record {
          in_module = ap (λ (s : Silan). s.volume) device;
          in_service =
              ap atoi (shows.shown_values 6 (omega arith))
              ∙ reads
              ∙ ap (λ n. pos n) (nearest-id m le);
          to_board = (_, ap (λ (s : Silan). s.sent) device);
          unmuted = ap (λ (s : Silan). s.mute) device;
          mute_kept =
              shows.shown_values 5 (omega arith) ∙ sym (r.shows.shown_values 5 (omega arith));
        },
      )

  -- With the program running and a volume below 100, the key for more volume comes back with one that
  -- is higher and not above 100, for the module, the player and the service alike.
  pub volume_up-HasVolume :
      ⦃x : Ixml⦄ (begin : Silan → ℤ × Silan) (n : ℕ) (w : Watch)
      → IsRunning begin w
      → w.control.output.device.volume ≡ pos n
      → n < 100
      → (m : ℕ) × (n < m)
        × (m ≤ 100)
        × (t : Watch) × (press key_volume_up w ≡ done t)
        × HasVolume m w t
  unfolding press
  volume_up-HasVolume begin n w r e lt =
      let (m, changed, more, le) = volume-up n lt in
      let (t, runs, v) =
        volume_change-stores begin (pos 1) m w r (ap (changed_volume (pos 1)) e ∙ changed) le in
      let below : ltb_ℤ (pos n) (pos 100) ≡ true = ground (arith, lt) in
      (m, more, le, t, rw (ap (λ v. ltb_ℤ v (pos 100)) e ∙ below) runs, v)

  -- With the program running and a volume of 1 to 100, the key for less volume comes back with one
  -- that is lower, for the module, the player and the service alike.
  pub volume_down-HasVolume :
      ⦃x : Ixml⦄ (begin : Silan → ℤ × Silan) (n : ℕ) (w : Watch)
      → IsRunning begin w
      → w.control.output.device.volume ≡ pos n
      → 0 < n
      → n ≤ 100
      → (m : ℕ) × (m < n) × (t : Watch) × (press key_volume_down w ≡ done t) × HasVolume m w t
  unfolding press
  volume_down-HasVolume begin n w r e some_volume le =
      let (m, changed, less) = volume-down n some_volume le in
      let (t, runs, v) =
        volume_change-stores begin minus_one m w r (ap (changed_volume minus_one) e ∙ changed)
          (omega (arith, less, le)) in
      let above : ltb_ℤ (pos 0) (pos n) ≡ true = ground (arith, some_volume) in
      (m, less, t, rw (ap (λ v. ltb_ℤ (pos 0) v) e ∙ above) runs, v)
