-- ===== src/Silan/Watch.antt =====
-- output_silan_loop of src/output_silan.c: the keys of the remote control, and once a second the
-- automatics of the amplifier.
use gmrender_resurrect_silan.Base.{
  ℕ, suc, ◌+◌, ◌*◌, Bool, true, false, not, ◌&&◌, Option, none, some, List, [], ◌∷◌, ltb, ◌==◌,
  if◌then◌else◌,
}
use gmrender_resurrect_silan.Base.Int.{ℤ, pos, negsuc, minus_one, sub_ℕ, ◌+ℤ◌, eq_ℤ, ltb_ℤ, is_zero}
use gmrender_resurrect_silan.Base.Outcome.{Outcome, done, ◌>>=◌}
use gmrender_resurrect_silan.Xml.{Ixml}
use gmrender_resurrect_silan.Output.{play_stopped}
use gmrender_resurrect_silan.Control.{Control, upnp_control_set_mute, upnp_control_set_volume}
use gmrender_resurrect_silan.Silan.Model.{
  Silan, Ipc, status_spdifin, status_amp_mute, status_amp_power, slmp_state_play, tell, has,
  set_amp_mute, set_amp_power,
}
use gmrender_resurrect_silan.Silan.Player.{set_spdifin}

-- SILAN_AUTO_POWER_OFF
abbrev pub auto_power_off : ℕ
auto_power_off = 300

-- SILAN_AUTO_SPDIFIN
abbrev pub auto_spdifin : ℕ
auto_spdifin = 120

-- SILAN_AMP_UNMUTE
abbrev pub amp_unmute : ℕ
amp_unmute = 3

-- The module's state and the counters of the loop.
pub record Board : Type 0 where
  pub silan : Silan
  pub cnt_stop : ℕ
  pub cnt_unlock : ℕ
  pub cnt_mute : ℕ

-- The amplifier is switched on, if it is off.
abbrev pub power_on : Board → Board
power_on b =
    if has b.silan status_amp_power
    then b
    else record b { cnt_mute = 0; silan = set_amp_power true b.silan }

abbrev pub power_off : Board → Board
power_off b =
    if has b.silan status_amp_power then record b { silan = set_amp_power false b.silan } else b

-- `!output_silan_spdifin_info(&info) && info.lock`, of what could be read
abbrev pub is_locked : Option ℤ → Bool
is_locked none = false
is_locked (some lock) = not (is_zero lock)

-- A second with the input from the SPDIF.
unfoldable pub tick_spdifin : Option ℤ → Board → Board
unfolding set_amp_power
tick_spdifin lock b =
    if is_locked lock
    then power_on (record b { cnt_unlock = 0 })
    else if ltb b.cnt_unlock auto_power_off
    then record b { cnt_unlock = b.cnt_unlock + 1 }
    else if b.cnt_unlock == auto_power_off
    then power_off (record b { cnt_unlock = b.cnt_unlock + 1 })
    else b

-- The amplifier is heard again some seconds after it was switched on.
unfoldable pub unmute : Board → Board
unfolding set_amp_mute
unmute b =
    if has b.silan status_amp_power && has b.silan status_amp_mute
    then (if ltb b.cnt_mute amp_unmute
        then record b { cnt_mute = b.cnt_mute + 1 }
        else if b.cnt_mute == amp_unmute
        then record b { cnt_mute = b.cnt_mute + 1; silan = set_amp_mute false b.silan }
        else b)
    else b

-- `struct input_event`
pub record InputEvent : Type 0 where
  pub ev_type : ℕ
  pub ev_code : ℕ
  pub ev_value : ℤ

-- What a round of the loop finds: an event that could be read, and the lock that could be read.
pub record Round : Type 0 where
  pub event : Option InputEvent
  pub lock : Option ℤ

-- EV_KEY and KEY_* of linux/input.h
abbrev pub ev_key : ℕ
ev_key = 1

abbrev pub key_mute : ℕ
key_mute = 113

abbrev pub key_volume_down : ℕ
key_volume_down = 114

abbrev pub key_volume_up : ℕ
key_volume_up = 115

abbrev pub key_radio : ℕ
key_radio = 385

abbrev pub times : ℤ → ℕ → ℤ
times (pos n) k = pos (n * k)
times (negsuc n) k = sub_ℕ 0 (suc n * k)

-- The volume that output_silan_volume_change sets.
unfoldable pub changed_volume : ℤ → ℤ → ℤ
changed_volume dir volume =
    let dir =
      (if ltb_ℤ (pos 50) volume
        then times dir 5
        else if ltb_ℤ (pos 20) volume
        then times dir 4
        else if ltb_ℤ (pos 10) volume
        then times dir 2
        else dir) in
    let volume = volume +ℤ dir in
    let volume = if ltb_ℤ volume (pos 0) then pos 0 else volume in
    if ltb_ℤ (pos 100) volume then pos 100 else volume

abbrev pub with_device : (Silan → Silan) → Control Silan → Control Silan
with_device f c = record c { output = record c.output { device = f c.output.device } }

-- The loop's counters beside the service that the keys act on.
pub record Watch : Type 0 where
  pub control : Control Silan
  pub stop_count : ℕ
  pub unlock_count : ℕ
  pub mute_count : ℕ

abbrev pub board : Watch → Board
board w = record {
  silan = w.control.output.device;
  cnt_stop = w.stop_count;
  cnt_unlock = w.unlock_count;
  cnt_mute = w.mute_count;
}

abbrev pub put_board : Board → Watch → Watch
put_board b w = record {
  control = with_device (λ _. b.silan) w.control;
  stop_count = b.cnt_stop;
  unlock_count = b.cnt_unlock;
  mute_count = b.cnt_mute;
}

abbrev pub put_control : Watch → ℤ × Control Silan → Outcome Watch
put_control w r = done (record w { control = r.1 })

module _ ⦃ipc : Ipc⦄ where
  -- A second with the input from the player.
  unfoldable pub tick_player : Board → Board
  unfolding set_amp_power set_spdifin
  tick_player b =
      if eq_ℤ b.silan.state slmp_state_play
      then power_on (record b { cnt_stop = 0 })
      else if ltb b.cnt_stop auto_spdifin
      then record b { cnt_stop = b.cnt_stop + 1 }
      else if b.cnt_stop == auto_spdifin
      then record b { cnt_stop = b.cnt_stop + 1; silan = set_spdifin b.silan }
      else b

  -- A round of the loop without an event.
  unfoldable pub tick : Option ℤ → Board → Board
  unfolding tick_spdifin tick_player unmute
  tick lock b = unmute (if has b.silan status_spdifin then tick_spdifin lock b else tick_player b)

  -- Such rounds one after the other, by what is read of the lock.
  unfoldable pub ticks : List (Option ℤ) → Board → Board
  unfolding tick
  ticks [] b = b
  ticks (lock ∷ locks) b = ticks locks (tick lock b)

  module _ ⦃x : Ixml⦄ where
    -- output_silan_volume_change
    unfoldable pub volume_change : ℤ → Control Silan → Outcome (ℤ × Control Silan)
    unfolding changed_volume upnp_control_set_volume
    volume_change dir c =
        let volume = changed_volume dir c.output.device.volume in
        upnp_control_set_volume volume (with_device (λ s. record s { volume = volume }) c)

    -- A key that is pressed.
    unfoldable pub press : ℕ → Watch → Outcome Watch
    unfolding set_spdifin volume_change upnp_control_set_mute
    press code w =
        let volume = w.control.output.device.volume in
        if code == key_radio
        then done
            (record w { control = with_device (λ s. tell play_stopped (set_spdifin s)) w.control })
        else if code == key_volume_up
        then (if ltb_ℤ volume (pos 100)
            then volume_change (pos 1) w.control >>= put_control w
            else done w)
        else if code == key_volume_down
        then (if ltb_ℤ (pos 0) volume
            then volume_change minus_one w.control >>= put_control w
            else done w)
        else if code == key_mute
        then upnp_control_set_mute (if is_zero w.control.output.device.mute then pos 1 else pos 0)
            w.control
          >>= put_control w
        else done w

    abbrev pub on_event : InputEvent → Watch → Outcome Watch
    on_event ev w =
        if (ev.ev_type == ev_key) && eq_ℤ ev.ev_value (pos 1) then press ev.ev_code w else done w

    abbrev pub on_second : Option ℤ → Watch → Outcome Watch
    on_second lock w = done (put_board (tick lock (board w)) w)

    -- A round of output_silan_loop; there are events only if the input could be opened.
    unfoldable pub loop_round : Round → Watch → Outcome Watch
    unfolding press tick
    loop_round round w = elim round.event [
      | none ↦ on_second round.lock w
      | some ev ↦
          if ltb_ℤ w.control.output.device.input_fd (pos 0)
          then on_second round.lock w
          else on_event ev w
    ]
