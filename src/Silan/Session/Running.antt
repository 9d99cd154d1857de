-- ===== src/Silan/Session/Running.antt =====
-- What the calls, messages and rounds around src/output_silan.c keep.
use gmrender_resurrect_silan.Base.{
  ℕ, ◌≡◌, refl, sym, ap, subst, Bool, true, false, ◌&&◌, Option, none, some, List, [], ◌∷◌, Text,
  ◌==◌, if◌then◌else◌,
}
use gmrender_resurrect_silan.Base.Int.{ℤ, pos, minus_one, eq_ℤ, ltb_ℤ, is_zero}
use gmrender_resurrect_silan.Base.Outcome.{Outcome, Ends, done, ◌>>=◌}
use gmrender_resurrect_silan.Xml.{Ixml}
use gmrender_resurrect_silan.Variables.View.{Shows}
use gmrender_resurrect_silan.Output.{Output, play_stopped, output_set_volume, output_set_mute}
use gmrender_resurrect_silan.Control.{control_variable_names, upnp_control_set_mute}
use gmrender_resurrect_silan.Control.Refine.{set_volume-stores, set_mute-stores, nearest, muted_as}
use gmrender_resurrect_silan.Silan.Model.{Silan, Ipc, tell}
use gmrender_resurrect_silan.Silan.Commands.{recv_cmd}
use gmrender_resurrect_silan.Silan.Player.{set_spdifin, silan_output}
use gmrender_resurrect_silan.Silan.Watch.{
  InputEvent, ev_key, key_mute, key_volume_down, key_volume_up, key_radio, changed_volume,
  with_device, Watch, board, put_control, volume_change, press, on_second, loop_round,
}
use gmrender_resurrect_silan.Silan.Refine.Safe.{IsSafe, tell-IsSafe, recv_cmd-IsSafe}
use gmrender_resurrect_silan.Silan.Refine.Player.{
  set_uri-IsSafe, set_next_uri-IsSafe, set_spdifin-IsSafe, play-IsSafe, get_position-IsSafe,
  set_volume-IsSafe, set_mute-IsSafe, pause-IsSafe, stop-IsSafe, seek-IsSafe,
}
use gmrender_resurrect_silan.Silan.Refine.Watch.{tick-IsSafe}
use gmrender_resurrect_silan.Variables.Model.{update}
use gmrender_resurrect_silan.Silan.Session.{
  call_set_uri, call_set_next_uri, call_play, call_pause, call_stop, call_seek,
  call_set_transport_callback, call_get_position, call_get_volume, call_set_volume, call_get_mute,
  call_set_mute, called, received, woken, Call, serve, Input, CallFits, InputFits, AllFit, input,
  inputs,
}

-- The module is selected, its state is safe, and the RenderingControl service is at rest.
pub record IsRunning ⦃ipc : Ipc⦄ (begin : Silan → ℤ × Silan) (w : Watch) : Type 0 where
  pub selected : w.control.output.output_module ≡ some (silan_output begin)
  pub safe : IsSafe w.control.output.device
  pub values : ℕ → Text
  pub shows : Shows 0 8 control_variable_names false 0 w.control.service values

module _ ⦃ipc : Ipc⦄ (begin : Silan → ℤ × Silan) where
  abbrev pub on_silan : Silan → Output Silan
  on_silan d = record { output_module = some (silan_output begin); device = d }

  -- Safe, with the module selected still.
  abbrev pub IsServed : Output Silan → Type 0
  IsServed o = (o.output_module ≡ some (silan_output begin)) × IsSafe o.device

  serve-on_silan : (c : Call) (d : Silan) → CallFits c → IsSafe d → IsServed (serve c (on_silan d))
  unfolding serve silan_output
  serve-on_silan (call_set_uri uri) d h v = (refl, set_uri-IsSafe uri d h v)
  serve-on_silan (call_set_next_uri uri) d h v = (refl, set_next_uri-IsSafe uri d h v)
  serve-on_silan call_play d h v = (refl, play-IsSafe d v)
  serve-on_silan call_pause d h v = (refl, pause-IsSafe d v)
  serve-on_silan call_stop d h v = (refl, stop-IsSafe d v)
  serve-on_silan (call_seek position) d h v = (refl, seek-IsSafe position d v)
  serve-on_silan call_set_transport_callback d h v = (refl, v)
  serve-on_silan call_get_position d h v = (refl, get_position-IsSafe d v)
  serve-on_silan (call_get_volume value) d h v = (refl, v)
  serve-on_silan (call_set_volume value) d h v = (refl, set_volume-IsSafe value d v)
  serve-on_silan (call_get_mute value) d h v = (refl, v)
  serve-on_silan (call_set_mute value) d h v = (refl, set_mute-IsSafe value d v)

  pub serve-IsServed :
      (c : Call) (o : Output Silan) → CallFits c → IsServed o → IsServed (serve c o)
  serve-IsServed c o h (e, v) =
      let whole : on_silan o.device ≡ o = ap (λ m. record o { output_module = m }) (sym e) in
      subst (λ p. IsServed (serve c p)) whole (serve-on_silan c o.device h v)

  -- The keys of the service, on a control whose module is selected.
  volume_change-runs :
      ⦃x : Ixml⦄ (dir : ℤ) (w : Watch)
      → IsRunning begin w
      → Ends (IsRunning begin) (volume_change dir w.control >>= put_control w)
  unfolding volume_change serve
  volume_change-runs dir w r =
      let volume = changed_volume dir w.control.output.device.volume in
      let c = with_device (λ s. record s { volume = volume }) w.control in
      let (text, t, e, shows, _, _) = set_volume-stores volume c 0 r.values r.shows in
      let served =
        serve-IsServed (call_set_volume (pos (nearest volume))) c.output tt (r.selected, r.safe) in
      (
        record w {
          control = record {
            service = t;
            output = (output_set_volume (pos (nearest volume)) c.output).1;
          };
        },
        rw e refl,
        record {
          selected = served.0;
          safe = served.1;
          values = update r.values 6 text;
          shows = shows;
        },
      )

  set_mute-runs :
      ⦃x : Ixml⦄ (value : ℤ) (w : Watch)
      → IsRunning begin w
      → Ends (IsRunning begin) (upnp_control_set_mute value w.control >>= put_control w)
  unfolding serve
  set_mute-runs value w r =
      let (t, e, shows) = set_mute-stores value w.control 0 r.values r.shows in
      let served = serve-IsServed (call_set_mute value) w.control.output tt (r.selected, r.safe) in
      (
        record w {
          control = record { service = t; output = (output_set_mute value w.control.output).1 };
        },
        rw e refl,
        record {
          selected = served.0;
          safe = served.1;
          values = update r.values 5 (muted_as value);
          shows = shows;
        },
      )

  -- A change of the device alone.
  device-runs :
      (f : Silan → Silan) (w : Watch)
      → IsSafe (f w.control.output.device)
      → IsRunning begin w
      → IsRunning begin (record w { control = with_device f w.control })
  device-runs f w v r = record {
    selected = r.selected;
    safe = v;
    values = r.values;
    shows = r.shows;
  }

  -- A choice between two ways on.
  if-Ends :
      (c : Bool) (a b : Outcome Watch)
      → Ends (IsRunning begin) a
      → Ends (IsRunning begin) b
      → Ends (IsRunning begin) (if c then a else b)
  if-Ends true a b v w = v
  if-Ends false a b v w = w

  press-runs :
      ⦃x : Ixml⦄ (code : ℕ) (w : Watch) → IsRunning begin w → Ends (IsRunning begin) (press code w)
  unfolding press
  press-runs code w r =
      let stays : Ends (IsRunning begin) (done w) = (w, refl, r) in
      let s = w.control.output.device in
      if-Ends (code == key_radio) _ _
        (
          _,
          refl,
          device-runs (λ s. tell play_stopped (set_spdifin s)) w
              (tell-IsSafe play_stopped (set_spdifin s) (set_spdifin-IsSafe s r.safe)) r,
        )
        (if-Ends (code == key_volume_up) _ _
          (if-Ends (ltb_ℤ s.volume (pos 100)) _ _ (volume_change-runs (pos 1) w r) stays)
          (if-Ends (code == key_volume_down) _ _
            (if-Ends (ltb_ℤ (pos 0) s.volume) _ _ (volume_change-runs minus_one w r) stays)
            (if-Ends (code == key_mute) _ _
              (set_mute-runs (if is_zero s.mute then pos 1 else pos 0) w r) stays)))

  on_second-runs :
      ⦃x : Ixml⦄ (lock : Option ℤ) (w : Watch)
      → IsRunning begin w
      → Ends (IsRunning begin) (on_second lock w)
  on_second-runs lock w r = (
    _,
    refl,
    record {
      selected = r.selected;
      safe = tick-IsSafe lock (board w) r.safe;
      values = r.values;
      shows = r.shows;
    },
  )

  on_event-runs :
      ⦃x : Ixml⦄ (lock : Option ℤ) (event : Option InputEvent) (w : Watch)
      → IsRunning begin w
      → Ends (IsRunning begin) (loop_round (record { event = event; lock = lock }) w)
  unfolding loop_round
  on_event-runs lock none w r = on_second-runs lock w r
  on_event-runs lock (some ev) w r =
      if-Ends (ltb_ℤ w.control.output.device.input_fd (pos 0)) _ _ (on_second-runs lock w r) (
        if-Ends ((ev.ev_type == ev_key) && eq_ℤ ev.ev_value (pos 1)) _ _ (press-runs ev.ev_code w r)
          (w, refl, r))

  input-runs :
      ⦃x : Ixml⦄ (i : Input) (w : Watch)
      → InputFits i
      → IsRunning begin w
      → Ends (IsRunning begin) (input i w)
  unfolding input
  input-runs (called c) w h r =
      let served = serve-IsServed c w.control.output h (r.selected, r.safe) in
      (_, refl, record { selected = served.0; safe = served.1; values = r.values; shows = r.shows })
  input-runs (received m) w h r =
      (_, refl, device-runs (recv_cmd m) w (recv_cmd-IsSafe m w.control.output.device r.safe) r)
  input-runs (woken round) w h r = on_event-runs round.lock round.event w r

  -- With the module selected, its state safe and the RenderingControl service at rest, any sequence of
  -- calls through the output layer, messages from the player and rounds of the loop comes back, if no
  -- URI that is set has 1024 characters or more; and then all this holds again. Safe means: nothing
  -- was copied behind the end of a message, the pins of the amplifier follow its status bits, it is
  -- muted whenever it is off, and it was muted each time its power was switched.
  pub inputs-IsRunning :
      ⦃x : Ixml⦄ (is : List Input) (w : Watch)
      → AllFit is
      → IsRunning begin w
      → Ends (IsRunning begin) (inputs is w)
  unfolding inputs AllFit
  inputs-IsRunning [] w h r = (w, refl, r)
  inputs-IsRunning (i ∷ is) w (h, hs) r =
      let (next, e, n) = input-runs i w h r in
      let (final, f, v) = inputs-IsRunning is next hs n in (final, rw e f, v)
