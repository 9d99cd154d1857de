-- ===== src/Silan/Player.antt =====
-- The functions of `silan_output` of src/output_silan.c.
use gmrender_resurrect_silan.Base.{true, Option, none, some, [], ◌∷◌, Text, codes, if◌then◌else◌}
use gmrender_resurrect_silan.Base.Int.{ℤ, pos, minus_one, eq_ℤ, is_zero}
use gmrender_resurrect_silan.Variables.Mask.{set_bit, clear_bit}
use gmrender_resurrect_silan.Output.{OutputModule}
use gmrender_resurrect_silan.Silan.Model.{
  Silan, Ipc, status_spdifin, cmd_play_uri, cmd_mute, cmd_set_volume, cmd_pause, cmd_stop,
  cmd_get_time_pos, cmd_seek, cmd_spdif_in, cmd_set_pad_mux, slmp_state_pause, has, differ,
}
use gmrender_resurrect_silan.Silan.Commands.{send_cmd}

-- `(uri && *uri) ? strdup(uri) : NULL`
abbrev pub kept_uri : Option Text → Option Text
kept_uri none = none
kept_uri (some []) = none
kept_uri (some (a ∷ t)) = some (a ∷ t)

-- output_silan_set_uri
unfoldable pub set_uri : Option Text → Silan → Silan
set_uri uri s = record s { uri = kept_uri uri }

-- output_silan_set_next_uri
unfoldable pub set_next_uri : Option Text → Silan → Silan
set_next_uri uri s = record s { uri_next = kept_uri uri }

-- output_silan_set_transport_callback
unfoldable pub set_transport_callback : Silan → Silan
set_transport_callback s = record s { trans_callback = true }

-- output_silan_get_volume
unfoldable pub get_volume : Silan → (ℤ × ℤ) × Silan
get_volume s = ((pos 0, s.volume), s)

-- output_silan_get_mute
unfoldable pub get_mute : Silan → (ℤ × ℤ) × Silan
get_mute s = ((pos 0, s.mute), s)

module _ ⦃ipc : Ipc⦄ where
  -- output_silan_set_spdifin
  unfoldable pub set_spdifin : Silan → Silan
  unfolding send_cmd
  set_spdifin s =
      if has s status_spdifin
      then s
      else (let s = record s { status = set_bit s.status status_spdifin } in
          let (_, s) = send_cmd cmd_set_pad_mux s.padmux none s in
          let (_, s) = send_cmd cmd_spdif_in (pos 0) none s in s)

  -- output_silan_play with a URI that is set
  unfoldable pub play_uri : Text → Silan → ℤ × Silan
  unfolding send_cmd
  play_uri uri s =
      let s = record s {
        status = clear_bit s.status status_spdifin;
        duration = pos 0;
        position = pos 0;
      } in
      let (res, s) = send_cmd cmd_play_uri (pos 0) (some uri) s in (res, record s { uri = none })

  -- output_silan_play without one
  unfoldable pub play_on : Silan → ℤ × Silan
  unfolding send_cmd
  play_on s =
      if eq_ℤ s.state slmp_state_pause then send_cmd cmd_pause (pos 0) none s else (minus_one, s)

  abbrev pub play_with : Option Text → Silan → ℤ × Silan
  play_with (some uri) s = play_uri uri s
  play_with none s = play_on s

  -- output_silan_play
  unfoldable pub play : Silan → ℤ × Silan
  unfolding play_uri play_on
  play s = play_with s.uri s

  -- output_silan_stop
  unfoldable pub stop : Silan → ℤ × Silan
  unfolding send_cmd
  stop s = send_cmd cmd_stop (pos 0) none s

  -- output_silan_pause
  unfoldable pub pause : Silan → ℤ × Silan
  unfolding send_cmd
  pause s = send_cmd cmd_pause (pos 0) none s

  -- output_silan_seek
  unfoldable pub seek : ℤ → Silan → ℤ × Silan
  unfolding send_cmd
  seek position s = send_cmd cmd_seek position none s

  -- output_silan_get_position
  unfoldable pub get_position : Silan → (ℤ × ℤ × ℤ) × Silan
  unfolding send_cmd
  get_position s =
      let (_, s) = send_cmd cmd_get_time_pos (pos 0) none s in ((pos 0, s.duration, s.position), s)

  -- output_silan_set_volume
  unfoldable pub set_volume : ℤ → Silan → ℤ × Silan
  unfolding send_cmd
  set_volume v s = send_cmd cmd_set_volume v none (record s { mute = pos 0; volume = v })

  -- output_silan_set_mute
  unfoldable pub set_mute : ℤ → Silan → ℤ × Silan
  unfolding send_cmd
  set_mute m s =
      let (res, s) =
        (if differ (is_zero m) (is_zero s.mute) then send_cmd cmd_mute m none s else (pos 0, s)) in
      (res, record s { mute = m })

  -- silan_output, with the function that starts it
  unfoldable pub silan_output : (Silan → ℤ × Silan) → OutputModule Silan
  unfolding set_uri set_next_uri play stop pause seek set_transport_callback get_position get_volume
      set_volume get_mute set_mute
  silan_output start = record {
    shortname = codes "slmp";
    description = codes "silan multimedia framework";
    init = some start;
    set_uri = some set_uri;
    set_next_uri = some set_next_uri;
    play = some play;
    stop = some stop;
    pause = some pause;
    seek = some seek;
    set_transport_callback = some set_transport_callback;
    get_position = some get_position;
    get_volume = some get_volume;
    set_volume = some set_volume;
    get_mute = some get_mute;
    set_mute = some set_mute;
  }
