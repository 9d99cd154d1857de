-- ===== src/Silan/Refine/Player.antt =====
-- The functions of the module on a state that is safe.
use gmrender_resurrect_silan.Base.{
  ℕ, true, false, Option, none, some, [], ◌∷◌, Text, Bool-cases, inl, inr, arith,
}
use gmrender_resurrect_silan.Base.Int.{ℤ, pos, eq_ℤ, is_zero}
use gmrender_resurrect_silan.Variables.Mask.{set_bit, clear_bit}
use gmrender_resurrect_silan.Silan.Model.{
  cmd_stop, cmd_seek, Silan, Ipc, status_spdifin, cmd_play_uri, cmd_mute, cmd_set_volume, cmd_pause,
  cmd_get_time_pos, cmd_spdif_in, cmd_set_pad_mux, slmp_state_pause, has, differ,
}
use gmrender_resurrect_silan.Silan.Commands.{send_cmd}
use gmrender_resurrect_silan.Silan.Player.{
  pause, stop, seek, play_with, kept_uri, set_uri, set_next_uri, set_spdifin, play_uri, play_on,
  play, get_position, set_volume, set_mute,
}
use gmrender_resurrect_silan.Silan.Refine.Safe.{
  Fits, IsSafe, with_uri, put_bit-IsSafe, send_cmd-IsSafe,
}

kept_uri-Fits : (uri : Option Text) → Fits uri → Fits (kept_uri uri)
kept_uri-Fits none h = tt
kept_uri-Fits (some []) h = tt
kept_uri-Fits (some (a ∷ t)) h = h

pub set_uri-IsSafe : (uri : Option Text) (s : Silan) → Fits uri → IsSafe s → IsSafe (set_uri uri s)
unfolding set_uri
set_uri-IsSafe uri s h v = with_uri (kept_uri-Fits uri h) v.uri_next_Fits v

pub set_next_uri-IsSafe :
    (uri : Option Text) (s : Silan) → Fits uri → IsSafe s → IsSafe (set_next_uri uri s)
unfolding set_next_uri
set_next_uri-IsSafe uri s h v = with_uri v.uri_Fits (kept_uri-Fits uri h) v

module _ ⦃ipc : Ipc⦄ where
  -- A command without a text.
  pub plain-IsSafe :
      (cmd : ℕ) (param : ℤ) (s : Silan) → IsSafe s → IsSafe (send_cmd cmd param none s).1
  plain-IsSafe cmd param s v = send_cmd-IsSafe cmd param none s tt v

  pub set_spdifin-IsSafe : (s : Silan) → IsSafe s → IsSafe (set_spdifin s)
  unfolding set_spdifin
  set_spdifin-IsSafe s v = elim (Bool-cases (has s status_spdifin)) [
    | inl e ↦ rw e v
    | inr e ↦
        let t : Silan = record s { status = set_bit s.status status_spdifin } in
        let u = (send_cmd cmd_set_pad_mux t.padmux none t).1 in
        rw e (
          plain-IsSafe cmd_spdif_in (pos 0) u (
            plain-IsSafe cmd_set_pad_mux t.padmux t
              (put_bit-IsSafe true status_spdifin s (omega arith) v)))
  ]

  play_uri-IsSafe :
      (uri : Text) (s : Silan) → Fits (some uri) → IsSafe s → IsSafe (play_uri uri s).1
  unfolding play_uri
  play_uri-IsSafe uri s h v =
      let t : Silan = record s {
        status = clear_bit s.status status_spdifin;
        duration = pos 0;
        position = pos 0;
      } in
      let w =
        send_cmd-IsSafe cmd_play_uri (pos 0) (some uri) t h
          (put_bit-IsSafe false status_spdifin s (omega arith) v) in
      with_uri tt w.uri_next_Fits w

  play_on-IsSafe : (s : Silan) → IsSafe s → IsSafe (play_on s).1
  unfolding play_on
  play_on-IsSafe s v = elim (Bool-cases (eq_ℤ s.state slmp_state_pause)) [
    | inl e ↦ rw e (plain-IsSafe cmd_pause (pos 0) s v)
    | inr e ↦ rw e v
  ]

  play_with-IsSafe :
      (uri : Option Text) (s : Silan) → Fits uri → IsSafe s → IsSafe (play_with uri s).1
  play_with-IsSafe none s h v = play_on-IsSafe s v
  play_with-IsSafe (some uri) s h v = play_uri-IsSafe uri s h v

  pub play-IsSafe : (s : Silan) → IsSafe s → IsSafe (play s).1
  unfolding play
  play-IsSafe s v = play_with-IsSafe s.uri s v.uri_Fits v

  pub get_position-IsSafe : (s : Silan) → IsSafe s → IsSafe (get_position s).1
  unfolding get_position
  get_position-IsSafe s v = plain-IsSafe cmd_get_time_pos (pos 0) s v

  pub set_volume-IsSafe : (volume : ℤ) (s : Silan) → IsSafe s → IsSafe (set_volume volume s).1
  unfolding set_volume
  set_volume-IsSafe volume s v =
      plain-IsSafe cmd_set_volume volume (record s { mute = pos 0; volume = volume }) v

  pub set_mute-IsSafe : (m : ℤ) (s : Silan) → IsSafe s → IsSafe (set_mute m s).1
  unfolding set_mute
  set_mute-IsSafe m s v = elim (Bool-cases (differ (is_zero m) (is_zero s.mute))) [
    | inl e ↦ rw e (plain-IsSafe cmd_mute m s v)
    | inr e ↦ rw e v
  ]

  pub pause-IsSafe : (s : Silan) → IsSafe s → IsSafe (pause s).1
  unfolding pause
  pause-IsSafe s v = plain-IsSafe cmd_pause (pos 0) s v

  pub stop-IsSafe : (s : Silan) → IsSafe s → IsSafe (stop s).1
  unfolding stop
  stop-IsSafe s v = plain-IsSafe cmd_stop (pos 0) s v

  pub seek-IsSafe : (position : ℤ) (s : Silan) → IsSafe s → IsSafe (seek position s).1
  unfolding seek
  seek-IsSafe position s v = plain-IsSafe cmd_seek position s v
