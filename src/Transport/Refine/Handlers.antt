-- ===== src/Transport/Refine/Handlers.antt =====
-- The handlers stop, play and pause_stream of src/upnp_transport.c against their effects on a Player.
use gmrender_resurrect_silan.Base.{
  ℕ, ◌+◌, refl, Bool, true, some, Text, codes, Bool-cases, inl, inr,
}
use gmrender_resurrect_silan.Base.Int.{ℤ, is_zero}
use gmrender_resurrect_silan.Xml.{Ixml}
use gmrender_resurrect_silan.Action.{Upnp}
use gmrender_resurrect_silan.Output.{output_play, output_stop, output_pause}
use gmrender_resurrect_silan.Transport.Table.{transport_variable_names, zero_time}
use gmrender_resurrect_silan.Transport.Model.{
  Context, TransportState, stopped, playing, paused_playback, no_media_present,
}
use gmrender_resurrect_silan.Transport.Actions.{
  not_allowed, stop_in, stop, played, start_playing, play_in, play, paused, pause_in, pause_stream,
}
use gmrender_resurrect_silan.Transport.Player.{
  Player, with_output, refuse, stop_effect, playing_effect, play_effect, pausing_effect,
  pause_effect, Action, body_effect, effect,
}
use gmrender_resurrect_silan.Transport.Simulation.{
  is_open, Sim, Runs, runs-bind, return-runs, replace_var-runs, get_state-runs, get_var-runs,
  on_output-runs, raise-runs, service_lock-runs, service_unlock-runs,
}
use gmrender_resurrect_silan.Transport.Refine.Instance.{Refines, with_instanceid-runs}
use gmrender_resurrect_silan.Transport.Refine.Effects.{put_current-runs, enter-runs}

module _ {S : Type 0} ⦃u : Upnp⦄ ⦃x : Ixml⦄ where
  not_allowed-runs :
      (h : Bool) (n : ℕ) (transition : Text) (ctx : Context S) (p : Player S)
      → Sim h n ctx p
      → Runs h n (not_allowed transition) ctx tt (refuse transition p)
  unfolding not_allowed is_open transport_variable_names
  not_allowed-runs h n transition ctx p v =
      runs-bind _ (get_var-runs h n 16 ctx p refl v) λ c w. raise-runs h n _ _ c p w

  -- The cases of stop.
  stop_in-runs :
      (h : Bool) (n : ℕ) (st : TransportState) (ctx : Context S) (p : Player S)
      → Sim h n ctx p
      → Runs h n (stop_in st) ctx tt (stop_effect st p)
  unfolding stop_in stop_effect
  stop_in-runs h n stopped ctx p v = return-runs v
  stop_in-runs h n no_media_present ctx p v = not_allowed-runs h n (codes "STOP") ctx p v
  stop_in-runs h n _ ctx p v =
      runs-bind _ (on_output-runs h n output_stop ctx p v) λ c w. enter-runs h n stopped c _ refl w

  pub stop-runs : Refines S stop (effect Action.stop)
  unfolding stop effect body_effect
  stop-runs n ctx p v =
      with_instanceid-runs n _ _ ctx p
        (λ c q w. runs-bind _ (service_lock-runs n c q w) λ c w.
          runs-bind _ (get_state-runs true (n + 1) c q w) λ c w.
            runs-bind _ (stop_in-runs true (n + 1) q.state c q w)
              λ c w. runs-bind _ (service_unlock-runs n c _ w) λ c w. return-runs w)
        v

  -- The answer of the output to play.
  played-runs :
      (h : Bool) (n : ℕ) (rc : ℤ) (ctx : Context S) (p : Player S)
      → Sim h n ctx p
      → Runs h n (played rc) ctx (playing_effect (rc, p)).0 (playing_effect (rc, p)).1
  unfolding played is_open transport_variable_names
  played-runs h n rc ctx p v = elim (Bool-cases (is_zero rc)) [
    | inl yes' ↦ rw yes' (
        runs-bind _ (enter-runs h n playing ctx p refl v) λ c w.
          runs-bind _ (get_var-runs h n 18 c _ refl w) λ c w.
            runs-bind _ (get_var-runs h n 23 c _ refl w)
              λ c w. runs-bind _ (put_current-runs h n _ _ c _ w).1 λ c w. return-runs w)
    | inr no' ↦ rw no' (runs-bind _ (raise-runs h n _ _ ctx p v) λ c w. return-runs w)
  ]

  start_playing-runs :
      (h : Bool) (n : ℕ) (ctx : Context S) (p : Player S)
      → Sim h n ctx p
      → Runs h n start_playing ctx
          (playing_effect (with_output (output_play p.output) p)).0
          (playing_effect (with_output (output_play p.output) p)).1
  unfolding start_playing
  start_playing-runs h n ctx p v =
      runs-bind _ (on_output-runs h n output_play ctx p v)
        λ c w. played-runs h n (output_play p.output).0 c _ w

  -- The cases of play.
  play_in-runs :
      (h : Bool) (n : ℕ) (st : TransportState) (ctx : Context S) (p : Player S)
      → Sim h n ctx p
      → Runs h n (play_in st) ctx (play_effect st p).0 (play_effect st p).1
  unfolding play_in play_effect is_open transport_variable_names
  play_in-runs h n playing ctx p v = return-runs v
  play_in-runs h n stopped ctx p v =
      runs-bind _ (replace_var-runs h n 8 (some zero_time) ctx p refl v)
        λ c w. start_playing-runs h n c _ w
  play_in-runs h n paused_playback ctx p v = start_playing-runs h n ctx p v
  play_in-runs h n _ ctx p v =
      runs-bind _ (not_allowed-runs h n (codes "PLAY") ctx p v) λ c w. return-runs w

  pub play-runs : Refines S play (effect Action.play)
  unfolding play effect body_effect
  play-runs n ctx p v =
      with_instanceid-runs n _ _ ctx p
        (λ c q w. runs-bind _ (service_lock-runs n c q w) λ c w.
          runs-bind _ (get_state-runs true (n + 1) c q w) λ c w.
            runs-bind _ (play_in-runs true (n + 1) q.state c q w)
              λ c w. runs-bind _ (service_unlock-runs n c _ w) λ c w. return-runs w)
        v

  -- The answer of the output to pause.
  paused-runs :
      (h : Bool) (n : ℕ) (rc : ℤ) (ctx : Context S) (p : Player S)
      → Sim h n ctx p
      → Runs h n (paused rc) ctx (pausing_effect (rc, p)).0 (pausing_effect (rc, p)).1
  unfolding paused
  paused-runs h n rc ctx p v = elim (Bool-cases (is_zero rc)) [
    | inl yes' ↦
        rw yes' (runs-bind _ (enter-runs h n paused_playback ctx p refl v) λ c w. return-runs w)
    | inr no' ↦ rw no' (runs-bind _ (raise-runs h n _ _ ctx p v) λ c w. return-runs w)
  ]

  -- The cases of pause_stream.
  pause_in-runs :
      (h : Bool) (n : ℕ) (st : TransportState) (ctx : Context S) (p : Player S)
      → Sim h n ctx p
      → Runs h n (pause_in st) ctx (pause_effect st p).0 (pause_effect st p).1
  unfolding pause_in pause_effect
  pause_in-runs h n paused_playback ctx p v = return-runs v
  pause_in-runs h n playing ctx p v =
      runs-bind _ (on_output-runs h n output_pause ctx p v)
        λ c w. paused-runs h n (output_pause p.output).0 c _ w
  pause_in-runs h n _ ctx p v =
      runs-bind _ (not_allowed-runs h n (codes "PAUSE") ctx p v) λ c w. return-runs w

  pub pause_stream-runs : Refines S pause_stream (effect Action.pause)
  unfolding pause_stream effect body_effect
  pause_stream-runs n ctx p v =
      with_instanceid-runs n _ _ ctx p
        (λ c q w. runs-bind _ (service_lock-runs n c q w) λ c w.
          runs-bind _ (get_state-runs true (n + 1) c q w) λ c w.
            runs-bind _ (pause_in-runs true (n + 1) q.state c q w)
              λ c w. runs-bind _ (service_unlock-runs n c _ w) λ c w. return-runs w)
        v
