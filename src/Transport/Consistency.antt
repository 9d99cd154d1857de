-- ===== src/Transport/Consistency.antt =====
-- What the variables of src/upnp_transport.c have to do with each other and with the state, between
-- any two steps of the service.
pub mod Actions
use gmrender_resurrect_silan.Base.{
  ℕ, ◌≡◌, refl, ap, sym, ◌∙◌, Bool, true, false, Option, none, some, List, [], ◌∷◌, Text, codes,
  or_empty, text_eq, subst, lt→ltb, strlen, text_eq_iff, if◌then◌else◌, Bool-cases, inl, inr, arith,
}
use gmrender_resurrect_silan.Base.Int.{ℤ, pos, is_zero}
use gmrender_resurrect_silan.Action.{Upnp, ActionEvent, Request}
use gmrender_resurrect_silan.Variables.Model.{update}
use gmrender_resurrect_silan.Output.{
  Output, PlayFeedback, play_stopped, play_started_next_stream, output_play, output_pause,
  output_seek, output_get_position,
}
use gmrender_resurrect_silan.Time.{parse_upnp_time}
use gmrender_resurrect_silan.Transport.Table.{transport_default_values, zero_time}
use gmrender_resurrect_silan.Transport.Model.{
  TransportState, stopped, playing, transitioning, paused_playback, paused_recording, recording,
  no_media_present, state_name, available_actions, track_count,
}
use gmrender_resurrect_silan.Transport.Player.{
  Player, write, put_uri, put_current, put_actions, enter, ask, given, instance_given,
  given_instance, if_state_playing, with_output, set_uri_effect, set_next_uri_effect, clock,
  update_time, stop_effect, playing_effect, play_effect, pausing_effect, pause_effect,
  seeking_effect, seek_effect, feedback_effect, Action, body_effect, effect, media_info_effect,
  transport_info_effect, position_info_effect, get_current_transport_actions,
  get_device_capabilities, get_media_info, get_position_info, get_transport_info,
  get_transport_settings, pause, play, seek, set_av_transport_uri, set_next_av_transport_uri, stop,
}

-- The variables are what the functions of the program make of the state and of the URIs.
pub record IsSteady (st : TransportState) (f : ℕ → Text) : Type 0 where
  pub named : f 28 ≡ state_name st
  pub offered : available_actions st ≡ some (f 16)
  pub counted : f 17 ≡ track_count (some (f 18))
  pub current : f 14 ≡ track_count (some (f 15))

-- The name of a state, as a client reads it.
abbrev pub state_title : TransportState → Text
state_title stopped = codes "STOPPED"
state_title paused_playback = codes "PAUSED_PLAYBACK"
state_title paused_recording = codes "PAUSED_RECORDING"
state_title playing = codes "PLAYING"
state_title transitioning = codes "TRANSITIONING"
state_title recording = codes "RECORDING"
state_title no_media_present = codes "NO_MEDIA_PRESENT"

-- The states that are entered, with the actions that a client is offered in them.
pub data Offers : TransportState → Text → Type 0 where
  when_stopped : Offers stopped (codes "PLAY")
  when_playing : Offers playing (codes "PAUSE,STOP,SEEK")
  when_paused : Offers paused_playback (codes "PLAY,STOP")

-- A number of tracks, which is 0 without a URI and 1 with one.
abbrev pub presence : Text → Text
presence [] = codes "0"
presence (c ∷ uri) = codes "1"

-- TransportState names the state, which is stopped, playing or paused, CurrentTransportActions are
-- those of the state, NumberOfTracks tells whether there is an AVTransportURI, and CurrentTrack
-- whether there is a CurrentTrackURI.
pub record IsConsistent (st : TransportState) (f : ℕ → Text) : Type 0 where
  pub named : f 28 ≡ state_title st
  pub offered : Offers st (f 16)
  pub counted : f 17 ≡ presence (f 18)
  pub current : f 14 ≡ presence (f 15)

state_name-title : (st : TransportState) → state_name st ≡ state_title st
unfolding state_name
state_name-title stopped = refl
state_name-title playing = refl
state_name-title transitioning = refl
state_name-title paused_playback = refl
state_name-title paused_recording = refl
state_name-title recording = refl
state_name-title no_media_present = refl

available_actions-Offers :
    (st : TransportState) (actions : Text) → available_actions st ≡ some actions → Offers st actions
unfolding available_actions
available_actions-Offers stopped actions e = subst (Offers stopped) (ap or_empty e) when_stopped
available_actions-Offers playing actions e = subst (Offers playing) (ap or_empty e) when_playing
available_actions-Offers paused_playback actions e =
    subst (Offers paused_playback) (ap or_empty e) when_paused
available_actions-Offers transitioning actions e = absurd (ground (arith, e))
available_actions-Offers paused_recording actions e = absurd (ground (arith, e))
available_actions-Offers recording actions e = absurd (ground (arith, e))
available_actions-Offers no_media_present actions e = absurd (ground (arith, e))

track_count-presence : (uri : Text) → track_count (some uri) ≡ presence uri
unfolding track_count
track_count-presence [] = refl
track_count-presence (c ∷ uri) = rw (lt→ltb 0 (strlen (c ∷ uri)) (omega arith)) refl

pub IsSteady-IsConsistent : (st : TransportState) (f : ℕ → Text) → IsSteady st f → IsConsistent st f
IsSteady-IsConsistent st f c = record {
  named = c.named ∙ state_name-title st;
  offered = available_actions-Offers st (f 16) c.offered;
  counted = c.counted ∙ track_count-presence (f 18);
  current = c.current ∙ track_count-presence (f 15);
}

-- The variables of a Player, against its state.
abbrev pub Consistent : {S : Type 0} → Player S → Type 0
Consistent p = IsSteady p.state p.vars

-- The state that a name is of.
abbrev state_of : Text → TransportState
state_of t =
    if text_eq t (codes "STOPPED")
    then stopped
    else if text_eq t (codes "PLAYING")
    then playing
    else if text_eq t (codes "TRANSITIONING")
    then transitioning
    else if text_eq t (codes "PAUSED_PLAYBACK")
    then paused_playback
    else if text_eq t (codes "PAUSED_RECORDING")
    then paused_recording
    else if text_eq t (codes "RECORDING")
    then recording
    else no_media_present

state_of-state_name : (st : TransportState) → state_of (state_name st) ≡ st
unfolding state_name
state_of-state_name stopped = refl
state_of-state_name playing = refl
state_of-state_name transitioning = refl
state_of-state_name paused_playback = refl
state_of-state_name paused_recording = refl
state_of-state_name recording = refl
state_of-state_name no_media_present = refl

state_name-injective : (a b : TransportState) → state_name a ≡ state_name b → a ≡ b
state_name-injective a b e = sym (state_of-state_name a) ∙ ap state_of e ∙ state_of-state_name b

module _ {S : Type 0} where
  -- A function that keeps every consistent Player consistent.
  abbrev pub Keeps : (Player S → Player S) → Type 0
  Keeps f = (p : Player S) → Consistent p → Consistent (f p)

  pub put_uri-Keeps : (uri meta : Option Text) → Keeps (put_uri uri meta)
  unfolding put_uri track_count
  put_uri-Keeps none meta p c = record {
    named = c.named;
    offered = c.offered;
    counted = refl;
    current = c.current;
  }
  put_uri-Keeps (some uri) meta p c = record {
    named = c.named;
    offered = c.offered;
    counted = refl;
    current = c.current;
  }

  pub put_current-Keeps : (uri meta : Option Text) → Keeps (put_current uri meta)
  unfolding put_current track_count
  put_current-Keeps none meta p c = record {
    named = c.named;
    offered = c.offered;
    counted = c.counted;
    current = refl;
  }
  put_current-Keeps (some uri) meta p c = record {
    named = c.named;
    offered = c.offered;
    counted = c.counted;
    current = refl;
  }

  -- The state is entered; the actions are offered anew only if TransportState was another.
  enter-Keeps :
      (new : TransportState) (actions : Text)
      → available_actions new ≡ some actions
      → Keeps (enter new)
  unfolding enter
  enter-Keeps new actions e p c = elim (Bool-cases (text_eq (state_name new) (p.vars 28))) [
    | inl same ↦
        let named = (text_eq_iff (state_name new) (p.vars 28)).0 same in
        rw same (record {
          named = refl;
          offered =
              ap available_actions (state_name-injective new p.state (named ∙ c.named)) ∙ c.offered;
          counted = c.counted;
          current = c.current;
        })
    | inr other ↦
        rw (other, e)
          (record { named = refl; offered = e; counted = c.counted; current = c.current })
  ]

  pub stopped-Keeps : Keeps (enter stopped)
  unfolding available_actions
  stopped-Keeps = enter-Keeps stopped (codes "PLAY") refl

  pub playing-Keeps : Keeps (enter playing)
  unfolding available_actions
  playing-Keeps = enter-Keeps playing (codes "PAUSE,STOP,SEEK") refl

  pub paused-Keeps : Keeps (enter paused_playback)
  unfolding available_actions
  paused-Keeps = enter-Keeps paused_playback (codes "PLAY,STOP") refl
