-- ===== src/Transport/Moves.antt =====
-- The state machine of src/upnp_transport.c: which states an action or a call from the output goes to.
use gmrender_resurrect_silan.Base.{
  ◌≡◌, refl, ap, sym, arith, ◌⊎◌, true, inl, inr, Option, none, some, [], Text, codes, text_eq,
  strstr, Bool-cases, or_empty,
}
use gmrender_resurrect_silan.Base.Int.{ℤ, pos, is_zero}
use gmrender_resurrect_silan.Action.{Upnp}
use gmrender_resurrect_silan.Output.{
  PlayFeedback, play_stopped, play_started_next_stream, output_play, output_pause, output_seek,
  output_get_position,
}
use gmrender_resurrect_silan.Time.{parse_upnp_time}
use gmrender_resurrect_silan.Transport.Table.{zero_time}
use gmrender_resurrect_silan.Transport.Model.{
  TransportState, stopped, playing, transitioning, paused_playback, paused_recording, recording,
  no_media_present, state_name, available_actions,
}
use gmrender_resurrect_silan.Transport.Player.{
  Player, write, put_uri, put_current, put_actions, enter, with_output, ask, given, instance_given,
  given_instance, if_state_playing, set_uri_effect, set_next_uri_effect, clock, update_time,
  stop_effect, playing_effect, play_effect, pausing_effect, pause_effect, seeking_effect,
  seek_effect, feedback_effect, Action, body_effect, effect, media_info_effect,
  transport_info_effect, position_info_effect, get_current_transport_actions,
  get_device_capabilities, get_media_info, get_position_info, get_transport_info,
  get_transport_settings, pause, play, seek, set_av_transport_uri, set_next_av_transport_uri, stop,
}

-- The moves that an action makes.
pub data Moves : Action → TransportState → TransportState → Type 0 where
  stay : (a : Action) (st : TransportState) → Moves a st st
  begin : Moves play stopped playing
  resume : Moves play paused_playback playing
  hold : Moves pause playing paused_playback
  halt : (st : TransportState) → Moves stop st stopped

module _ {S : Type 0} where
  offered-state : (actions : Option Text) (p : Player S) → (put_actions actions p).state ≡ p.state
  offered-state none p = refl
  offered-state (some actions) p = refl

  enter-state : (new : TransportState) (p : Player S) → (enter new p).state ≡ new
  unfolding enter
  enter-state new p = elim (Bool-cases (text_eq (state_name new) (p.vars 28))) [
    | inl same ↦ rw same refl
    | inr other ↦ rw other (offered-state (available_actions new) _)
  ]

  put_uri-state : (uri meta : Option Text) (p : Player S) → (put_uri uri meta p).state ≡ p.state
  unfolding put_uri
  put_uri-state uri meta p = refl

  put_current-state :
      (uri meta : Option Text) (p : Player S) → (put_current uri meta p).state ≡ p.state
  unfolding put_current
  put_current-state uri meta p = refl

  module _ ⦃u : Upnp⦄ where
    if_state_playing-state :
        (st : TransportState) (p q : Player S)
        → q.state ≡ p.state
        → (if_state_playing p q st).state ≡ p.state
    if_state_playing-state playing p q e = e
    if_state_playing-state stopped p q e = refl
    if_state_playing-state transitioning p q e = refl
    if_state_playing-state paused_playback p q e = refl
    if_state_playing-state paused_recording p q e = refl
    if_state_playing-state recording p q e = refl
    if_state_playing-state no_media_present p q e = refl

    -- An effect leaves the state alone.
    abbrev Still : (Player S → ℤ × Player S) → Type 0
    Still f = (p : Player S) → (f p).1.state ≡ p.state

    given-Still :
        (v : Option Text) (body : Text → Player S → ℤ × Player S)
        → ((value : Text) → Still (body value))
        → Still (λ p. given (v, p) body)
    given-Still none body h p = refl
    given-Still (some value) body h p = h value p

    set_uri-Still : (uri : Text) → Still (set_uri_effect uri)
    unfolding set_uri_effect put_uri put_current
    set_uri-Still uri p = if_state_playing-state p.state _ _ refl

    set_next_uri-Still : (uri : Text) → Still (set_next_uri_effect uri)
    unfolding set_next_uri_effect
    set_next_uri-Still uri p = given-Still _ (λ meta q. (pos 0, write 2 meta q)) (λ meta q. refl) _

    clock-state : (times : ℤ × ℤ × ℤ) (p : Player S) → (clock (times, p)).state ≡ p.state
    clock-state (rc, duration, position) p = elim (Bool-cases (is_zero rc)) [
      | inl yes' ↦ rw yes' refl
      | inr no' ↦ rw no' refl
    ]

    update_time-state : (p : Player S) → (update_time p).state ≡ p.state
    unfolding update_time
    update_time-state p =
        let r = with_output (output_get_position p.output) p in clock-state r.0 r.1

    seeking-Still : (target : Text) (rc : ℤ) → Still (λ p. seeking_effect target (rc, p))
    seeking-Still target rc p = elim (Bool-cases (is_zero rc)) [
      | inl yes' ↦ rw yes' refl
      | inr no' ↦ rw no' refl
    ]

    seek-Still : (mode : Text) → Still (seek_effect mode)
    unfolding seek_effect
    seek-Still mode p = elim (Bool-cases (text_eq mode (codes "REL_TIME"))) [
      | inl yes' ↦
          let (target, q) = ask (codes "Target") p in
          rw yes' (
            given-Still target _
              (λ value q.
                let r = with_output (output_seek (parse_upnp_time value) q.output) q in
                seeking-Still value r.0 r.1)
              q)
      | inr no' ↦ rw no' refl
    ]

    playing_effect-Moves :
        (st : TransportState) (rc : ℤ) (p : Player S)
        → p.state ≡ st
        → Moves play st playing
        → Moves play st (playing_effect (rc, p)).1.state
    unfolding put_current
    playing_effect-Moves st rc p e m = elim (Bool-cases (is_zero rc)) [
      | inl yes' ↦ rw (yes', enter-state playing p) m
      | inr no' ↦ rw (no', e) (stay play st)
    ]

    play-Moves :
        (st : TransportState) (p : Player S)
        → p.state ≡ st
        → Moves play st (play_effect st p).1.state
    unfolding play_effect
    play-Moves stopped p e =
        let r = with_output (output_play p.output) (write 8 zero_time p) in
        playing_effect-Moves stopped r.0 r.1 e begin
    play-Moves paused_playback p e =
        let r = with_output (output_play p.output) p in
        playing_effect-Moves paused_playback r.0 r.1 e resume
    play-Moves playing p e = rw e (stay play playing)
    play-Moves st p e = rw e (stay play st)

    pausing_effect-Moves :
        (rc : ℤ) (p : Player S)
        → p.state ≡ playing
        → Moves pause playing (pausing_effect (rc, p)).1.state
    pausing_effect-Moves rc p e = elim (Bool-cases (is_zero rc)) [
      | inl yes' ↦ rw (yes', enter-state paused_playback p) hold
      | inr no' ↦ rw (no', e) (stay pause playing)
    ]

    pause-Moves :
        (st : TransportState) (p : Player S)
        → p.state ≡ st
        → Moves pause st (pause_effect st p).1.state
    unfolding pause_effect
    pause-Moves playing p e =
        let r = with_output (output_pause p.output) p in pausing_effect-Moves r.0 r.1 e
    pause-Moves paused_playback p e = rw e (stay pause paused_playback)
    pause-Moves st p e = rw e (stay pause st)

    stop-Moves :
        (st : TransportState) (p : Player S) → p.state ≡ st → Moves stop st (stop_effect st p).state
    unfolding stop_effect
    stop-Moves stopped p e = rw e (stay stop stopped)
    stop-Moves no_media_present p e = rw e (stay stop no_media_present)
    stop-Moves st p e = rw (enter-state stopped _) (halt st)

    still : (a : Action) (st : TransportState) (q : Player S) → q.state ≡ st → Moves a st q.state
    still a st q e = rw e (stay a st)

    pub body_effect-Moves : (a : Action) (p : Player S) → Moves a p.state (body_effect a p).1.state
    unfolding body_effect media_info_effect transport_info_effect position_info_effect
    body_effect-Moves get_current_transport_actions p = stay _ _
    body_effect-Moves get_device_capabilities p = stay _ _
    body_effect-Moves get_media_info p = stay _ _
    body_effect-Moves get_position_info p = still _ p.state (update_time p) (update_time-state p)
    body_effect-Moves get_transport_info p = stay _ _
    body_effect-Moves get_transport_settings p = stay _ _
    body_effect-Moves pause p = pause-Moves p.state p refl
    body_effect-Moves play p = play-Moves p.state p refl
    body_effect-Moves seek p =
        let (mode, q) = ask (codes "Unit") p in
        still _ p.state (given (mode, q) seek_effect).1 (given-Still mode seek_effect seek-Still q)
    body_effect-Moves set_av_transport_uri p =
        let (uri, q) = ask (codes "CurrentURI") p in
        still _ p.state (given (uri, q) set_uri_effect).1
          (given-Still uri set_uri_effect set_uri-Still q)
    body_effect-Moves set_next_av_transport_uri p =
        let (uri, q) = ask (codes "NextURI") p in
        still _ p.state (given (uri, q) set_next_uri_effect).1
          (given-Still uri set_next_uri_effect set_next_uri-Still q)
    body_effect-Moves stop p = stop-Moves p.state p refl

    instance_given-Moves :
        (a : Action) (v : Option Text) (p : Player S)
        → Moves a p.state (instance_given (v, p) (body_effect a)).1.state
    instance_given-Moves a none p = stay a p.state
    instance_given-Moves a (some value) p = body_effect-Moves a p

    pub effect-Moves : (a : Action) (p : Player S) → Moves a p.state (effect a p).1.state
    unfolding effect given_instance
    effect-Moves a p = let r = ask (codes "InstanceID") p in instance_given-Moves a r.0 r.1

    pub feedback-state :
        (fb : PlayFeedback) (p : Player S)
        → (feedback_effect fb p).state
          ≡ elim fb [ play_stopped ↦ stopped | play_started_next_stream ↦ p.state ]
    unfolding feedback_effect put_uri put_current
    feedback-state play_stopped p = enter-state stopped _
    feedback-state play_started_next_stream p = refl

-- The name of an action in CurrentTransportActions, for those that change the state.
abbrev pub keyword : Action → Text
keyword play = codes "PLAY"
keyword pause = codes "PAUSE"
keyword stop = codes "STOP"
keyword a = []

-- A move to another state from one of the three states is one that the state makes available.
pub Moves-offered :
    (a : Action) (st new : TransportState) (actions : Text)
    → available_actions st ≡ some actions
    → Moves a st new
    → (new ≡ st) ⊎ (strstr actions (keyword a) ≡ true)
unfolding available_actions
Moves-offered a st new actions e (stay _ _) = inl refl
Moves-offered _ _ _ actions e begin = inr (ap (λ t. strstr (or_empty t) (codes "PLAY")) (sym e))
Moves-offered _ _ _ actions e resume = inr (ap (λ t. strstr (or_empty t) (codes "PLAY")) (sym e))
Moves-offered _ _ _ actions e hold = inr (ap (λ t. strstr (or_empty t) (codes "PAUSE")) (sym e))
Moves-offered _ _ _ actions e (halt stopped) = inl refl
Moves-offered _ _ _ actions e (halt playing) =
    inr (ap (λ t. strstr (or_empty t) (codes "STOP")) (sym e))
Moves-offered _ _ _ actions e (halt paused_playback) =
    inr (ap (λ t. strstr (or_empty t) (codes "STOP")) (sym e))
Moves-offered _ _ _ actions e (halt st) = absurd (ground arith)
