-- ===== src/Transport/Player.antt =====
-- The AVTransport service of src/upnp_transport.c as a client knows it: variables, a state, an
-- output and the event of the action. There are no mutex, no collector and no failure here.
use gmrender_resurrect_silan.Base.{
  ℕ, Option, none, some, [], ◌++◌, Text, codes, text_eq, or_empty, if◌then◌else◌,
}
use gmrender_resurrect_silan.Base.Int.{ℤ, pos, minus_one, is_zero}
use gmrender_resurrect_silan.Action.{
  Upnp, ActionEvent, get_string, set_error, add_response, upnp_soap_e_invalid_args,
}
use gmrender_resurrect_silan.Variables.Model.{update}
use gmrender_resurrect_silan.Output.{
  Output, PlayFeedback, play_stopped, play_started_next_stream, output_set_uri, output_set_next_uri,
  output_play, output_stop, output_pause, output_seek, output_get_position,
}
use gmrender_resurrect_silan.Time.{print_upnp_time, parse_upnp_time}
use gmrender_resurrect_silan.Transport.Table.{zero_time}
use gmrender_resurrect_silan.Transport.Actions.{transition_na}
use gmrender_resurrect_silan.Transport.Model.{
  TransportState, stopped, playing, paused_playback, no_media_present, state_name,
  available_actions, track_count,
}

pub record Player (S : Type 0) : Type 0 where
  pub vars : ℕ → Text
  pub state : TransportState
  pub output : Output S
  pub event : ActionEvent

module _ {S : Type 0} where
  abbrev pub write : ℕ → Text → Player S → Player S
  write i value p = record p { vars = update p.vars i value }

  -- AVTransportURI, its metadata and NumberOfTracks
  unfoldable pub put_uri : Option Text → Option Text → Player S → Player S
  put_uri uri meta p =
      write 17 (track_count uri) (write 23 (or_empty meta) (write 18 (or_empty uri) p))

  -- CurrentTrack, CurrentTrackURI and CurrentTrackMetaData
  unfoldable pub put_current : Option Text → Option Text → Player S → Player S
  put_current uri meta p =
      write 3 (or_empty meta) (write 15 (or_empty uri) (write 14 (track_count uri) p))

  -- CurrentTransportActions
  abbrev pub put_actions : Option Text → Player S → Player S
  put_actions none p = p
  put_actions (some actions) p = write 16 actions p

  -- The state and TransportState; CurrentTransportActions if TransportState was another.
  unfoldable pub enter : TransportState → Player S → Player S
  enter new p =
      let p' : Player S = record p { vars = update p.vars 28 (state_name new); state = new } in
      if text_eq (state_name new) (p.vars 28) then p' else put_actions (available_actions new) p'

  abbrev pub with_output : {A : Type 0} → A × Output S → Player S → A × Player S
  with_output (a, o) p = (a, record p { output = o })

  module _ ⦃u : Upnp⦄ where
    abbrev pub ask : Text → Player S → Option Text × Player S
    ask key p = let (value, ev) = get_string key p.event in (value, record p { event = ev })

    abbrev pub complain : ℤ → Text → Player S → Player S
    complain code message p = record p { event = set_error code message p.event }

    abbrev pub reply : ℕ → Text → Player S → Player S
    reply i name p = record p { event = add_response name (p.vars i) p.event }

    abbrev pub refuse : Text → Player S → Player S
    refuse transition p =
        complain transition_na
          (codes "Transition to " ++ (transition ++ (codes " not allowed; allowed=" ++ p.vars 16)))
          p

    -- An action with its InstanceID.
    abbrev pub instance_given : Option Text × Player S → (Player S → ℤ × Player S) → ℤ × Player S
    instance_given (none, p) body =
        (minus_one, complain upnp_soap_e_invalid_args (codes "Missing InstanceID") p)
    instance_given (some value, p) body = body p

    unfoldable pub given_instance : (Player S → ℤ × Player S) → Player S → ℤ × Player S
    given_instance body p = instance_given (ask (codes "InstanceID") p) body

    -- An action with one more argument.
    abbrev pub given : Option Text × Player S → (Text → Player S → ℤ × Player S) → ℤ × Player S
    given (none, p) body = (minus_one, p)
    given (some value, p) body = body value p

    abbrev pub if_state_playing : Player S → Player S → TransportState → Player S
    if_state_playing p q playing = q
    if_state_playing p q _ = p

    unfoldable pub set_uri_effect : Text → Player S → ℤ × Player S
    set_uri_effect uri p =
        let (meta, p₁) = ask (codes "CurrentURIMetaData") p in
        let p₂ = put_uri (some uri) (some (or_empty meta)) p₁ in
        let p₃ = if_state_playing p₂ (put_current (some uri) meta p₂) p₂.state in
        (pos 0, record p₃ { output = output_set_uri (some uri) p₃.output })

    unfoldable pub set_next_uri_effect : Text → Player S → ℤ × Player S
    set_next_uri_effect uri p =
        let p₁ : Player S = record p { output = output_set_next_uri (some uri) p.output } in
        given (ask (codes "NextURIMetaData") (write 1 uri p₁)) (λ meta q. (pos 0, write 2 meta q))

    -- The times are taken over if the output knows them.
    abbrev pub clock : (ℤ × ℤ × ℤ) × Player S → Player S
    clock ((rc, duration, position), p) =
        if is_zero rc
        then write 8 (print_upnp_time position) (write 27 (print_upnp_time duration) p)
        else p

    unfoldable pub update_time : Player S → Player S
    update_time p = clock (with_output (output_get_position p.output) p)

    unfoldable pub stop_effect : TransportState → Player S → Player S
    stop_effect stopped p = p
    stop_effect no_media_present p = refuse (codes "STOP") p
    stop_effect _ p = enter stopped (with_output (output_stop p.output) p).1

    -- The answer of the output to play.
    abbrev pub playing_effect : ℤ × Player S → ℤ × Player S
    playing_effect (rc, p) =
        if is_zero rc
        then (let q = enter playing p in
            (pos 0, put_current (some (q.vars 18)) (some (q.vars 23)) q))
        else (minus_one, complain (pos 704) (codes "Playing failed") p)

    unfoldable pub play_effect : TransportState → Player S → ℤ × Player S
    play_effect playing p = (pos 0, p)
    play_effect stopped p =
        playing_effect (with_output (output_play p.output) (write 8 zero_time p))
    play_effect paused_playback p = playing_effect (with_output (output_play p.output) p)
    play_effect _ p = (minus_one, refuse (codes "PLAY") p)

    abbrev pub pausing_effect : ℤ × Player S → ℤ × Player S
    pausing_effect (rc, p) =
        if is_zero rc
        then (pos 0, enter paused_playback p)
        else (minus_one, complain (pos 704) (codes "Pause failed") p)

    unfoldable pub pause_effect : TransportState → Player S → ℤ × Player S
    pause_effect paused_playback p = (pos 0, p)
    pause_effect playing p = pausing_effect (with_output (output_pause p.output) p)
    pause_effect _ p = (minus_one, refuse (codes "PAUSE") p)

    abbrev pub seeking_effect : Text → ℤ × Player S → ℤ × Player S
    seeking_effect target (rc, p) = (pos 0, if is_zero rc then write 8 target p else p)

    unfoldable pub seek_effect : Text → Player S → ℤ × Player S
    seek_effect mode p =
        if text_eq mode (codes "REL_TIME")
        then given (ask (codes "Target") p) (λ target q.
          seeking_effect target (with_output (output_seek (parse_upnp_time target) q.output) q))
        else (pos 0, p)

    unfoldable pub media_info_effect : Player S → Player S
    media_info_effect p =
        let p₁ = reply 17 (codes "NrTracks") p in
        let p₂ = reply 21 (codes "MediaDuration") p₁ in
        let p₃ = reply 18 (codes "CurrentURI") p₂ in
        let p₄ = reply 23 (codes "CurrentURIMetaData") p₃ in
        let p₅ = reply 1 (codes "NextURI") p₄ in
        let p₆ = reply 2 (codes "NextURIMetaData") p₅ in
        let p₇ = reply 9 (codes "PlayMedium") p₆ in
        let p₈ = reply 24 (codes "RecordMedium") p₇ in reply 25 (codes "WriteStatus") p₈

    unfoldable pub transport_info_effect : Player S → Player S
    transport_info_effect p =
        let p₁ = reply 28 (codes "CurrentTransportState") p in
        let p₂ = reply 0 (codes "CurrentTransportStatus") p₁ in reply 11 (codes "CurrentSpeed") p₂

    unfoldable pub position_info_effect : Player S → Player S
    position_info_effect p =
        let p₁ = reply 14 (codes "Track") (update_time p) in
        let p₂ = reply 27 (codes "TrackDuration") p₁ in
        let p₃ = reply 3 (codes "TrackMetaData") p₂ in
        let p₄ = reply 15 (codes "TrackURI") p₃ in
        let p₅ = reply 8 (codes "RelTime") p₄ in
        let p₆ = reply 13 (codes "AbsTime") p₅ in
        let p₇ = reply 4 (codes "RelCount") p₆ in reply 19 (codes "AbsCount") p₇

  unfoldable pub feedback_effect : PlayFeedback → Player S → Player S
  feedback_effect play_stopped p =
      enter stopped (put_current (some []) (some []) (put_uri (some []) (some []) p))
  feedback_effect play_started_next_stream p =
      let uri = some (p.vars 1) in
      let meta = some (p.vars 2) in
      write 2 [] (write 1 [] (put_current uri meta (put_uri uri meta p)))

-- The actions of the table `transport_actions`.
pub data Action : Type 0 where
  get_current_transport_actions get_device_capabilities get_media_info get_position_info : Action
  get_transport_info get_transport_settings pause play seek : Action
  set_av_transport_uri set_next_av_transport_uri stop : Action

module _ {S : Type 0} ⦃u : Upnp⦄ where
  abbrev pub silently : (Player S → Player S) → Player S → ℤ × Player S
  silently f p = (pos 0, f p)

  -- An action behind its InstanceID.
  unfoldable pub body_effect : Action → Player S → ℤ × Player S
  body_effect get_current_transport_actions = silently (reply 16 (codes "Actions"))
  body_effect get_device_capabilities = silently (λ p. p)
  body_effect get_media_info = silently media_info_effect
  body_effect get_position_info = silently position_info_effect
  body_effect get_transport_info = silently transport_info_effect
  body_effect get_transport_settings = silently (λ p. p)
  body_effect pause = λ p. pause_effect p.state p
  body_effect play = λ p. play_effect p.state p
  body_effect seek = λ p. given (ask (codes "Unit") p) seek_effect
  body_effect set_av_transport_uri = λ p. given (ask (codes "CurrentURI") p) set_uri_effect
  body_effect set_next_av_transport_uri = λ p. given (ask (codes "NextURI") p) set_next_uri_effect
  body_effect stop = λ p. (pos 0, stop_effect p.state p)

  -- What an action does, and its result code.
  unfoldable pub effect : Action → Player S → ℤ × Player S
  effect a = given_instance (body_effect a)
