-- ===== src/Transport/Consistency/Actions.antt =====
-- The actions of src/upnp_transport.c and the calls from the output, and the relations between the
-- variables.
use gmrender_resurrect_silan.Base.{
  Option, none, some, [], Text, codes, or_empty, text_eq, Bool-cases, inl, inr,
}
use gmrender_resurrect_silan.Base.Int.{ℤ, pos, is_zero}
use gmrender_resurrect_silan.Action.{Upnp}
use gmrender_resurrect_silan.Output.{
  PlayFeedback, play_stopped, play_started_next_stream, output_play, output_pause, output_seek,
  output_get_position,
}
use gmrender_resurrect_silan.Time.{parse_upnp_time}
use gmrender_resurrect_silan.Transport.Table.{zero_time}
use gmrender_resurrect_silan.Transport.Model.{
  TransportState, stopped, playing, transitioning, paused_playback, paused_recording, recording,
  no_media_present,
}
use gmrender_resurrect_silan.Transport.Player.{
  Player, write, put_uri, put_current, ask, given, instance_given, given_instance, if_state_playing,
  with_output, set_uri_effect, set_next_uri_effect, clock, update_time, stop_effect, playing_effect,
  play_effect, pausing_effect, pause_effect, seeking_effect, seek_effect, feedback_effect, Action,
  body_effect, effect, media_info_effect, transport_info_effect, position_info_effect,
  get_current_transport_actions, get_device_capabilities, get_media_info, get_position_info,
  get_transport_info, get_transport_settings, pause, play, seek, set_av_transport_uri,
  set_next_av_transport_uri, stop,
}
use gmrender_resurrect_silan.Transport.Consistency.{
  Consistent, Keeps, put_uri-Keeps, put_current-Keeps, stopped-Keeps, playing-Keeps, paused-Keeps,
}

module _ {S : Type 0} ⦃u : Upnp⦄ where
  -- An effect with a result code.
  abbrev Holds : (Player S → ℤ × Player S) → Type 0
  Holds f = (p : Player S) → Consistent p → Consistent (f p).1

  instance_given-Holds :
      (v : Option Text) (body : Player S → ℤ × Player S)
      → Holds body
      → Holds (λ p. instance_given (v, p) body)
  instance_given-Holds none body h p c = c
  instance_given-Holds (some value) body h p c = h p c

  given_instance-Holds : (body : Player S → ℤ × Player S) → Holds body → Holds (given_instance body)
  unfolding given_instance
  given_instance-Holds body h p c =
      instance_given-Holds (ask (codes "InstanceID") p).0 body h (ask (codes "InstanceID") p).1 c

  given-Holds :
      (v : Option Text) (body : Text → Player S → ℤ × Player S)
      → ((value : Text) → Holds (body value))
      → Holds (λ p. given (v, p) body)
  given-Holds none body h p c = c
  given-Holds (some value) body h p c = h value p c

  if_state_playing-Keeps :
      (st : TransportState) (p q : Player S)
      → Consistent p
      → Consistent q
      → Consistent (if_state_playing p q st)
  if_state_playing-Keeps playing p q c d = d
  if_state_playing-Keeps stopped p q c d = c
  if_state_playing-Keeps transitioning p q c d = c
  if_state_playing-Keeps paused_playback p q c d = c
  if_state_playing-Keeps paused_recording p q c d = c
  if_state_playing-Keeps recording p q c d = c
  if_state_playing-Keeps no_media_present p q c d = c

  set_uri-Holds : (uri : Text) → Holds (set_uri_effect uri)
  unfolding set_uri_effect
  set_uri-Holds uri p c =
      let (meta, p₁) = ask (codes "CurrentURIMetaData") p in
      let p₂ = put_uri (some uri) (some (or_empty meta)) p₁ in
      let d = put_uri-Keeps (some uri) (some (or_empty meta)) p₁ c in
      if_state_playing-Keeps p₂.state p₂ (put_current (some uri) meta p₂) d
        (put_current-Keeps (some uri) meta p₂ d)

  set_next_uri-Holds : (uri : Text) → Holds (set_next_uri_effect uri)
  unfolding set_next_uri_effect
  set_next_uri-Holds uri p c =
      given-Holds _ (λ meta q. (pos 0, write 2 meta q))
        (λ meta q d. record {
          named = d.named;
          offered = d.offered;
          counted = d.counted;
          current = d.current;
        })
        _
        (record { named = c.named; offered = c.offered; counted = c.counted; current = c.current })

  clock-Keeps : (times : ℤ × ℤ × ℤ) (p : Player S) → Consistent p → Consistent (clock (times, p))
  clock-Keeps (rc, duration, position) p c = elim (Bool-cases (is_zero rc)) [
    | inl yes' ↦
        rw yes' (record {
          named = c.named;
          offered = c.offered;
          counted = c.counted;
          current = c.current;
        })
    | inr no' ↦ rw no' c
  ]

  update_time-Keeps : Keeps {S = S} update_time
  unfolding update_time
  update_time-Keeps p c =
      let r = with_output (output_get_position p.output) p in clock-Keeps r.0 r.1 c

  stop-Keeps : (st : TransportState) → Keeps {S = S} (stop_effect st)
  unfolding stop_effect
  stop-Keeps stopped p c = c
  stop-Keeps no_media_present p c = c
  stop-Keeps _ p c = stopped-Keeps _ c

  playing_effect-Holds : (rc : ℤ) → Holds (λ p. playing_effect (rc, p))
  playing_effect-Holds rc p c = elim (Bool-cases (is_zero rc)) [
    | inl yes' ↦ rw yes' (put_current-Keeps _ _ _ (playing-Keeps p c))
    | inr no' ↦ rw no' c
  ]

  play-Holds : (st : TransportState) → Holds (play_effect st)
  unfolding play_effect
  play-Holds playing p c = c
  play-Holds stopped p c =
      let r = with_output (output_play p.output) (write 8 zero_time p) in
      playing_effect-Holds r.0 r.1
        (record { named = c.named; offered = c.offered; counted = c.counted; current = c.current })
  play-Holds paused_playback p c =
      let r = with_output (output_play p.output) p in playing_effect-Holds r.0 r.1 c
  play-Holds _ p c = c

  pausing_effect-Holds : (rc : ℤ) → Holds (λ p. pausing_effect (rc, p))
  pausing_effect-Holds rc p c = elim (Bool-cases (is_zero rc)) [
    | inl yes' ↦ rw yes' (paused-Keeps p c)
    | inr no' ↦ rw no' c
  ]

  pause-Holds : (st : TransportState) → Holds (pause_effect st)
  unfolding pause_effect
  pause-Holds paused_playback p c = c
  pause-Holds playing p c =
      let r = with_output (output_pause p.output) p in pausing_effect-Holds r.0 r.1 c
  pause-Holds _ p c = c

  seeking_effect-Holds : (target : Text) (rc : ℤ) → Holds (λ p. seeking_effect target (rc, p))
  seeking_effect-Holds target rc p c = elim (Bool-cases (is_zero rc)) [
    | inl yes' ↦
        rw yes' (record {
          named = c.named;
          offered = c.offered;
          counted = c.counted;
          current = c.current;
        })
    | inr no' ↦ rw no' c
  ]

  seek-Holds : (mode : Text) → Holds (seek_effect mode)
  unfolding seek_effect
  seek-Holds mode p c = elim (Bool-cases (text_eq mode (codes "REL_TIME"))) [
    | inl yes' ↦
        let (target, q) = ask (codes "Target") p in
        rw yes' (
          given-Holds target _
            (λ value q d.
              let r = with_output (output_seek (parse_upnp_time value) q.output) q in
              seeking_effect-Holds value r.0 r.1 d)
            q c)
    | inr no' ↦ rw no' c
  ]

  body_effect-Holds : (a : Action) → Holds (body_effect a)
  unfolding body_effect media_info_effect transport_info_effect position_info_effect
  body_effect-Holds get_current_transport_actions p c = c
  body_effect-Holds get_device_capabilities p c = c
  body_effect-Holds get_media_info p c = c
  body_effect-Holds get_position_info p c = update_time-Keeps p c
  body_effect-Holds get_transport_info p c = c
  body_effect-Holds get_transport_settings p c = c
  body_effect-Holds pause p c = pause-Holds p.state p c
  body_effect-Holds play p c = play-Holds p.state p c
  body_effect-Holds seek p c =
      let (mode, q) = ask (codes "Unit") p in given-Holds mode seek_effect seek-Holds q c
  body_effect-Holds set_av_transport_uri p c =
      let (uri, q) = ask (codes "CurrentURI") p in given-Holds uri set_uri_effect set_uri-Holds q c
  body_effect-Holds set_next_av_transport_uri p c =
      let (uri, q) = ask (codes "NextURI") p in
      given-Holds uri set_next_uri_effect set_next_uri-Holds q c
  body_effect-Holds stop p c = stop-Keeps p.state p c

  -- Every action keeps the Player consistent.
  pub effect-Consistent : (a : Action) (p : Player S) → Consistent p → Consistent (effect a p).1
  unfolding effect
  effect-Consistent a = given_instance-Holds (body_effect a) (body_effect-Holds a)

  -- So does every call from the output.
  pub feedback-Consistent : (fb : PlayFeedback) → Keeps {S = S} (feedback_effect fb)
  unfolding feedback_effect
  feedback-Consistent play_stopped p c =
      stopped-Keeps _
        (put_current-Keeps (some []) (some []) _ (put_uri-Keeps (some []) (some []) p c))
  feedback-Consistent play_started_next_stream p c =
      let uri = some (p.vars 1) in
      let meta = some (p.vars 2) in
      let d = put_current-Keeps uri meta (put_uri uri meta p) (put_uri-Keeps uri meta p c) in
      record { named = d.named; offered = d.offered; counted = d.counted; current = d.current }
