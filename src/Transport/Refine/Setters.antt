-- ===== src/Transport/Refine/Setters.antt =====
-- SetAVTransportURI, SetNextAVTransportURI and Seek of src/upnp_transport.c, and the callback from the
-- output, against their effects on a Player.
use gmrender_resurrect_silan.Base.{
  ℕ, ◌+◌, refl, Bool, true, false, Option, none, some, [], Text, codes, or_empty, text_eq,
  Bool-cases, inl, inr,
}
use gmrender_resurrect_silan.Base.Int.{ℤ, pos, is_zero}
use gmrender_resurrect_silan.Xml.{Ixml}
use gmrender_resurrect_silan.Action.{Upnp, get_string}
use gmrender_resurrect_silan.Output.{
  PlayFeedback, play_stopped, play_started_next_stream, output_set_uri, output_set_next_uri,
  output_seek,
}
use gmrender_resurrect_silan.Time.{parse_upnp_time}
use gmrender_resurrect_silan.Transport.Table.{transport_variable_names}
use gmrender_resurrect_silan.Transport.Model.{
  Context, TransportState, stopped, playing, transitioning, paused_playback, paused_recording,
  recording, no_media_present, replace_current_uri_and_meta,
}
use gmrender_resurrect_silan.Transport.Actions
use gmrender_resurrect_silan.Transport.Actions.{
  set_uri, set_avtransport_uri, set_next_uri, set_next_avtransport_uri, transition_on,
  transition_from_output, sought, seek_to, seek_by, seek,
}
use gmrender_resurrect_silan.Transport.Player.{
  Player, write, put_uri, put_current, with_output, given, if_state_playing, set_uri_effect,
  set_next_uri_effect, seeking_effect, seek_effect, feedback_effect, Action, body_effect, effect,
}
use gmrender_resurrect_silan.Transport.Simulation.{
  is_open, Sim, Runs, runs-bind, return-runs, replace_var-runs, get_state-runs, get_var-runs,
  on_output-runs, on_output_-runs, fetch-runs, service_lock-runs, service_unlock-runs,
}
use gmrender_resurrect_silan.Transport.Refine.Instance.{Refines, with_instanceid-runs}
use gmrender_resurrect_silan.Transport.Refine.Effects.{put_current-runs, put_uri-runs, enter-runs}

module _ {S : Type 0} ⦃u : Upnp⦄ ⦃x : Ixml⦄ where
  if_playing-runs :
      (h : Bool) (n : ℕ) (st : TransportState) (uri meta : Option Text) (ctx : Context S)
      (p : Player S)
      → Sim h n ctx p
      → (b : Bool) × Runs h n
          (Actions.if_playing st (replace_current_uri_and_meta uri meta))
          ctx
          b
          (if_state_playing p (put_current uri meta p) st)
  if_playing-runs h n playing uri meta ctx p v = put_current-runs h n uri meta ctx p v
  if_playing-runs h n stopped uri meta ctx p v = (_, return-runs v)
  if_playing-runs h n transitioning uri meta ctx p v = (_, return-runs v)
  if_playing-runs h n paused_playback uri meta ctx p v = (_, return-runs v)
  if_playing-runs h n paused_recording uri meta ctx p v = (_, return-runs v)
  if_playing-runs h n recording uri meta ctx p v = (_, return-runs v)
  if_playing-runs h n no_media_present uri meta ctx p v = (_, return-runs v)

  set_uri-runs :
      (n : ℕ) (uri : Option Text) (ctx : Context S) (p : Player S)
      → Sim false n ctx p
      → Runs false n
          (set_uri uri)
          ctx
          (given (uri, p) set_uri_effect).0
          (given (uri, p) set_uri_effect).1
  unfolding set_uri set_uri_effect
  set_uri-runs n none ctx p v = return-runs v
  set_uri-runs n (some uri) ctx p v =
      let key = codes "CurrentURIMetaData" in
      let meta = (get_string key p.event).0 in
      let p₁ : Player S = record p { event = (get_string key p.event).1 } in
      let p₂ = put_uri (some uri) (some (or_empty meta)) p₁ in
      runs-bind _ (service_lock-runs n ctx p v) λ c w.
        runs-bind _ (fetch-runs true (n + 1) key c p w) λ c w.
          runs-bind _ (put_uri-runs true (n + 1) (some uri) (or_empty meta) c p₁ w).1 λ c w.
            runs-bind _ (get_state-runs true (n + 1) c p₂ w) λ c w.
              runs-bind _ (if_playing-runs true (n + 1) p₂.state (some uri) meta c p₂ w).1 λ c w.
                runs-bind _ (on_output_-runs true (n + 1) (output_set_uri (some uri)) c _ w)
                  λ c w. runs-bind _ (service_unlock-runs n c _ w) λ c w. return-runs w

  pub set_avtransport_uri-runs : Refines S set_avtransport_uri (effect Action.set_av_transport_uri)
  unfolding set_avtransport_uri effect body_effect
  set_avtransport_uri-runs n ctx p v =
      with_instanceid-runs n _ _ ctx p
        (λ c q w.
          runs-bind _ (fetch-runs false n _ c q w)
            λ c w. set_uri-runs n (get_string (codes "CurrentURI") q.event).0 c _ w)
        v

  set_next_meta-runs :
      (h : Bool) (n : ℕ) (meta : Option Text) (ctx : Context S) (p : Player S)
      → Sim h n ctx p
      → Runs h n
          (Actions.set_next_meta meta)
          ctx
          (given (meta, p) (λ text q. (pos 0, write 2 text q))).0
          (given (meta, p) (λ text q. (pos 0, write 2 text q))).1
  unfolding is_open transport_variable_names
  set_next_meta-runs h n none ctx p v = return-runs v
  set_next_meta-runs h n (some meta) ctx p v =
      runs-bind _ (replace_var-runs h n 2 (some meta) ctx p refl v) λ c w. return-runs w

  set_next_uri-runs :
      (n : ℕ) (uri : Option Text) (ctx : Context S) (p : Player S)
      → Sim false n ctx p
      → Runs false n
          (set_next_uri uri)
          ctx
          (given (uri, p) set_next_uri_effect).0
          (given (uri, p) set_next_uri_effect).1
  unfolding set_next_uri set_next_uri_effect is_open transport_variable_names
  set_next_uri-runs n none ctx p v = return-runs v
  set_next_uri-runs n (some uri) ctx p v =
      let key = codes "NextURIMetaData" in
      let p₁ : Player S = record p { output = output_set_next_uri (some uri) p.output } in
      let p₂ = write 1 uri p₁ in
      runs-bind _ (service_lock-runs n ctx p v) λ c w.
        runs-bind _ (on_output_-runs true (n + 1) (output_set_next_uri (some uri)) c p w) λ c w.
          runs-bind _ (replace_var-runs true (n + 1) 1 (some uri) c p₁ refl w) λ c w.
            runs-bind _ (fetch-runs true (n + 1) key c p₂ w) λ c w.
              runs-bind _ (set_next_meta-runs true (n + 1) (get_string key p₂.event).0 c _ w)
                λ c w. runs-bind _ (service_unlock-runs n c _ w) λ c w. return-runs w

  pub set_next_avtransport_uri-runs :
      Refines S set_next_avtransport_uri (effect Action.set_next_av_transport_uri)
  unfolding set_next_avtransport_uri effect body_effect
  set_next_avtransport_uri-runs n ctx p v =
      with_instanceid-runs n _ _ ctx p
        (λ c q w.
          runs-bind _ (fetch-runs false n _ c q w)
            λ c w. set_next_uri-runs n (get_string (codes "NextURI") q.event).0 c _ w)
        v

  -- The answer of the output to seek.
  sought-runs :
      (h : Bool) (n : ℕ) (target : Text) (rc : ℤ) (ctx : Context S) (p : Player S)
      → Sim h n ctx p
      → (b : Bool) × Runs h n (sought target rc) ctx b (seeking_effect target (rc, p)).1
  unfolding sought is_open transport_variable_names
  sought-runs h n target rc ctx p v = elim (Bool-cases (is_zero rc)) [
    | inl yes' ↦ rw yes' ((_, replace_var-runs h n 8 (some target) ctx p refl v))
    | inr no' ↦ rw no' ((_, return-runs v))
  ]

  abbrev seek_target_effect : Text → Player S → ℤ × Player S
  seek_target_effect target q =
      seeking_effect target (with_output (output_seek (parse_upnp_time target) q.output) q)

  seek_to-runs :
      (n : ℕ) (target : Option Text) (ctx : Context S) (p : Player S)
      → Sim false n ctx p
      → Runs false n
          (seek_to target)
          ctx
          (given (target, p) seek_target_effect).0
          (given (target, p) seek_target_effect).1
  unfolding seek_to
  seek_to-runs n none ctx p v = return-runs v
  seek_to-runs n (some target) ctx p v =
      let position = parse_upnp_time target in
      let rc = (output_seek position p.output).0 in
      runs-bind _ (service_lock-runs n ctx p v) λ c w.
        runs-bind _ (on_output-runs true (n + 1) (output_seek position) c p w) λ c w.
          runs-bind _ (sought-runs true (n + 1) target rc c _ w).1
            λ c w. runs-bind _ (service_unlock-runs n c _ w) λ c w. return-runs w

  seek_by-runs :
      (n : ℕ) (mode : Option Text) (ctx : Context S) (p : Player S)
      → Sim false n ctx p
      → Runs false n
          (seek_by mode)
          ctx
          (given (mode, p) seek_effect).0
          (given (mode, p) seek_effect).1
  unfolding seek_by seek_effect
  seek_by-runs n none ctx p v = return-runs v
  seek_by-runs n (some mode) ctx p v = elim (Bool-cases (text_eq mode (codes "REL_TIME"))) [
    | inl yes' ↦ rw yes' (
        runs-bind _ (fetch-runs false n _ ctx p v)
          λ c w. seek_to-runs n (get_string (codes "Target") p.event).0 c _ w)
    | inr no' ↦ rw no' (return-runs v)
  ]

  pub seek-runs : Refines S seek (effect Action.seek)
  unfolding seek effect body_effect
  seek-runs n ctx p v =
      with_instanceid-runs n _ _ ctx p
        (λ c q w.
          runs-bind _ (fetch-runs false n _ c q w)
            λ c w. seek_by-runs n (get_string (codes "Unit") q.event).0 c _ w)
        v

  transition_on-runs :
      (h : Bool) (n : ℕ) (fb : PlayFeedback) (ctx : Context S) (p : Player S)
      → Sim h n ctx p
      → (b : Bool) × Runs h n (transition_on fb) ctx b (feedback_effect fb p)
  unfolding transition_on feedback_effect is_open transport_variable_names
  transition_on-runs h n play_stopped ctx p v = (
    _,
    runs-bind _ (put_uri-runs h n (some []) [] ctx p v).1 λ c w.
        runs-bind _ (put_current-runs h n (some []) (some []) c _ w).1
          λ c w. runs-bind _ (enter-runs h n stopped c _ refl w) λ c w. return-runs w,
  )
  transition_on-runs h n play_started_next_stream ctx p v = (
    _,
    runs-bind _ (get_var-runs h n 1 ctx p refl v) λ c w.
        runs-bind _ (get_var-runs h n 2 c p refl w) λ c w.
          runs-bind _ (put_uri-runs h n (some (p.vars 1)) (p.vars 2) c p w).1 λ c w.
            runs-bind _ (put_current-runs h n (some (p.vars 1)) (some (p.vars 2)) c _ w).1 λ c w.
              runs-bind _ (replace_var-runs h n 1 (some []) c _ refl w)
                λ c w. replace_var-runs h n 2 (some []) c _ refl w,
  )

  pub transition_from_output-runs :
      (n : ℕ) (fb : PlayFeedback) (ctx : Context S) (p : Player S)
      → Sim false n ctx p
      → Runs false n (transition_from_output fb) ctx tt (feedback_effect fb p)
  unfolding transition_from_output
  transition_from_output-runs n fb ctx p v = runs-bind _ (service_lock-runs n ctx p v) λ c w.
      runs-bind _ (transition_on-runs true (n + 1) fb c p w).1 λ c w. service_unlock-runs n c _ w
