-- ===== src/Transport/Model.antt =====
-- The state of src/upnp_transport.c and what its action handlers are made of.
use gmrender_resurrect_silan.Base.{
  ℕ, Bool, true, false, ◌||◌, Option, none, some, Text, codes, strstr, strlen, ltb, if◌then◌else◌,
  ◌==◌,
}
use gmrender_resurrect_silan.Base.Int.{ℤ, pos, minus_one}
use gmrender_resurrect_silan.Base.Outcome.{Outcome, done, fault, assertion, null_pointer}
use gmrender_resurrect_silan.Xml.{Ixml}
use gmrender_resurrect_silan.Variables.Model.{Service, get}
use gmrender_resurrect_silan.Variables.Change.{change_var}
use gmrender_resurrect_silan.Variables.Collector
use gmrender_resurrect_silan.Action.{
  Upnp, ActionEvent, get_string, set_error, append_variable, upnp_soap_e_invalid_args,
}
use gmrender_resurrect_silan.Output.{Output}
use gmrender_resurrect_silan.Transport.Table.{
  var_av_uri, var_av_uri_meta, var_nr_tracks, var_cur_track, var_cur_track_uri, var_cur_track_meta,
  var_transport_state, var_cur_transport_actions,
}

-- enum transport_state
pub data TransportState : Type 0 where
  stopped playing transitioning paused_playback paused_recording recording no_media_present :
      TransportState

-- transport_states
unfoldable pub state_name : TransportState → Text
state_name stopped = codes "STOPPED"
state_name playing = codes "PLAYING"
state_name transitioning = codes "TRANSITIONING"
state_name paused_playback = codes "PAUSED_PLAYBACK"
state_name paused_recording = codes "PAUSED_RECORDING"
state_name recording = codes "RECORDING"
state_name no_media_present = codes "NO_MEDIA_PRESENT"

-- The service with its variables and its collector, the global `transport_state_`, the output, and
-- the event of the action that is handled.
pub record Context (S : Type 0) : Type 0 where
  pub service : Service
  pub transport_state : TransportState
  pub output : Output S
  pub event : ActionEvent

abbrev pub M : Type 0 → Type 0 → Type 0
M S A = Context S → Outcome (A × Context S)

infixl 5 ◌>>=◌ ◌>>◌
unfoldable pub ◌>>=◌ : {S A B : Type 0} → M S A → (A → M S B) → M S B
◌>>=◌ m f ctx = elim (m ctx) [ done (a, ctx') ↦ f a ctx' | fault e ↦ fault e ]

abbrev pub ◌>>◌ : {S A B : Type 0} → M S A → M S B → M S B
m >> k = m >>= λ _. k

abbrev pub return : {S A : Type 0} → A → M S A
return a ctx = done (a, ctx)

-- `assert(b)`
abbrev pub asserted : {S : Type 0} → Bool → M S (Unit {0})
asserted true ctx = done (tt, ctx)
asserted false ctx = fault assertion

-- A string that is read; NULL ends the program.
abbrev pub non_null : {S : Type 0} → Option Text → M S Text
non_null none ctx = fault null_pointer
non_null (some s) ctx = done (s, ctx)

abbrev pub no_result : Outcome Service → Outcome (Unit {0} × Service)
no_result (done s) = done (tt, s)
no_result (fault e) = fault e

-- `uri != NULL && strlen(uri) > 0 ? "1" : "0"`
unfoldable pub track_count : Option Text → Text
track_count none = codes "0"
track_count (some uri) = if ltb 0 (strlen uri) then codes "1" else codes "0"

-- The actions that change_transport_state makes available.
unfoldable pub available_actions : TransportState → Option Text
available_actions stopped = some (codes "PLAY")
available_actions playing = some (codes "PAUSE,STOP,SEEK")
available_actions paused_playback = some (codes "PLAY,STOP")
available_actions _ = none

abbrev pub is_present : TransportState → Bool
is_present no_media_present = false
is_present _ = true

module _ {S : Type 0} where
  -- A function of the service's variables.
  abbrev pub on_service : {A : Type 0} → (Service → Outcome (A × Service)) → M S A
  on_service f ctx = elim (f ctx.service) [
    | done (a, s) ↦ done (a, record ctx { service = s })
    | fault e ↦ fault e
  ]

  -- A call of the output layer.
  abbrev pub on_output : {A : Type 0} → (Output S → A × Output S) → M S A
  on_output f ctx = let (a, o) = f ctx.output in done (a, record ctx { output = o })

  abbrev pub on_output_ : (Output S → Output S) → M S (Unit {0})
  on_output_ f ctx = done (tt, record ctx { output = f ctx.output })

  unfoldable pub get_state : M S TransportState
  get_state ctx = done (ctx.transport_state, ctx)

  unfoldable pub set_state : TransportState → M S (Unit {0})
  set_state new ctx = done (tt, record ctx { transport_state = new })

  -- get_var
  unfoldable pub get_var : ℕ → M S (Option Text)
  get_var varnum ctx = done (get ctx.service (pos varnum), ctx)

  module _ ⦃u : Upnp⦄ where
    -- upnp_get_string on the event
    unfoldable pub fetch : Text → M S (Option Text)
    fetch key ctx =
        let (value, ev) = get_string key ctx.event in done (value, record ctx { event = ev })

    -- upnp_set_error on the event
    unfoldable pub raise : ℤ → Text → M S (Unit {0})
    raise code message ctx = done (tt, record ctx { event = set_error code message ctx.event })

    -- upnp_append_variable on the event and the service
    unfoldable pub append : ℕ → Text → M S (Unit {0})
    append varnum paramname ctx =
        elim (append_variable (pos varnum) paramname ctx.service ctx.event) [
          | done (s, ev) ↦ done (tt, record ctx { service = s; event = ev })
          | fault e ↦ fault e
        ]

    abbrev pub check_instance : Option Text → M S Bool
    check_instance (some value) = return true
    check_instance none = do
      raise upnp_soap_e_invalid_args (codes "Missing InstanceID")
      return false

    -- obtain_instanceid; true where it returns 0
    unfoldable pub obtain_instanceid : M S Bool
    unfolding fetch raise
    obtain_instanceid = do value ← fetch (codes "InstanceID"); check_instance value

    abbrev pub if_obtained : Bool → M S ℤ → M S ℤ
    if_obtained true body = body
    if_obtained false body = return minus_one

    -- `if (obtain_instanceid(event, NULL) < 0) return -1;` and the rest of an action
    abbrev pub with_instanceid : M S ℤ → M S ℤ
    with_instanceid body = do obtained ← obtain_instanceid; if_obtained obtained body

  module _ ⦃x : Ixml⦄ where
    unfoldable pub service_lock : M S (Unit {0})
    service_lock = on_service (λ s. no_result (Collector.service_lock s))

    unfoldable pub service_unlock : M S (Unit {0})
    service_unlock = on_service (λ s. no_result (Collector.service_unlock s))

    -- replace_var
    unfoldable pub replace_var : ℕ → Option Text → M S Bool
    replace_var varnum new_value = on_service (change_var (pos varnum) new_value)

    -- replace_transport_uri_and_meta. No caller reads its result.
    unfoldable pub replace_transport_uri_and_meta : Option Text → Option Text → M S Bool
    replace_transport_uri_and_meta uri meta = do
      replace_var var_av_uri uri
      replace_var var_av_uri_meta meta
      replace_var var_nr_tracks (some (track_count uri))
      text ← non_null meta
      return ((strlen text == 0) || strstr text (codes "object.item.audioItem"))

    -- replace_current_uri_and_meta
    unfoldable pub replace_current_uri_and_meta : Option Text → Option Text → M S Bool
    replace_current_uri_and_meta uri meta = do
      replace_var var_cur_track (some (track_count uri))
      replace_var var_cur_track_uri uri
      replace_var var_cur_track_meta meta

    abbrev pub offer : Option Text → M S (Unit {0})
    offer none = return tt
    offer (some actions) = do replace_var var_cur_transport_actions (some actions); return tt

    abbrev pub if_changed : Bool → M S (Unit {0}) → M S (Unit {0})
    if_changed true body = body
    if_changed false body = return tt

    -- change_transport_state
    unfoldable pub change_transport_state : TransportState → M S (Unit {0})
    change_transport_state new_state = do
      set_state new_state
      asserted (is_present new_state)
      changed ← replace_var var_transport_state (some (state_name new_state))
      if_changed changed (offer (available_actions new_state))
