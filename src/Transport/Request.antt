-- ===== src/Transport/Request.antt =====
-- The table `transport_actions` of src/upnp_transport.c, `find_action` of src/upnp.c, and
-- `handle_action_request` of src/upnp_device.c for a request to the AVTransport service.
use gmrender_resurrect_silan.Base.{
  Option, none, some, List, [], ◌∷◌, Text, codes, text_eq, if◌then◌else◌,
}
use gmrender_resurrect_silan.Base.Int.{ℤ, pos, minus_one, is_zero}
use gmrender_resurrect_silan.Base.Outcome.{Outcome, done, fault}
use gmrender_resurrect_silan.Xml.{Ixml}
use gmrender_resurrect_silan.Action.{Upnp, Request, ActionEvent, upnp_e_success}
use gmrender_resurrect_silan.Variables.Model.{Service, lock, unlock}
use gmrender_resurrect_silan.Variables.Collector
use gmrender_resurrect_silan.Output.{PlayFeedback}
use gmrender_resurrect_silan.Transport.Model.{M, ◌>>=◌, ◌>>◌, return, no_result, on_service}
use gmrender_resurrect_silan.Transport.Actions
use gmrender_resurrect_silan.Transport.Actions.{transition_from_output}
use gmrender_resurrect_silan.Transport.Player.{
  Action, get_current_transport_actions, get_device_capabilities, get_media_info, get_position_info,
  get_transport_info, get_transport_settings, pause, play, seek, set_av_transport_uri,
  set_next_av_transport_uri, stop,
}

-- TRANSPORT_TYPE
abbrev pub transport_type : Text
transport_type = codes "urn:schemas-upnp-org:service:AVTransport:1"

-- transport_actions, in the order of `transport_cmd`
abbrev pub transport_actions : List (Text × Action)
transport_actions =
    (codes "GetCurrentTransportActions", get_current_transport_actions)
    ∷ (codes "GetDeviceCapabilities", get_device_capabilities)
    ∷ (codes "GetMediaInfo", get_media_info)
    ∷ (codes "GetPositionInfo", get_position_info)
    ∷ (codes "GetTransportInfo", get_transport_info)
    ∷ (codes "GetTransportSettings", get_transport_settings)
    ∷ (codes "Pause", pause)
    ∷ (codes "Play", play)
    ∷ (codes "Seek", seek)
    ∷ (codes "SetAVTransportURI", set_av_transport_uri)
    ∷ (codes "Stop", stop)
    ∷ (codes "SetNextAVTransportURI", set_next_av_transport_uri)
    ∷ []

-- find_action, for a service that was found
unfoldable pub find_action : List (Text × Action) → Text → Option Action
find_action [] action_name = none
find_action ((name, a) ∷ rest) action_name =
    if text_eq name action_name then some a else find_action rest action_name

-- How a request ends in handle_action_request: what its handler returned decides the error code, and
-- a response that is missing is made.
unfoldable pub answer : ⦃u : Upnp⦄ → ℤ → ActionEvent → ActionEvent
answer ⦃u⦄ rc ev = record ev {
  request = record (ev.request) {
    err_code = if is_zero rc then upnp_e_success else ev.request.err_code;
    action_result = elim ev.request.action_result [
      | none ↦ u.make_action_response ev.request.action_name ev.service_type
      | some e ↦ some e
    ];
  };
}

-- The `struct action_event` for a request.
abbrev pub new_event : Request → ActionEvent
new_event request = record { request = request; status = pos 0; service_type = transport_type }

-- The request whose action is not known.
abbrev pub unknown_action : Request → Request
unknown_action request = record request { action_result = none; err_code = pos 401 }

-- What happens to the service: a request for an action, or a call from the output.
pub data Step : Type 0 where
  asked : Request → Step
  told : PlayFeedback → Step

module _ ⦃x : Ixml⦄ where
  -- The transaction that handle_action_request puts around the handler, if there is a collector.
  unfoldable pub open_request : Service → Outcome Service
  open_request s = elim s.last_change [
    | none ↦ done s
    | some c ↦ (elim (Collector.service_lock s) [ done t ↦ done (unlock t) | fault e ↦ fault e ])
  ]

  unfoldable pub close_request : Service → Outcome Service
  close_request s = elim s.last_change [
    | none ↦ done s
    | some c ↦ (elim (lock s) [ done t ↦ Collector.service_unlock t | fault e ↦ fault e ])
  ]

module _ {S : Type 0} ⦃u : Upnp⦄ where
  abbrev pub receive : Request → M S (Unit {0})
  receive request ctx = done (tt, record ctx { event = new_event request })

  abbrev pub respond : ℤ → M S (Unit {0})
  respond rc ctx = done (tt, record ctx { event = answer rc ctx.event })

  module _ ⦃x : Ixml⦄ where
    unfoldable pub handler : Action → M S ℤ
    handler get_current_transport_actions = Actions.get_current_transportactions
    handler get_device_capabilities = Actions.get_device_caps
    handler get_media_info = Actions.get_media_info
    handler get_position_info = Actions.get_position_info
    handler get_transport_info = Actions.get_transport_info
    handler get_transport_settings = Actions.get_transport_settings
    handler pause = Actions.pause_stream
    handler play = Actions.play
    handler seek = Actions.seek
    handler set_av_transport_uri = Actions.set_avtransport_uri
    handler set_next_av_transport_uri = Actions.set_next_avtransport_uri
    handler stop = Actions.stop

    unfoldable pub handle_found : Option Action → Request → M S ℤ
    unfolding handler open_request close_request
    handle_found none request ctx =
        done (minus_one, record ctx { event = new_event (unknown_action request) })
    handle_found (some a) request ctx =
        (receive request >> do
          on_service (λ s. no_result (open_request s))
          rc ← handler a
          respond rc
          on_service (λ s. no_result (close_request s))
          return (pos 0))
          ctx

    -- handle_action_request
    unfoldable pub handle_action_request : Request → M S ℤ
    unfolding handle_found
    handle_action_request request =
        handle_found (find_action transport_actions request.action_name) request

    abbrev pub step : Step → M S (Unit {0})
    step (asked request) = do handle_action_request request; return tt
    step (told fb) = transition_from_output fb

    -- A sequence of steps, each ended before the next begins.
    unfoldable pub steps : List Step → M S (Unit {0})
    steps [] = return tt
    steps (st ∷ rest) = do step st; steps rest
