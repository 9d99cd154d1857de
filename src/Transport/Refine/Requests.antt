-- ===== src/Transport/Refine/Requests.antt =====
-- Requests to the AVTransport service and calls from the output (src/upnp_device.c,
-- src/upnp_transport.c) against their effects on a Player.
use gmrender_resurrect_silan.Base.{
  ℕ, ◌+◌, ◌≡◌, refl, ap, arith, Bool, true, false, Option, none, some, List, [], ◌∷◌, Text,
}
use gmrender_resurrect_silan.Base.Int.{ℤ, pos, minus_one}
use gmrender_resurrect_silan.Base.Outcome.{Outcome, done}
use gmrender_resurrect_silan.Xml.{Ixml}
use gmrender_resurrect_silan.Action.{Upnp, Request, ActionEvent}
use gmrender_resurrect_silan.Variables.Model.{Service, Collector, lock, unlock}
use gmrender_resurrect_silan.Variables.Collector
use gmrender_resurrect_silan.Variables.View.{Shows, service_lock-shown, service_unlock-shown}
use gmrender_resurrect_silan.Transport.Table.{transport_variable_names}
use gmrender_resurrect_silan.Transport.Model.{Context, on_service, no_result}
use gmrender_resurrect_silan.Transport.Player.{
  Player, feedback_effect, Action, effect, get_current_transport_actions, get_device_capabilities,
  get_media_info, get_position_info, get_transport_info, get_transport_settings, pause, play, seek,
  set_av_transport_uri, set_next_av_transport_uri, stop,
}
use gmrender_resurrect_silan.Transport.Request.{
  transport_actions, find_action, answer, new_event, unknown_action, Step, asked, told, handler,
  open_request, close_request, handle_found, handle_action_request, respond, step, steps,
}
use gmrender_resurrect_silan.Transport.Simulation.{
  Sim, Runs, runs-bind, return-runs, Shows-lock, on_service-done,
}
use gmrender_resurrect_silan.Transport.Refine.Instance.{Refines}
use gmrender_resurrect_silan.Transport.Refine.Handlers.{stop-runs, play-runs, pause_stream-runs}
use gmrender_resurrect_silan.Transport.Refine.Getters.{
  get_transport_settings-runs, get_device_caps-runs, get_current_transportactions-runs,
  get_transport_info-runs, get_media_info-runs, get_position_info-runs,
}
use gmrender_resurrect_silan.Transport.Refine.Setters.{
  set_avtransport_uri-runs, set_next_avtransport_uri-runs, seek-runs, transition_from_output-runs,
}

module _ {S : Type 0} ⦃u : Upnp⦄ where
  -- What a request does to a Player.
  abbrev pub found_effect : Option Action → Request → Player S → ℤ × Player S
  found_effect none request p = (minus_one, record p { event = new_event (unknown_action request) })
  found_effect (some a) request p =
      let (rc, q) = effect a (record p { event = new_event request }) in
      (pos 0, record q { event = answer rc q.event })

  abbrev pub request_effect : Request → Player S → ℤ × Player S
  request_effect request = found_effect (find_action transport_actions request.action_name) request

  abbrev pub step_effect : Step → Player S → Player S
  step_effect (asked request) p = (request_effect request p).1
  step_effect (told fb) p = feedback_effect fb p

  abbrev pub steps_effect : List Step → Player S → Player S
  steps_effect [] p = p
  steps_effect (st ∷ rest) p = steps_effect rest (step_effect st p)

open_request-found :
    ⦃x : Ixml⦄ (c : Collector) (s t : Service)
    → s.last_change ≡ some c
    → Collector.service_lock s ≡ done t
    → open_request s ≡ done (unlock t)
unfolding open_request
open_request-found c s t l e = ground arith

close_request-found :
    ⦃x : Ixml⦄ (c : Collector) (s t : Service)
    → s.last_change ≡ some c
    → s.locked ≡ false
    → Collector.service_unlock (record s { locked = true }) ≡ done t
    → close_request s ≡ done t
unfolding close_request lock
close_request-found c s t l free e = ground arith

unlock-shown :
    (n : ℕ) (t : Service) (f : ℕ → Text)
    → Shows 26 31 transport_variable_names true (n + 1) t f
    → Shows 26 31 transport_variable_names false (n + 1) (unlock t) f
unfolding unlock
unlock-shown n t f w = Shows-lock true false (n + 1) t f w

module _ {S : Type 0} ⦃u : Upnp⦄ ⦃x : Ixml⦄ where
  on_service-runs :
      (n m : ℕ) (f : Service → Outcome Service) (ctx : Context S) (p : Player S) (t : Service)
      → f ctx.service ≡ done t
      → Shows 26 31 transport_variable_names false m t p.vars
      → Sim false n ctx p
      → Runs false m (on_service (λ s. no_result (f s))) ctx tt p
  on_service-runs n m f ctx p t e w v = (
    record ctx { service = t },
    on_service-done (λ s. no_result (f s)) ctx tt t (ap no_result e),
    record {
      shows = w;
      same_state = v.same_state;
      same_output = v.same_output;
      same_event = v.same_event;
    },
  )

  open_request-runs :
      (n : ℕ) (ctx : Context S) (p : Player S)
      → Sim false n ctx p
      → Runs false (n + 1) (on_service (λ s. no_result (open_request s))) ctx tt p
  open_request-runs n ctx p v =
      let (t, e, w) =
        service_lock-shown 26 31 transport_variable_names n ctx.service p.vars v.shows in
      on_service-runs n (n + 1) open_request ctx p (unlock t)
        (open_request-found v.shows.settled.keeper ctx.service t v.shows.settled.kept e)
        (unlock-shown n t p.vars w) v

  close_request-runs :
      (n : ℕ) (ctx : Context S) (p : Player S)
      → Sim false (n + 1) ctx p
      → Runs false n (on_service (λ s. no_result (close_request s))) ctx tt p
  close_request-runs n ctx p v =
      let s = ctx.service in
      let held = Shows-lock false true (n + 1) s p.vars v.shows in
      let (t, e, w) =
        service_unlock-shown 26 31 transport_variable_names n (record s { locked = true }) p.vars
          held in
      on_service-runs (n + 1) n close_request ctx p t
        (close_request-found v.shows.settled.keeper s t v.shows.settled.kept v.shows.shown_lock e) w
        v

  event-runs :
      (h : Bool) (n : ℕ) (ev : ActionEvent) (ctx : Context S) (p : Player S)
      → Sim h n ctx p
      → Sim h n (record ctx { event = ev }) (record p { event = ev })
  event-runs h n ev ctx p v = record {
    shows = v.shows;
    same_state = v.same_state;
    same_output = v.same_output;
    same_event = refl;
  }

  pub handler-runs : (a : Action) → Refines S (handler a) (effect a)
  unfolding handler
  handler-runs get_current_transport_actions = get_current_transportactions-runs
  handler-runs get_device_capabilities = get_device_caps-runs
  handler-runs get_media_info = get_media_info-runs
  handler-runs get_position_info = get_position_info-runs
  handler-runs get_transport_info = get_transport_info-runs
  handler-runs get_transport_settings = get_transport_settings-runs
  handler-runs pause = pause_stream-runs
  handler-runs play = play-runs
  handler-runs seek = seek-runs
  handler-runs set_av_transport_uri = set_avtransport_uri-runs
  handler-runs set_next_av_transport_uri = set_next_avtransport_uri-runs
  handler-runs stop = stop-runs

  respond-runs :
      (h : Bool) (n : ℕ) (rc : ℤ) (ctx : Context S) (p : Player S)
      → Sim h n ctx p
      → Runs h n (respond rc) ctx tt (record p { event = answer rc p.event })
  respond-runs h n rc ctx p v = (
    record ctx { event = answer rc ctx.event },
    refl,
    record {
      shows = v.shows;
      same_state = v.same_state;
      same_output = v.same_output;
      same_event = ap (answer rc) v.same_event;
    },
  )

  handle_found-runs :
      (found : Option Action) (request : Request)
      → Refines S (handle_found found request) (found_effect found request)
  unfolding handle_found
  handle_found-runs none request n ctx p v = (_, refl, event-runs false n _ ctx p v)
  handle_found-runs (some a) request n ctx p v =
      let ev = new_event request in
      let q : Player S = record p { event = ev } in
      let r = effect a q in
      runs-bind _ (record ctx { event = ev }, refl, event-runs false n ev ctx p v)
        λ c w. runs-bind _ (open_request-runs n c q w) λ c w.
          runs-bind _ (handler-runs a (n + 1) c q w) λ c w.
            runs-bind _ (respond-runs false (n + 1) r.0 c r.1 w)
              λ c w. runs-bind _ (close_request-runs n c _ w) λ c w. return-runs w

  pub handle_action_request-runs :
      (request : Request) → Refines S (handle_action_request request) (request_effect request)
  unfolding handle_action_request
  handle_action_request-runs request =
      handle_found-runs (find_action transport_actions request.action_name) request

  pub step-runs :
      (st : Step) (n : ℕ) (ctx : Context S) (p : Player S)
      → Sim false n ctx p
      → Runs false n (step st) ctx tt (step_effect st p)
  step-runs (asked request) n ctx p v =
      runs-bind _ (handle_action_request-runs request n ctx p v) λ c w. return-runs w
  step-runs (told fb) n ctx p v = transition_from_output-runs n fb ctx p v

  pub steps-runs :
      (sts : List Step) (n : ℕ) (ctx : Context S) (p : Player S)
      → Sim false n ctx p
      → Runs false n (steps sts) ctx tt (steps_effect sts p)
  unfolding steps
  steps-runs [] n ctx p v = return-runs v
  steps-runs (st ∷ rest) n ctx p v =
      runs-bind _ (step-runs st n ctx p v) λ c w. steps-runs rest n c _ w
