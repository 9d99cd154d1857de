-- ===== src/Transport/Setup.antt =====
-- The start of the AVTransport service in src/upnp_transport.c: upnp_transport_get_service and
-- upnp_transport_init.
use gmrender_resurrect_silan.Base.{Option, none, some}
use gmrender_resurrect_silan.Base.Outcome.{Outcome, done, fault, assertion, ◌>>=◌}
use gmrender_resurrect_silan.Xml.{Ixml}
use gmrender_resurrect_silan.Action.{ActionEvent}
use gmrender_resurrect_silan.Output.{Output, output_set_transport_callback}
use gmrender_resurrect_silan.Variables.Model.{Service, Collector}
use gmrender_resurrect_silan.Variables.Collector
use gmrender_resurrect_silan.Transport.Table.{
  transport_variable_names, transport_default_values, transport_event_xml_ns, transport_service_id,
  var_count, var_rel_time_pos, var_abs_time_pos, var_rel_ctr_pos, var_abs_ctr_pos,
}
use gmrender_resurrect_silan.Transport.Model.{Context, stopped}

-- The container that upnp_transport_get_service makes on its first call.
unfoldable pub get_service : Outcome Service
get_service = Collector.new_container var_count transport_variable_names transport_default_values

-- The variables that no event is sent for.
abbrev pub ignore_times : Service → Service
ignore_times s = Collector.ignore var_abs_ctr_pos (
    Collector.ignore var_rel_ctr_pos
      (Collector.ignore var_abs_time_pos (Collector.ignore var_rel_time_pos s)))

module _ ⦃x : Ixml⦄ where
  -- The collector of upnp_transport_init, behind its assertion that there is none.
  unfoldable pub init_collector : Option Collector → Service → Outcome Service
  init_collector (some c) s = fault assertion
  init_collector none s = do
    s' ← Collector.new_collector (some transport_event_xml_ns) transport_service_id s
    done (ignore_times s')

  -- upnp_transport_init
  unfoldable pub init : {S : Type 0} → Service → Output S → Outcome (Service × Output S)
  unfolding init_collector
  init service output = do
    s ← init_collector service.last_change service
    done (s, output_set_transport_callback output)

  -- The start of the service, up to its first request; `transport_state_` is initially stopped.
  unfoldable pub boot : {S : Type 0} → ActionEvent → Output S → Outcome (Context S)
  unfolding get_service init
  boot ev output = do
    service ← get_service
    (s, o) ← init service output
    done (record { service = s; transport_state = stopped; output = o; event = ev })
