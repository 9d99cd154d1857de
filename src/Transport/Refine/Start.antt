-- ===== src/Transport/Refine/Start.antt =====
-- The start of src/upnp_transport.c against the Player that the service starts with.
use gmrender_resurrect_silan.Base.{
  ℕ, ◌≡◌, ◌≢◌, refl, ◌∙◌, true, false, none, some, [], or_empty, arith,
}
use gmrender_resurrect_silan.Base.Int.{ℤ, pos, minus_one}
use gmrender_resurrect_silan.Base.Outcome.{done}
use gmrender_resurrect_silan.Xml.{Ixml}
use gmrender_resurrect_silan.Action.{ActionEvent}
use gmrender_resurrect_silan.Output.{Output, output_set_transport_callback}
use gmrender_resurrect_silan.Variables.Mask.{testbit, set_bit, testbit-set_bit}
use gmrender_resurrect_silan.Variables.Builder
use gmrender_resurrect_silan.Variables.Model.{
  Service, Collector, collector, get, with_collector, register_callback,
}
use gmrender_resurrect_silan.Variables.Change.{notify, change_var}
use gmrender_resurrect_silan.Variables.Collector
use gmrender_resurrect_silan.Variables.Frame.{IsSettled, open_count}
use gmrender_resurrect_silan.Variables.Nesting.{notify-Settles}
use gmrender_resurrect_silan.Transport.Table.{
  transport_variable_names, transport_default_values, transport_event_xml_ns, transport_service_id,
}
use gmrender_resurrect_silan.Transport.Model.{Context, stopped}
use gmrender_resurrect_silan.Transport.Player.{Player}
use gmrender_resurrect_silan.Transport.Setup
use gmrender_resurrect_silan.Transport.Simulation.{Sim}

-- The Player that the service starts with.
abbrev pub initial_player : {S : Type 0} → ActionEvent → Output S → Player S
initial_player ev output = record {
  vars = λ i. or_empty (transport_default_values i);
  state = stopped;
  output = output_set_transport_callback output;
  event = ev;
}

-- The container before it has a collector.
abbrev fresh : Service
fresh = record {
  variable_num = 31;
  variable_names = transport_variable_names;
  values = λ i. or_empty (transport_default_values i);
  callbacks = [];
  last_change = none;
  locked = false;
  sent = [];
  heard = [];
}

get_service-fresh : Setup.get_service ≡ done fresh
unfolding Setup.get_service Collector.new_container
get_service-fresh = refl

abbrev scanned : Builder.Builder × ℤ
scanned = Collector.scan fresh 31 0 (Builder.new_builder (some transport_event_xml_ns), minus_one)

-- LastChange is variable 26.
scan-last_change : scanned.1 ≡ pos 26
unfolding Collector.scan Collector.scan_one get transport_variable_names transport_default_values
scan-last_change = refl

open_count-some :
    (c : Collector) (s : Service) → s.last_change ≡ some c → c.open_transactions ≡ open_count s
open_count-some c s l = ground arith

-- A view survives what the start does after the first LastChange is published.
record Ready (s : Service) : Type 0 where
  settled : IsSettled 26 s
  ready_num : s.variable_num ≡ 31
  ready_names : s.variable_names ≡ transport_variable_names
  ready_lock : s.locked ≡ false
  ready_open : open_count s ≡ 0
  ready_values : (j : ℕ) → 26 ≢ j → s.values j ≡ or_empty (transport_default_values j)

register-Ready : (s : Service) → Ready s → Ready (register_callback collector s)
unfolding register_callback
register-Ready s r = record {
  settled = record {
    keeper = r.settled.keeper;
    kept = r.settled.kept;
    number = r.settled.number;
    within = r.settled.within;
    ignored = r.settled.ignored;
  };
  ready_num = r.ready_num;
  ready_names = r.ready_names;
  ready_lock = r.ready_lock;
  ready_open = r.ready_open;
  ready_values = r.ready_values;
}

ignore-some :
    (i : ℕ) (c : Collector) (s : Service)
    → s.last_change ≡ some c
    → Collector.ignore i s ≡ with_collector s (Collector.add_ignore c i)
unfolding Collector.ignore
ignore-some i c s l = ground arith

ignore-Ready : (i : ℕ) (s : Service) → Ready s → Ready (Collector.ignore i s)
ignore-Ready i s r =
    let c = r.settled.keeper in
    let mask = c.not_eventable_variables in
    rw (ignore-some i c s r.settled.kept) (record {
      settled = record {
        keeper = Collector.add_ignore c i;
        kept = refl;
        number = r.settled.number;
        within = r.settled.within;
        ignored = ground (arith, testbit-set_bit mask i 26, r.settled.ignored);
      };
      ready_num = r.ready_num;
      ready_names = r.ready_names;
      ready_lock = r.ready_lock;
      ready_open = open_count-some c s r.settled.kept ∙ r.ready_open;
      ready_values = r.ready_values;
    })

module _ ⦃x : Ixml⦄ where
  abbrev first_collector : Collector
  first_collector = record {
    last_change_variable_num = pos 26;
    not_eventable_variables = set_bit 0 26;
    service_id = transport_service_id;
    open_transactions = 0;
    builder = scanned.0;
  }

  first_ignored : testbit (set_bit 0 26) 26 ≡ true
  first_ignored = ground (arith, testbit-set_bit 0 26 26)

  open_collector-runs :
      (b : Builder.Builder) (k : ℤ) (t : Service)
      → k ≡ pos 26
      → notify change_var
          (record first_collector { builder = b })
          (with_collector fresh (record first_collector { builder = b }))
        ≡ done t
      → Collector.open_collector transport_service_id fresh (b, k)
        ≡ done (register_callback collector t)
  unfolding Collector.open_collector
  open_collector-runs b k t e runs = rw (e, runs)

  new_collector-runs :
      (t : Service) × (Collector.new_collector
          (some transport_event_xml_ns)
          transport_service_id
          fresh
        ≡ done (register_callback collector t))
      × Ready t
  unfolding Collector.new_collector change_var
  new_collector-runs =
      let s = with_collector fresh first_collector in
      let (t, runs, settled, framed) =
        notify-Settles 26 first_collector s refl refl (omega arith) first_ignored in
      (
        t,
        open_collector-runs scanned.0 scanned.1 t scan-last_change (runs 1),
        record {
          settled = settled;
          ready_num = framed.same_num;
          ready_names = framed.same_names;
          ready_lock = framed.same_lock;
          ready_open = framed.same_open;
          ready_values = framed.same_values;
        },
      )

  init-Ready : (t : Service) × (Setup.init_collector none fresh ≡ done t) × Ready t
  unfolding Setup.init_collector
  init-Ready =
      let (t, runs, ready) = new_collector-runs in
      let r = register_callback collector t in
      (
        Setup.ignore_times r,
        rw runs,
        ignore-Ready 19 _
            (ignore-Ready 4 _ (ignore-Ready 13 _ (ignore-Ready 8 r (register-Ready t ready)))),
      )

  boot-done :
      {S : Type 0} (ev : ActionEvent) (output : Output S) (t : Service)
      → Setup.init_collector none fresh ≡ done t
      → Setup.boot ev output
        ≡ done (record {
          service = t;
          transport_state = stopped;
          output = output_set_transport_callback output;
          event = ev;
        })
  unfolding Setup.boot Setup.init Setup.get_service Collector.new_container
  boot-done ev output t e = rw e

  pub boot-runs :
      {S : Type 0} (ev : ActionEvent) (output : Output S)
      → (ctx : Context S) × (Setup.boot ev output ≡ done ctx)
        × Sim false 0 ctx (initial_player ev output)
  boot-runs ev output =
      let (t, runs, r) = init-Ready in
      (
        record {
          service = t;
          transport_state = stopped;
          output = output_set_transport_callback output;
          event = ev;
        },
        boot-done ev output t runs,
        record {
          shows = record {
            settled = r.settled;
            shown_num = r.ready_num;
            shown_names = r.ready_names;
            shown_lock = r.ready_lock;
            shown_open = r.ready_open;
            shown_values = r.ready_values;
          };
          same_state = refl;
          same_output = refl;
          same_event = refl;
        },
      )
