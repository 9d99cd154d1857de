-- ===== src/Variables/Collector.antt =====
-- The life of a collector (src/variable-container.c) and the two functions `service_lock` and
-- `service_unlock`, which src/upnp_transport.c and src/upnp_control.c have alike.
use gmrender_resurrect_silan.Base.{
  ℕ, zero, suc, ◌+◌, ◌-◌, false, Option, none, some, [], Text, codes, text_eq, or_empty, ltb,
  if◌then◌else◌,
}
use gmrender_resurrect_silan.Base.Int.{ℤ, pos, negsuc, minus_one}
use gmrender_resurrect_silan.Base.Outcome.{Outcome, done, fault, assertion, ◌>>=◌, ◌>>◌, assert}
use gmrender_resurrect_silan.Xml.{Ixml}
use gmrender_resurrect_silan.Variables.Mask.{set_bit}
use gmrender_resurrect_silan.Variables.Builder
use gmrender_resurrect_silan.Variables.Model.{
  Service, Collector, collector, with_collector, get, register_callback, lock, unlock,
}
use gmrender_resurrect_silan.Variables.Change.{notify, change_var}

-- VariableContainer_new, over the tables of names and of initial values.
unfoldable pub new_container : ℕ → (ℕ → Option Text) → (ℕ → Option Text) → Outcome Service
new_container variable_num variable_names variable_init_values = do
  assert (ltb 0 variable_num)
  done (record {
    variable_num = variable_num;
    variable_names = variable_names;
    values = λ i. or_empty (variable_init_values i);
    callbacks = [];
    last_change = none;
    locked = false;
    sent = [];
    heard = [];
  })

-- One round of the loop of UPnPLastChangeCollector_new, on the builder and on
-- `last_change_variable_num`.
unfoldable pub scan_one : Service → ℕ → Builder.Builder × ℤ → Builder.Builder × ℤ
scan_one s i (b, k) = elim (get s (pos i)) [
  | none ↦ (b, k)
  | some value ↦
      let name = or_empty (s.variable_names i) in
      if text_eq (codes "LastChange") name then (b, pos i) else (Builder.add b name value, k)
]

-- The rounds from `i` on.
unfoldable pub scan : Service → ℕ → ℕ → Builder.Builder × ℤ → Builder.Builder × ℤ
scan s zero i found = found
scan s (suc rounds) i found = scan s rounds (suc i) (scan_one s i found)

abbrev pub add_ignore : Collector → ℕ → Collector
add_ignore c variable_num = record c {
  not_eventable_variables = set_bit c.not_eventable_variables variable_num;
}

-- UPnPLastChangeCollector_add_ignore for the collector of a service.
unfoldable pub ignore : ℕ → Service → Service
ignore variable_num s = elim s.last_change [
  | none ↦ s
  | some c ↦ with_collector s (add_ignore c variable_num)
]

module _ ⦃x : Ixml⦄ where
  -- The rest of UPnPLastChangeCollector_new: the LastChange variable must have been found.
  unfoldable pub open_collector : Text → Service → Builder.Builder × ℤ → Outcome Service
  open_collector service_id s (b, negsuc n) = fault assertion
  open_collector service_id s (b, pos k) =
      let c : Collector = record {
        last_change_variable_num = pos k;
        not_eventable_variables = set_bit 0 k;
        service_id = service_id;
        open_transactions = 0;
        builder = b;
      } in
      do s' ← notify change_var c (with_collector s c); done (register_callback collector s')

  unfoldable pub new_collector : Option Text → Text → Service → Outcome Service
  unfolding open_collector
  new_collector event_xml_namespace service_id s = do
    assert (ltb s.variable_num 32)
    open_collector service_id s
        (scan s s.variable_num 0 (Builder.new_builder event_xml_namespace, minus_one))

  unfoldable pub start : Collector → Collector
  start c = record c { open_transactions = c.open_transactions + 1 }

  unfoldable pub finish : Collector → Service → Outcome Service
  finish c s = do
    assert (ltb 0 c.open_transactions)
    let c' : Collector = record c { open_transactions = c.open_transactions - 1 }
    notify change_var c' (with_collector s c')

  unfoldable pub start_open : Service → Service
  unfolding start
  start_open s = elim s.last_change [ none ↦ s | some c ↦ with_collector s (start c) ]

  unfoldable pub finish_open : Service → Outcome Service
  unfolding finish
  finish_open s = elim s.last_change [ none ↦ done s | some c ↦ finish c s ]

  unfoldable pub service_lock : Service → Outcome Service
  unfolding start_open
  service_lock s = do s' ← lock s; done (start_open s')

  unfoldable pub service_unlock : Service → Outcome Service
  unfolding finish_open
  service_unlock s = do s' ← finish_open s; done (unlock s')
