-- ===== src/Variables/Change.antt =====
-- VariableContainer_change of src/variable-container.c and the collector that it calls back. The
-- two call each other: a flush of the collector changes the LastChange variable of the container
-- that called it. `change` takes the number of calls of itself that may be nested.
use gmrender_resurrect_silan.Base.{
  ℕ, zero, suc, Bool, true, false, Option, none, some, List, [], ◌∷◌, ◌++◌, Text, codes, text_eq,
  or_empty, ltb, ◌==◌, if◌then◌else◌,
}
use gmrender_resurrect_silan.Base.Int.{ℤ, pos, negsuc}
use gmrender_resurrect_silan.Base.Outcome.{
  Outcome, done, fault, assertion, null_pointer, depth, ◌>>=◌,
}
use gmrender_resurrect_silan.Xml.{Ixml}
use gmrender_resurrect_silan.XmlEscape.{xmlescape}
use gmrender_resurrect_silan.Variables.Mask.{testbit}
use gmrender_resurrect_silan.Variables.Builder
use gmrender_resurrect_silan.Variables.Model.{
  Service, Collector, Change, Notification, Listener, collector, external, update, with_collector,
}

-- The change of a variable as the collector's functions call it.
abbrev pub Changer : Type 0
Changer = ℤ → Option Text → Service → Outcome (Bool × Service)

module _ ⦃x : Ixml⦄ where
  -- The document is printed and freed; NULL when none is begun, or when printing fails.
  unfoldable pub to_xml : Builder.Builder → Option Text
  to_xml b = elim (Builder.document b) [ none ↦ none | some e ↦ x.to_string e ]

  -- The one variable that is sent, with its value escaped.
  unfoldable pub notification : Text → Text → Notification
  notification service xml = record {
    notified_service = service;
    variables = (codes "LastChange", xmlescape xml false) ∷ [];
  }

  -- upnp_device_notify, when the LastChange variable did change.
  abbrev pub send : Bool → Text → Text → Service → Service
  send false service xml s = s
  send true service xml s = record s { sent = s.sent ++ notification service xml ∷ [] }

  -- The rest of UPnPLastChangeCollector_notify, once the document is taken out of the builder.
  unfoldable pub publish : Changer → Collector → Option Text → Service → Outcome Service
  publish rec c none s = done s
  publish rec c (some xml) s = do
    (changed, s') ← rec c.last_change_variable_num (some xml) s
    done (send changed c.service_id xml s')

  -- UPnPLastChangeCollector_notify
  unfoldable pub notify : Changer → Collector → Service → Outcome Service
  notify rec c s =
      if c.open_transactions == 0
      then publish rec c (to_xml c.builder)
          (with_collector s (record c { builder = Builder.reset c.builder }))
      else done s

  -- UPnPLastChangeBuilder_add behind its assertion that the name is not NULL.
  unfoldable pub collect : Collector → Option Text → Text → Outcome Collector
  collect c none value = fault assertion
  collect c (some name) value = done (record c { builder = Builder.add c.builder name value })

  -- UPnPLastChangeCollector_callback
  unfoldable pub callback : Changer → Collector → Change → Service → Outcome Service
  callback rec c e s =
      if testbit c.not_eventable_variables e.var_num
      then done s
      else do c' ← collect c e.var_name e.new_value; notify rec c' (with_collector s c')

  -- One call through the list of callbacks.
  unfoldable pub call_back : Changer → Change → Listener → Service → Outcome Service
  call_back rec e collector s = elim s.last_change [
    | none ↦ fault null_pointer
    | some c ↦ callback rec c e s
  ]
  call_back rec e (external n) s = done (record s { heard = s.heard ++ (n, e) ∷ [] })

  unfoldable pub call_all : Changer → Change → List Listener → Service → Outcome Service
  call_all rec e [] s = done s
  call_all rec e (l ∷ ls) s = do s' ← call_back rec e l s; call_all rec e ls s'

  -- VariableContainer_change after its assertion.
  unfoldable pub change_value : Changer → ℕ → Text → Service → Outcome (Bool × Service)
  change_value rec i value s =
      let e : Change = record {
        var_num = i;
        var_name = s.variable_names i;
        old_value = s.values i;
        new_value = value;
      } in
      if text_eq value (s.values i) then done (false, s) else do
        s' ← call_all rec e s.callbacks (record s { values = update s.values i value })
        done (true, s')

  unfoldable pub change : ℕ → Changer
  change zero i value s = fault depth
  change (suc d) (negsuc n) value s = fault assertion
  change (suc d) (pos i) value s =
      if ltb i s.variable_num then change_value (change d) i (or_empty value) s else fault assertion

  -- How deep changes nest: the change of a variable, and that of LastChange inside it.
  abbrev pub nesting : ℕ
  nesting = 2

  -- The function that the other files call.
  unfoldable pub change_var : Changer
  unfolding change
  change_var = change nesting
