-- ===== src/Scpd/Whole.antt =====
-- The SCPD document that src/upnp.c makes of tables in which every text is set. A text that is not
-- set has no text node here, where the program would have ended.
use gmrender_resurrect_silan.Base.{
  ℕ, zero, suc, Option, none, some, List, [], ◌∷◌, Text, codes, if◌then◌else◌,
}
use gmrender_resurrect_silan.Base.Int.{pos}
use gmrender_resurrect_silan.Xml.{
  Element, xmlelement_new, xmlelement_set_attribute, xmlelement_add_element, xmldoc_new_topelement,
  add_value_element,
}
use gmrender_resurrect_silan.Scpd.{
  Argument, VarMeta, Described, datatype_name, add_value_element_int, gen_specversion,
  direction_name, add_allowed_values, with_values, with_range, with_default,
}

abbrev pub with_text : Element → Text → Option Text → Element
with_text parent tagname none = xmlelement_add_element parent (xmlelement_new tagname)
with_text parent tagname (some value) = add_value_element parent tagname value

unfoldable pub whole_argument : (ℕ → Option Text) → Argument → Element
unfolding xmlelement_new add_value_element xmlelement_add_element
whole_argument varnames arg =
    with_text
      (add_value_element
        (add_value_element (xmlelement_new (codes "argument")) (codes "name") arg.arg_name)
        (codes "direction") (direction_name arg.direction))
      (codes "relatedStateVariable") (varnames arg.statevar)

unfoldable pub whole_arguments : (ℕ → Option Text) → List Argument → Element → Element
unfolding whole_argument xmlelement_add_element
whole_arguments varnames [] parent = parent
whole_arguments varnames (arg ∷ args) parent =
    whole_arguments varnames args (xmlelement_add_element parent (whole_argument varnames arg))

abbrev pub with_arguments : (ℕ → Option Text) → Option (List Argument) → Element → Element
with_arguments varnames none top = top
with_arguments varnames (some args) top =
    xmlelement_add_element top
      (whole_arguments varnames args (xmlelement_new (codes "argumentList")))

unfoldable pub whole_action : Option Text → Option (List Argument) → (ℕ → Option Text) → Element
unfolding whole_arguments xmlelement_new add_value_element xmlelement_add_element
whole_action action_name arglist varnames =
    with_arguments varnames arglist
      (with_text (xmlelement_new (codes "action")) (codes "name") action_name)

unfoldable pub whole_actions : Described → ℕ → ℕ → Element → Element
unfolding whole_action xmlelement_add_element
whole_actions srv zero i top = top
whole_actions srv (suc rounds) i top = whole_actions srv rounds (suc i) (
    xmlelement_add_element top
      (whole_action (srv.action_names i) (srv.action_arguments i) srv.described_names))

unfoldable pub whole_actionlist : Described → Element
unfolding whole_actions xmlelement_new
whole_actionlist srv = whole_actions srv srv.command_count 0 (xmlelement_new (codes "actionList"))

unfoldable pub whole_named_statevar : Option Text → VarMeta → Element
unfolding xmlelement_new xmlelement_set_attribute xmlelement_add_element add_value_element
    datatype_name
whole_named_statevar name meta =
    with_text
      (with_text
        (xmlelement_set_attribute (xmlelement_new (codes "stateVariable")) (codes "sendEvents")
          (if meta.sendevents then codes "yes" else codes "no"))
        (codes "name") name)
      (codes "dataType") (datatype_name meta.datatype)

unfoldable pub whole_statevar : Option Text → VarMeta → Element
unfolding whole_named_statevar add_allowed_values xmlelement_new xmlelement_add_element
    add_value_element add_value_element_int
whole_statevar name meta = with_default meta.default_value (
    with_range meta.allowed_range
      (with_values meta.allowed_values (whole_named_statevar name meta)))

unfoldable pub whole_statevars : Described → ℕ → ℕ → Element → Element
unfolding whole_statevar xmlelement_add_element
whole_statevars srv zero i top = top
whole_statevars srv (suc rounds) i top =
    whole_statevars srv rounds (suc i)
      (xmlelement_add_element top (whole_statevar (srv.described_names i) (srv.variable_meta i)))

unfoldable pub whole_servicestatetable : Described → Element
unfolding whole_statevars xmlelement_new
whole_servicestatetable srv =
    whole_statevars srv srv.described_count 0 (xmlelement_new (codes "serviceStateTable"))

unfoldable pub whole_scpd : Described → Element
unfolding gen_specversion whole_actionlist whole_servicestatetable xmldoc_new_topelement
    xmlelement_add_element
whole_scpd srv =
    xmlelement_add_element
      (xmlelement_add_element
        (xmlelement_add_element
          (xmldoc_new_topelement (codes "scpd") (some (codes "urn:schemas-upnp-org:service-1-0")))
          (gen_specversion (pos 1) (pos 0)))
        (whole_actionlist srv))
      (whole_servicestatetable srv)
