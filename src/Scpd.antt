-- ===== src/Scpd.antt =====
-- The description of a service in src/upnp.c, the SCPD document, and the tables of src/upnp.h that it
-- is generated from.
pub mod Whole
pub mod Complete
pub mod Aborts
pub mod Reading
pub mod Declared
pub mod Related
pub mod Tables
use gmrender_resurrect_silan.Base.{
  ℕ, zero, suc, Bool, true, false, Option, none, some, List, [], ◌∷◌, Text, codes, if◌then◌else◌,
}
use gmrender_resurrect_silan.Base.Int.{ℤ, pos, is_zero}
use gmrender_resurrect_silan.Base.Outcome.{Outcome, done, fault, assertion, ◌>>=◌}
use gmrender_resurrect_silan.Decimal.{print_int}
use gmrender_resurrect_silan.Xml.{
  Element, xmlelement_new, xmlelement_set_attribute, xmlelement_add_element, xmldoc_new_topelement,
  add_value_element,
}

-- param_dir
pub data ParamDir : Type 0 where
  dir_in dir_out : ParamDir

-- struct argument
pub record Argument : Type 0 where
  pub arg_name : Text
  pub direction : ParamDir
  pub statevar : ℕ

-- param_datatype
pub data ParamDatatype : Type 0 where
  type_string type_boolean type_i2 type_i4 type_ui2 type_ui4 type_unknown : ParamDatatype

-- struct param_range
pub record ParamRange : Type 0 where
  pub minimum : ℤ
  pub maximum : ℤ
  pub step : ℤ

-- struct var_meta, with `sendevents` true for SENDEVENT_YES
pub record VarMeta : Type 0 where
  pub sendevents : Bool
  pub datatype : ParamDatatype
  pub allowed_values : Option (List Text)
  pub allowed_range : Option ParamRange
  pub default_value : Option Text

-- What the description of a `struct service` is generated from.
pub record Described : Type 0 where
  pub action_names : ℕ → Option Text
  pub action_arguments : ℕ → Option (List Argument)
  pub described_names : ℕ → Option Text
  pub variable_meta : ℕ → VarMeta
  pub described_count : ℕ
  pub command_count : ℕ

-- param_datatype_names
unfoldable pub datatype_name : ParamDatatype → Option Text
datatype_name type_string = some (codes "string")
datatype_name type_boolean = some (codes "boolean")
datatype_name type_i2 = some (codes "i2")
datatype_name type_i4 = some (codes "i4")
datatype_name type_ui2 = some (codes "ui2")
datatype_name type_ui4 = some (codes "ui4")
datatype_name type_unknown = none

-- add_value_element with a text that may be NULL, on which the assertion of xmlelement_add_text fails.
abbrev pub add_nullable_element : Element → Text → Option Text → Outcome Element
add_nullable_element parent tagname none = fault assertion
add_nullable_element parent tagname (some value) = done (add_value_element parent tagname value)

-- add_value_element_int and add_value_element_long
unfoldable pub add_value_element_int : Element → Text → ℤ → Element
unfolding add_value_element
add_value_element_int parent tagname value = add_value_element parent tagname (print_int value)

-- gen_specversion
unfoldable pub gen_specversion : ℤ → ℤ → Element
unfolding xmlelement_new add_value_element_int
gen_specversion major minor =
    add_value_element_int
      (add_value_element_int (xmlelement_new (codes "specVersion")) (codes "major") major)
      (codes "minor") minor

abbrev pub direction_name : ParamDir → Text
direction_name dir_in = codes "in"
direction_name dir_out = codes "out"

-- One round of the loop of gen_scpd_action.
unfoldable pub gen_argument : (ℕ → Option Text) → Argument → Outcome Element
unfolding xmlelement_new add_value_element xmlelement_add_element
gen_argument varnames arg =
    add_nullable_element
      (add_value_element
        (add_value_element (xmlelement_new (codes "argument")) (codes "name") arg.arg_name)
        (codes "direction") (direction_name arg.direction))
      (codes "relatedStateVariable") (varnames arg.statevar)

unfoldable pub gen_arguments : (ℕ → Option Text) → List Argument → Element → Outcome Element
unfolding gen_argument xmlelement_add_element
gen_arguments varnames [] parent = done parent
gen_arguments varnames (arg ∷ args) parent = do
  child ← gen_argument varnames arg
  gen_arguments varnames args (xmlelement_add_element parent child)

-- The C code links the list of arguments before it fills it; here it is filled first.
abbrev pub add_arguments : (ℕ → Option Text) → Option (List Argument) → Element → Outcome Element
add_arguments varnames none top = done top
add_arguments varnames (some args) top = do
  parent ← gen_arguments varnames args (xmlelement_new (codes "argumentList"))
  done (xmlelement_add_element top parent)

-- gen_scpd_action
unfoldable pub gen_scpd_action :
    Option Text → Option (List Argument) → (ℕ → Option Text) → Outcome Element
unfolding gen_arguments xmlelement_new add_value_element xmlelement_add_element
gen_scpd_action action_name arglist varnames = do
  top ← add_nullable_element (xmlelement_new (codes "action")) (codes "name") action_name
  add_arguments varnames arglist top

-- The loop of gen_scpd_actionlist from action `i` on.
unfoldable pub gen_actions : Described → ℕ → ℕ → Element → Outcome Element
unfolding gen_scpd_action xmlelement_add_element
gen_actions srv zero i top = done top
gen_actions srv (suc rounds) i top = do
  child ← gen_scpd_action (srv.action_names i) (srv.action_arguments i) srv.described_names
  gen_actions srv rounds (suc i) (xmlelement_add_element top child)

-- gen_scpd_actionlist
unfoldable pub gen_scpd_actionlist : Described → Outcome Element
unfolding gen_actions xmlelement_new
gen_scpd_actionlist srv = gen_actions srv srv.command_count 0 (xmlelement_new (codes "actionList"))

unfoldable pub add_allowed_values : List Text → Element → Element
unfolding add_value_element
add_allowed_values [] parent = parent
add_allowed_values (value ∷ values) parent =
    add_allowed_values values (add_value_element parent (codes "allowedValue") value)

abbrev pub with_values : Option (List Text) → Element → Element
with_values none top = top
with_values (some values) top =
    xmlelement_add_element top
      (add_allowed_values values (xmlelement_new (codes "allowedValueList")))

abbrev pub with_step : ℤ → Element → Element
with_step step parent =
    if is_zero step then parent else add_value_element_int parent (codes "step") step

abbrev pub with_range : Option ParamRange → Element → Element
with_range none top = top
with_range (some range) top = xmlelement_add_element top (
    with_step range.step (
      add_value_element_int
        (add_value_element_int (xmlelement_new (codes "allowedValueRange")) (codes "minimum")
          range.minimum)
        (codes "maximum") range.maximum))

abbrev pub with_default : Option Text → Element → Element
with_default none top = top
with_default (some value) top = add_value_element top (codes "defaultValue") value

-- gen_scpd_statevar up to its name and type
unfoldable pub gen_named_statevar : Option Text → VarMeta → Outcome Element
unfolding xmlelement_new xmlelement_set_attribute xmlelement_add_element add_value_element
    datatype_name
gen_named_statevar name meta = do
  top ←
      add_nullable_element
        (xmlelement_set_attribute (xmlelement_new (codes "stateVariable")) (codes "sendEvents")
          (if meta.sendevents then codes "yes" else codes "no"))
        (codes "name") name
  add_nullable_element top (codes "dataType") (datatype_name meta.datatype)

-- gen_scpd_statevar
unfoldable pub gen_scpd_statevar : Option Text → VarMeta → Outcome Element
unfolding gen_named_statevar add_allowed_values xmlelement_new xmlelement_add_element
    add_value_element add_value_element_int
gen_scpd_statevar name meta = do
  top ← gen_named_statevar name meta
  done (
      with_default meta.default_value
        (with_range meta.allowed_range (with_values meta.allowed_values top)))

-- The loop of gen_scpd_servicestatetable from variable `i` on.
unfoldable pub gen_statevars : Described → ℕ → ℕ → Element → Outcome Element
unfolding gen_scpd_statevar xmlelement_add_element
gen_statevars srv zero i top = done top
gen_statevars srv (suc rounds) i top = do
  child ← gen_scpd_statevar (srv.described_names i) (srv.variable_meta i)
  gen_statevars srv rounds (suc i) (xmlelement_add_element top child)

-- gen_scpd_servicestatetable
unfoldable pub gen_scpd_servicestatetable : Described → Outcome Element
unfolding gen_statevars xmlelement_new
gen_scpd_servicestatetable srv =
    gen_statevars srv srv.described_count 0 (xmlelement_new (codes "serviceStateTable"))

-- generate_scpd
unfoldable pub generate_scpd : Described → Outcome Element
unfolding gen_specversion gen_scpd_actionlist gen_scpd_servicestatetable xmldoc_new_topelement
    xmlelement_add_element
generate_scpd srv = do
  let root = xmldoc_new_topelement (codes "scpd") (some (codes "urn:schemas-upnp-org:service-1-0"))
  let root = xmlelement_add_element root (gen_specversion (pos 1) (pos 0))
  child ← gen_scpd_actionlist srv
  let root = xmlelement_add_element root child
  child ← gen_scpd_servicestatetable srv
  done (xmlelement_add_element root child)
