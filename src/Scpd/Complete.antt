-- ===== src/Scpd/Complete.antt =====
-- Tables of a service in which every text that its SCPD document needs is set, so that generate_scpd
-- of src/upnp.c meets no failing assertion.
use gmrender_resurrect_silan.Base.{
  ℕ, zero, suc, ◌+◌, ◌≤◌, ◌<◌, ◌≡◌, refl, subst, inl, inr, Bool, true, false, ◌&&◌, Option, none,
  some, List, [], ◌∷◌, Text, codes, ltb, ltb→lt, Bool-cases, ◌==◌, ==_iff, arith,
}
use gmrender_resurrect_silan.Base.Outcome.{done}
use gmrender_resurrect_silan.Xml.{Element, xmlelement_new}
use gmrender_resurrect_silan.Scpd.{
  Argument, ParamDatatype, type_string, type_boolean, type_i2, type_i4, type_ui2, type_ui4,
  type_unknown, VarMeta, Described, datatype_name, add_nullable_element, gen_argument,
  gen_arguments, add_arguments, gen_scpd_action, gen_actions, gen_scpd_actionlist,
  gen_named_statevar, gen_scpd_statevar, gen_statevars, gen_scpd_servicestatetable, generate_scpd,
}
use gmrender_resurrect_silan.Scpd.Whole.{
  with_text, whole_argument, whole_arguments, with_arguments, whole_action, whole_actions,
  whole_actionlist, whole_named_statevar, whole_statevar, whole_statevars, whole_servicestatetable,
  whole_scpd,
}

-- The variables of the arguments are below `count`.
abbrev pub are_below : ℕ → List Argument → Bool
are_below count [] = true
are_below count (arg ∷ args) = ltb arg.statevar count && are_below count args

abbrev pub list_below : ℕ → Option (List Argument) → Bool
list_below count none = true
list_below count (some args) = are_below count args

abbrev pub lists_below : Described → ℕ → ℕ → Bool
lists_below srv zero i = true
lists_below srv (suc rounds) i =
    list_below srv.described_count (srv.action_arguments i) && lists_below srv rounds (suc i)

-- Every argument of an action is related to a variable of the service.
abbrev pub is_closed : Described → Bool
is_closed srv = lists_below srv srv.command_count 0

abbrev pub is_set : Option Text → Bool
is_set none = false
is_set (some t) = true

abbrev pub is_known : ParamDatatype → Bool
is_known type_unknown = false
is_known _ = true

abbrev pub actions_set : Described → ℕ → ℕ → Bool
actions_set srv zero i = true
actions_set srv (suc rounds) i = is_set (srv.action_names i) && actions_set srv rounds (suc i)

abbrev pub variables_set : Described → ℕ → ℕ → Bool
variables_set srv zero i = true
variables_set srv (suc rounds) i =
    (is_set (srv.described_names i) && is_known (srv.variable_meta i).datatype)
    && variables_set srv rounds (suc i)

-- Every action has a name, and every variable a name and a type that is known.
abbrev pub is_complete : Described → Bool
is_complete srv = actions_set srv srv.command_count 0 && variables_set srv srv.described_count 0

pub both : (a b : Bool) → a && b ≡ true → (a ≡ true) × (b ≡ true)
both true b h = (refl, h)
both false b h = ground (arith, h)

with_text-set :
    (parent : Element) (tagname : Text) (value : Option Text)
    → is_set value ≡ true
    → add_nullable_element parent tagname value ≡ done (with_text parent tagname value)
with_text-set parent tagname none h = absurd (ground (arith, h))
with_text-set parent tagname (some value) h = refl

datatype_name-set : (t : ParamDatatype) → is_known t ≡ true → is_set (datatype_name t) ≡ true
unfolding datatype_name
datatype_name-set type_string h = refl
datatype_name-set type_boolean h = refl
datatype_name-set type_i2 h = refl
datatype_name-set type_i4 h = refl
datatype_name-set type_ui2 h = refl
datatype_name-set type_ui4 h = refl
datatype_name-set type_unknown h = h

named_statevar-whole :
    (name : Option Text) (meta : VarMeta)
    → is_set name ≡ true
    → is_known meta.datatype ≡ true
    → gen_named_statevar name meta ≡ done (whole_named_statevar name meta)
unfolding gen_named_statevar whole_named_statevar
named_statevar-whole name meta h k = rw (with_text-set _ (codes "name") name h) (
    with_text-set _ (codes "dataType") (datatype_name meta.datatype)
      (datatype_name-set meta.datatype k))

pub statevar-whole :
    (name : Option Text) (meta : VarMeta)
    → is_set name ≡ true
    → is_known meta.datatype ≡ true
    → gen_scpd_statevar name meta ≡ done (whole_statevar name meta)
unfolding gen_scpd_statevar whole_statevar
statevar-whole name meta h k = rw (named_statevar-whole name meta h k) refl

module _ (srv : Described) where
  statevars-whole :
      (rounds i : ℕ) (top : Element)
      → variables_set srv rounds i ≡ true
      → gen_statevars srv rounds i top ≡ done (whole_statevars srv rounds i top)
  unfolding gen_statevars whole_statevars
  statevars-whole zero i top h = refl
  statevars-whole (suc rounds) i top h =
      let (here, later) = both _ _ h in
      let (named, known) = both _ _ here in
      rw (statevar-whole (srv.described_names i) (srv.variable_meta i) named known)
        (statevars-whole rounds (suc i) _ later)

  variable-set :
      (rounds i j : ℕ)
      → i ≤ j
      → j < i + rounds
      → variables_set srv rounds i ≡ true
      → is_set (srv.described_names j) ≡ true
  variable-set zero i j le lt h = let k : 1 ≤ 0 = omega (arith, le, lt) in elim k [ ]
  variable-set (suc rounds) i j le lt h =
      let named = is_set (srv.described_names i) in
      let known = is_known (srv.variable_meta i).datatype in
      let (here, later) = both (named && known) (variables_set srv rounds (suc i)) h in
      elim (Bool-cases (i == j)) [
        | inl e ↦
            subst (λ (k : ℕ). is_set (srv.described_names k) ≡ true) ((==_iff i j).0 e)
              (both named known here).0
        | inr e ↦ variable-set rounds (suc i) j (ground (arith, le, e)) (omega (arith, lt)) later
      ]

  module _ (vars : variables_set srv srv.described_count 0 ≡ true) where
    arguments-whole :
        (args : List Argument) (top : Element)
        → are_below srv.described_count args ≡ true
        → gen_arguments srv.described_names args top
          ≡ done (whole_arguments srv.described_names args top)
    unfolding gen_arguments whole_arguments gen_argument whole_argument
    arguments-whole [] top h = refl
    arguments-whole (arg ∷ args) top h =
        let count = srv.described_count in
        let (here, later) = both (ltb arg.statevar count) (are_below count args) h in
        let named =
          variable-set count 0 arg.statevar (omega arith)
            (omega (arith, ltb→lt arg.statevar count here)) vars in
        rw (with_text-set _ (codes "relatedStateVariable") (srv.described_names arg.statevar) named)
          (arguments-whole args _ later)

    add_arguments-whole :
        (args : Option (List Argument)) (top : Element)
        → list_below srv.described_count args ≡ true
        → add_arguments srv.described_names args top
          ≡ done (with_arguments srv.described_names args top)
    add_arguments-whole none top h = refl
    add_arguments-whole (some args) top h = rw (arguments-whole args _ h) refl

    actions-whole :
        (rounds i : ℕ) (top : Element)
        → lists_below srv rounds i ≡ true
        → actions_set srv rounds i ≡ true
        → gen_actions srv rounds i top ≡ done (whole_actions srv rounds i top)
    unfolding gen_actions whole_actions gen_scpd_action whole_action
    actions-whole zero i top h k = refl
    actions-whole (suc rounds) i top h k =
        let (listed, lists) = both _ _ h in
        let (named, names) = both _ _ k in
        rw
          (
            with_text-set (xmlelement_new (codes "action")) (codes "name") (srv.action_names i)
                named,
            add_arguments-whole (srv.action_arguments i) _ listed,
          )
          (actions-whole rounds (suc i) _ lists names)

  -- The document is generated.
  pub generate_scpd-whole :
      is_closed srv ≡ true → is_complete srv ≡ true → generate_scpd srv ≡ done (whole_scpd srv)
  unfolding generate_scpd whole_scpd gen_scpd_actionlist whole_actionlist gen_scpd_servicestatetable
      whole_servicestatetable
  generate_scpd-whole closed complete =
      let (acts, vars) = both _ _ complete in
      rw
        (
          actions-whole vars srv.command_count 0 (xmlelement_new (codes "actionList")) closed acts,
          statevars-whole srv.described_count 0 (xmlelement_new (codes "serviceStateTable")) vars,
        )
        refl
