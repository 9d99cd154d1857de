-- ===== src/Scpd/Aborts.antt =====
-- Tables of a service in which a text is missing that its SCPD document needs: generate_scpd of
-- src/upnp.c ends in the assertion of xmlelement_add_text (src/xmldoc.c).
use gmrender_resurrect_silan.Base.{
  ℕ, zero, suc, ◌≡◌, refl, sym, ap, ◌∙◌, subst, ◌⊎◌, inl, inr, false, ◌&&◌, Bool-cases, Option,
  none, some, Option-cases, List, [], ◌∷◌, Text, codes, arith,
}
use gmrender_resurrect_silan.Base.Outcome.{Outcome, done, fault, assertion}
use gmrender_resurrect_silan.Xml.{Element, xmlelement_new, add_value_element}
use gmrender_resurrect_silan.Scpd.{
  Argument, ParamDatatype, type_string, type_boolean, type_i2, type_i4, type_ui2, type_ui4,
  type_unknown, VarMeta, Described, datatype_name, add_nullable_element, direction_name,
  gen_argument, gen_arguments, add_arguments, gen_scpd_action, gen_actions, gen_scpd_actionlist,
  gen_named_statevar, gen_scpd_statevar, gen_statevars, gen_scpd_servicestatetable, generate_scpd,
}
use gmrender_resurrect_silan.Scpd.Complete.{
  is_set, is_known, actions_set, variables_set, is_complete, both, statevar-whole,
}

-- An element is made, or the assertion fails.
abbrev Decided : Outcome Element → Type 0
Decided m = ((e : Element) × (m ≡ done e)) ⊎ (m ≡ fault assertion)

nullable-Decided :
    (parent : Element) (tagname : Text) (value : Option Text)
    → Decided (add_nullable_element parent tagname value)
nullable-Decided parent tagname none = inr refl
nullable-Decided parent tagname (some value) = inl (_, refl)

argument-Decided :
    (varnames : ℕ → Option Text) (arg : Argument) → Decided (gen_argument varnames arg)
unfolding gen_argument
argument-Decided varnames arg =
    nullable-Decided
      (add_value_element
        (add_value_element (xmlelement_new (codes "argument")) (codes "name") arg.arg_name)
        (codes "direction") (direction_name arg.direction))
      (codes "relatedStateVariable") (varnames arg.statevar)

arguments-Decided :
    (varnames : ℕ → Option Text) (args : List Argument) (top : Element)
    → Decided (gen_arguments varnames args top)
unfolding gen_arguments
arguments-Decided varnames [] top = inl (top, refl)
arguments-Decided varnames (arg ∷ args) top = elim (argument-Decided varnames arg) [
  | inl (e, made) ↦ rw made (arguments-Decided varnames args _)
  | inr failed ↦ rw failed (inr refl)
]

add_arguments-Decided :
    (varnames : ℕ → Option Text) (args : Option (List Argument)) (top : Element)
    → Decided (add_arguments varnames args top)
add_arguments-Decided varnames none top = inl (top, refl)
add_arguments-Decided varnames (some args) top =
    elim (arguments-Decided varnames args (xmlelement_new (codes "argumentList"))) [
      | inl (e, made) ↦ rw made (inl (_, refl))
      | inr failed ↦ rw failed (inr refl)
    ]

datatype_name-unset : (t : ParamDatatype) → is_known t ≡ false → datatype_name t ≡ none
unfolding datatype_name
datatype_name-unset type_string h = absurd (ground (arith, h))
datatype_name-unset type_boolean h = absurd (ground (arith, h))
datatype_name-unset type_i2 h = absurd (ground (arith, h))
datatype_name-unset type_i4 h = absurd (ground (arith, h))
datatype_name-unset type_ui2 h = absurd (ground (arith, h))
datatype_name-unset type_ui4 h = absurd (ground (arith, h))
datatype_name-unset type_unknown h = refl

statevar-aborts :
    (name : Option Text) (meta : VarMeta)
    → is_set name && is_known meta.datatype ≡ false
    → gen_scpd_statevar name meta ≡ fault assertion
unfolding gen_scpd_statevar gen_named_statevar
statevar-aborts none meta h = refl
statevar-aborts (some t) meta h = rw (datatype_name-unset meta.datatype h) refl

module _ (srv : Described) where
  statevars-abort :
      (rounds i : ℕ) (top : Element)
      → variables_set srv rounds i ≡ false
      → gen_statevars srv rounds i top ≡ fault assertion
  unfolding gen_statevars
  statevars-abort zero i top h = absurd (ground (arith, h))
  statevars-abort (suc rounds) i top h =
      let name = srv.described_names i in
      let meta = srv.variable_meta i in
      elim (Bool-cases (is_set name && is_known meta.datatype)) [
        | inl e ↦
            let (named, known) = both (is_set name) (is_known meta.datatype) e in
            rw (statevar-whole name meta named known) (
              statevars-abort rounds (suc i) _
                (subst (λ b. b && variables_set srv rounds (suc i) ≡ false) e h))
        | inr e ↦ rw (statevar-aborts name meta e) refl
      ]

  -- The name of the action, and then its arguments.
  named_action-Decided :
      (name : Text) (args : Option (List Argument))
      → Decided (gen_scpd_action (some name) args srv.described_names)
  unfolding gen_scpd_action
  named_action-Decided name args =
      add_arguments-Decided srv.described_names args
        (add_value_element (xmlelement_new (codes "action")) (codes "name") name)

  action-Decided :
      (name : Option Text) (args : Option (List Argument))
      → Decided (gen_scpd_action name args srv.described_names)
  unfolding gen_scpd_action
  action-Decided none args = inr refl
  action-Decided (some name) args = named_action-Decided name args

  unnamed_action :
      (args : Option (List Argument))
      → gen_scpd_action none args srv.described_names ≡ fault assertion
  unfolding gen_scpd_action
  unnamed_action args = refl

  actions-Decided : (rounds i : ℕ) (top : Element) → Decided (gen_actions srv rounds i top)
  unfolding gen_actions
  actions-Decided zero i top = inl (top, refl)
  actions-Decided (suc rounds) i top =
      elim (action-Decided (srv.action_names i) (srv.action_arguments i)) [
        | inl (e, made) ↦ rw made (actions-Decided rounds (suc i) _)
        | inr failed ↦ rw failed (inr refl)
      ]

  actions-abort :
      (rounds i : ℕ) (top : Element)
      → actions_set srv rounds i ≡ false
      → gen_actions srv rounds i top ≡ fault assertion
  unfolding gen_actions
  actions-abort zero i top h = absurd (ground (arith, h))
  actions-abort (suc rounds) i top h =
      elim (action-Decided (srv.action_names i) (srv.action_arguments i)) [
        | inl (e, made) ↦ rw made (
            actions-abort rounds (suc i) _ (elim (Option-cases (srv.action_names i)) [
              | inl unnamed ↦
                  let gen = λ (n : Option Text).
                    gen_scpd_action n (srv.action_arguments i) srv.described_names in
                  let clash : fault assertion ≡ done e =
                    sym (ap gen unnamed ∙ unnamed_action (srv.action_arguments i)) ∙ made in
                  absurd (ground (arith, clash))
              | inr (t, named) ↦
                  subst (λ o. is_set o && actions_set srv rounds (suc i) ≡ false) named h
            ]))
        | inr failed ↦ rw failed refl
      ]

  -- If an action of a service has no name, or a variable has no name or a type that is not known, then
  -- generate_scpd does not come back: it ends in a failing assertion.
  pub incomplete-aborts : is_complete srv ≡ false → generate_scpd srv ≡ fault assertion
  unfolding generate_scpd gen_scpd_actionlist gen_scpd_servicestatetable
  incomplete-aborts h =
      let acts = actions_set srv srv.command_count 0 in
      let vars = variables_set srv srv.described_count 0 in
      elim (Bool-cases acts) [
        | inl ok ↦
            let bad = subst (λ b. b && vars ≡ false) ok h in
            elim (actions-Decided srv.command_count 0 (xmlelement_new (codes "actionList"))) [
              | inl (e, made) ↦
                  rw
                    (
                      made,
                      statevars-abort srv.described_count 0
                          (xmlelement_new (codes "serviceStateTable")) bad,
                    )
                    refl
              | inr failed ↦ rw failed refl
            ]
        | inr bad ↦
            rw (actions-abort srv.command_count 0 (xmlelement_new (codes "actionList")) bad) refl
      ]
