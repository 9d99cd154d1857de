-- ===== src/Scpd/Reading.antt =====
-- What a client reads out of an SCPD document: the variables that arguments are related to, and the
-- variables that are declared.
use gmrender_resurrect_silan.Base.{
  ℕ, zero, suc, ◌≡◌, refl, sym, ap, ◌∙◌, inl, inr, false, Option, none, some, Option-cases, List,
  [], ◌∷◌, ◌++◌, map, append-nil, append_assoc, Text, codes, text_eq, text_eq_refl, or_empty,
  if◌then◌else◌,
}
use gmrender_resurrect_silan.Base.Int.{pos}
use gmrender_resurrect_silan.Xml.{
  Element, element, Nodes, empty, child, text_node, append_child, xmlelement_new,
  xmlelement_add_element, xmlelement_add_text, xmlelement_set_attribute, add_value_element,
  xmldoc_new_topelement,
}
use gmrender_resurrect_silan.Scpd.{Argument, Described, add_value_element_int, gen_specversion}
use gmrender_resurrect_silan.Scpd.Whole.{
  whole_argument, whole_arguments, whole_action, whole_actions, whole_actionlist, whole_statevar,
  whole_statevars, whole_servicestatetable, whole_scpd,
}

-- The elements below an element, without the texts.
abbrev pub elements : Nodes → List Element
elements empty = []
elements (child e ns) = e ∷ elements ns
elements (text_node t ns) = elements ns

abbrev pub nodes : Element → Nodes
nodes (element tag attrs ns) = ns

abbrev pub tag_of : Element → Text
tag_of (element tag attrs ns) = tag

abbrev pub below : Element → List Element
below e = elements (nodes e)

-- The first text.
abbrev pub text_in : Nodes → Text
text_in empty = []
text_in (child e ns) = text_in ns
text_in (text_node t ns) = t

-- What is below the first element of that name.
abbrev pub part : Text → List Element → List Element
part tag [] = []
part tag (e ∷ es) = let rest = part tag es in if text_eq (tag_of e) tag then below e else rest

-- The text of the first element of that name.
abbrev pub value_of : Text → List Element → Text
value_of tag [] = []
value_of tag (e ∷ es) =
    let rest = value_of tag es in if text_eq (tag_of e) tag then text_in (nodes e) else rest

abbrev pub related_of : List Element → List Text
related_of [] = []
related_of (argument ∷ es) =
    value_of (codes "relatedStateVariable") (below argument) ∷ related_of es

abbrev pub related_in : List Element → List Text
related_in [] = []
related_in (action ∷ es) = related_of (part (codes "argumentList") (below action)) ++ related_in es

-- The variables that the arguments of the actions are related to.
abbrev pub related_variables : Element → List Text
related_variables doc = related_in (part (codes "actionList") (below doc))

abbrev pub names_of : List Element → List Text
names_of [] = []
names_of (variable ∷ es) = value_of (codes "name") (below variable) ∷ names_of es

-- The variables that the document declares.
abbrev pub declared_variables : Element → List Text
declared_variables doc = names_of (part (codes "serviceStateTable") (below doc))

elements-append : (ns : Nodes) (e : Element) → elements (append_child ns e) ≡ elements ns ++ e ∷ []
elements-append empty e = refl
elements-append (child f ns) e = ap (λ es. f ∷ es) (elements-append ns e)
elements-append (text_node t ns) e = elements-append ns e

-- A list of elements linked one after the other.
abbrev pub add_all : List Element → Element → Element
add_all [] top = top
add_all (e ∷ es) top = add_all es (xmlelement_add_element top e)

pub below-add : (top e : Element) → below (xmlelement_add_element top e) ≡ below top ++ e ∷ []
unfolding xmlelement_add_element
below-add (element tag attrs ns) e = elements-append ns e

tag-add : (top e : Element) → tag_of (xmlelement_add_element top e) ≡ tag_of top
unfolding xmlelement_add_element
tag-add (element tag attrs ns) e = refl

pub below-add_all : (es : List Element) (top : Element) → below (add_all es top) ≡ below top ++ es
below-add_all [] top = sym (append-nil (below top))
below-add_all (e ∷ es) top =
    below-add_all es (xmlelement_add_element top e)
    ∙ ap (λ b. b ++ es) (below-add top e)
    ∙ append_assoc (below top) (e ∷ []) es

pub tag-add_all : (es : List Element) (top : Element) → tag_of (add_all es top) ≡ tag_of top
tag-add_all [] top = refl
tag-add_all (e ∷ es) top = tag-add_all es (xmlelement_add_element top e) ∙ tag-add top e

-- The elements that the loops generate.
unfoldable action_elements : Described → ℕ → ℕ → List Element
action_elements srv zero i = []
action_elements srv (suc rounds) i =
    whole_action (srv.action_names i) (srv.action_arguments i) srv.described_names
    ∷ action_elements srv rounds (suc i)

unfoldable pub statevar_elements : Described → ℕ → ℕ → List Element
statevar_elements srv zero i = []
statevar_elements srv (suc rounds) i =
    whole_statevar (srv.described_names i) (srv.variable_meta i)
    ∷ statevar_elements srv rounds (suc i)

whole_actions-adds :
    (srv : Described) (rounds i : ℕ) (top : Element)
    → whole_actions srv rounds i top ≡ add_all (action_elements srv rounds i) top
unfolding whole_actions action_elements
whole_actions-adds srv zero i top = refl
whole_actions-adds srv (suc rounds) i top = whole_actions-adds srv rounds (suc i) _

pub whole_statevars-adds :
    (srv : Described) (rounds i : ℕ) (top : Element)
    → whole_statevars srv rounds i top ≡ add_all (statevar_elements srv rounds i) top
unfolding whole_statevars statevar_elements
whole_statevars-adds srv zero i top = refl
whole_statevars-adds srv (suc rounds) i top = whole_statevars-adds srv rounds (suc i) _

whole_arguments-adds :
    (varnames : ℕ → Option Text) (args : List Argument) (top : Element)
    → whole_arguments varnames args top ≡ add_all (map (whole_argument varnames) args) top
unfolding whole_arguments
whole_arguments-adds varnames [] top = refl
whole_arguments-adds varnames (arg ∷ args) top = whole_arguments-adds varnames args _

module _ (srv : Described) where
  -- The names that the document has for the arguments of an action.
  abbrev pub names_related : List Argument → List Text
  names_related [] = []
  names_related (arg ∷ args) = or_empty (srv.described_names arg.statevar) ∷ names_related args

  abbrev pub action_related : Option (List Argument) → List Text
  action_related none = []
  action_related (some args) = names_related args

  whole_argument-related :
      (arg : Argument)
      → value_of (codes "relatedStateVariable") (below (whole_argument srv.described_names arg))
        ≡ or_empty (srv.described_names arg.statevar)
  unfolding whole_argument add_value_element xmlelement_new xmlelement_add_element
      xmlelement_add_text
  whole_argument-related arg = elim (Option-cases (srv.described_names arg.statevar)) [
    | inl e ↦ rw e refl
    | inr (t, e) ↦ rw e refl
  ]

  arguments-related :
      (args : List Argument)
      → related_of (map (whole_argument srv.described_names) args) ≡ names_related args
  arguments-related [] = refl
  arguments-related (arg ∷ args) =
      ap (λ t. t ∷ related_of (map (whole_argument srv.described_names) args))
        (whole_argument-related arg)
      ∙ ap (λ ts. or_empty (srv.described_names arg.statevar) ∷ ts) (arguments-related args)

  pub part-second :
      (tag : Text) (a b : Element) (es : List Element)
      → text_eq (tag_of a) tag ≡ false
      → tag_of b ≡ tag
      → part tag (a ∷ b ∷ es) ≡ below b
  part-second tag a b es miss hit = rw (miss, hit, text_eq_refl tag) refl

  argument_list-related :
      (args : List Argument)
      → related_of (
          below
            (whole_arguments srv.described_names args (element (codes "argumentList") [] empty)))
        ≡ names_related args
  argument_list-related args =
      let top = element (codes "argumentList") [] empty in
      ap (λ e. related_of (below e)) (whole_arguments-adds srv.described_names args top)
      ∙ ap related_of (below-add_all (map (whole_argument srv.described_names) args) top)
      ∙ arguments-related args

  argument_list-tag :
      (args : List Argument)
      → tag_of (whole_arguments srv.described_names args (element (codes "argumentList") [] empty))
        ≡ codes "argumentList"
  argument_list-tag args =
      let top = element (codes "argumentList") [] empty in
      ap tag_of (whole_arguments-adds srv.described_names args top)
      ∙ tag-add_all (map (whole_argument srv.described_names) args) top

  action-related :
      (name : Option Text) (args : Option (List Argument))
      → related_of
          (part (codes "argumentList") (below (whole_action name args srv.described_names)))
        ≡ action_related args
  unfolding whole_action add_value_element xmlelement_new xmlelement_add_element xmlelement_add_text
  action-related none none = refl
  action-related (some t) none = refl
  action-related none (some args) =
      ap related_of (
        part-second (codes "argumentList") (element (codes "name") [] empty)
          (whole_arguments srv.described_names args (element (codes "argumentList") [] empty)) []
          refl (argument_list-tag args))
      ∙ argument_list-related args
  action-related (some t) (some args) =
      ap related_of (
        part-second (codes "argumentList") (element (codes "name") [] (text_node t empty))
          (whole_arguments srv.described_names args (element (codes "argumentList") [] empty)) []
          refl (argument_list-tag args))
      ∙ argument_list-related args

  unfoldable pub all_related : ℕ → ℕ → List Text
  all_related zero i = []
  all_related (suc rounds) i = action_related (srv.action_arguments i) ++ all_related rounds (suc i)

  actions-related :
      (rounds i : ℕ) → related_in (action_elements srv rounds i) ≡ all_related rounds i
  unfolding action_elements all_related
  actions-related zero i = refl
  actions-related (suc rounds) i =
      ap (λ ts. ts ++ related_in (action_elements srv rounds (suc i)))
        (action-related (srv.action_names i) (srv.action_arguments i))
      ∙ ap (λ ts. action_related (srv.action_arguments i) ++ ts) (actions-related rounds (suc i))

  action_list : Element
  action_list =
      add_all (action_elements srv srv.command_count 0) (element (codes "actionList") [] empty)

  whole_actionlist-adds : whole_actionlist srv ≡ action_list
  unfolding whole_actionlist xmlelement_new action_list
  whole_actionlist-adds = whole_actions-adds srv srv.command_count 0 _

  pub document-related : related_variables (whole_scpd srv) ≡ all_related srv.command_count 0
  unfolding whole_scpd gen_specversion xmldoc_new_topelement xmlelement_add_element xmlelement_new
      xmlelement_set_attribute add_value_element_int add_value_element action_list
  document-related =
      let es = action_elements srv srv.command_count 0 in
      let top = element (codes "actionList") [] empty in
      ap related_in (
        part-second (codes "actionList") (gen_specversion (pos 1) (pos 0)) (whole_actionlist srv)
          (whole_servicestatetable srv ∷ []) refl
          (ap tag_of whole_actionlist-adds ∙ tag-add_all es top)
        ∙ ap below whole_actionlist-adds
        ∙ below-add_all es top)
      ∙ actions-related srv.command_count 0

  pub actionlist-tag : tag_of (whole_actionlist srv) ≡ codes "actionList"
  unfolding action_list
  actionlist-tag =
      ap tag_of whole_actionlist-adds
      ∙ tag-add_all (action_elements srv srv.command_count 0)
          (element (codes "actionList") [] empty)
