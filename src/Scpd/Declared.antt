-- ===== src/Scpd/Declared.antt =====
-- The variables that an SCPD document declares, against those that its arguments are related to.
use gmrender_resurrect_silan.Base.{
  ℕ, zero, suc, ◌≡◌, refl, ap, ◌∙◌, inl, inr, Option, none, some, Option-cases, List, [], ◌∷◌, ◌++◌,
  Text, codes, text_eq, text_eq_refl, or_empty,
}
use gmrender_resurrect_silan.Xml.{
  Element, element, empty, text_node, xmlelement_new, xmlelement_add_element, xmlelement_add_text,
  xmlelement_set_attribute, set_in, add_value_element, xmldoc_new_topelement,
}
use gmrender_resurrect_silan.Scpd.{
  VarMeta, ParamRange, Described, datatype_name, add_value_element_int, gen_specversion,
  with_values, with_range, with_default,
}
use gmrender_resurrect_silan.Scpd.Whole.{
  whole_named_statevar, whole_statevar, whole_servicestatetable, whole_scpd,
}
use gmrender_resurrect_silan.Scpd.Reading.{
  below, tag_of, part, value_of, names_of, declared_variables, add_all, below-add, below-add_all,
  tag-add_all, statevar_elements, whole_statevars-adds, actionlist-tag,
}

abbrev name_element : Option Text → Element
name_element none = element (codes "name") [] empty
name_element (some t) = element (codes "name") [] (text_node t empty)

-- The first element below an element.
abbrev Starts : Element → Element → Type 0
Starts n top = (rest : List Element) × (below top ≡ n ∷ rest)

add-Starts : (n top e : Element) → Starts n top → Starts n (xmlelement_add_element top e)
add-Starts n top e (rest, s) = (rest ++ e ∷ [], below-add top e ∙ ap (λ es. es ++ e ∷ []) s)

named-Starts :
    (name : Option Text) (meta : VarMeta)
    → Starts (name_element name) (whole_named_statevar name meta)
unfolding whole_named_statevar add_value_element xmlelement_new xmlelement_add_element
    xmlelement_add_text xmlelement_set_attribute set_in
named-Starts none meta = elim (Option-cases (datatype_name meta.datatype)) [
  | inl e ↦ (element (codes "dataType") [] empty ∷ [], rw e refl)
  | inr (t, e) ↦ (element (codes "dataType") [] (text_node t empty) ∷ [], rw e refl)
]
named-Starts (some u) meta = elim (Option-cases (datatype_name meta.datatype)) [
  | inl e ↦ (element (codes "dataType") [] empty ∷ [], rw e refl)
  | inr (t, e) ↦ (element (codes "dataType") [] (text_node t empty) ∷ [], rw e refl)
]

values-Starts :
    (n : Element) (values : Option (List Text)) (top : Element)
    → Starts n top
    → Starts n (with_values values top)
values-Starts n none top s = s
values-Starts n (some values) top s = add-Starts n top _ s

range-Starts :
    (n : Element) (range : Option ParamRange) (top : Element)
    → Starts n top
    → Starts n (with_range range top)
range-Starts n none top s = s
range-Starts n (some range) top s = add-Starts n top _ s

default-Starts :
    (n : Element) (value : Option Text) (top : Element)
    → Starts n top
    → Starts n (with_default value top)
unfolding add_value_element
default-Starts n none top s = s
default-Starts n (some value) top s = add-Starts n top _ s

name-of-element :
    (name : Option Text) (rest : List Element)
    → value_of (codes "name") (name_element name ∷ rest) ≡ or_empty name
name-of-element none rest = refl
name-of-element (some t) rest = refl

statevar-name :
    (name : Option Text) (meta : VarMeta)
    → value_of (codes "name") (below (whole_statevar name meta)) ≡ or_empty name
unfolding whole_statevar
statevar-name name meta =
    let n = name_element name in
    let (rest, e) = default-Starts n meta.default_value _ (
      range-Starts n meta.allowed_range _
        (values-Starts n meta.allowed_values _ (named-Starts name meta))) in
    ap (value_of (codes "name")) e ∙ name-of-element name rest

part-first :
    (tag : Text) (a : Element) (es : List Element) → tag_of a ≡ tag → part tag (a ∷ es) ≡ below a
part-first tag a es hit = rw (hit, text_eq_refl tag) refl

module _ (srv : Described) where
  -- The names of the table, from variable `i` on.
  unfoldable pub all_names : ℕ → ℕ → List Text
  all_names zero i = []
  all_names (suc rounds) i = or_empty (srv.described_names i) ∷ all_names rounds (suc i)

  statevars-names : (rounds i : ℕ) → names_of (statevar_elements srv rounds i) ≡ all_names rounds i
  unfolding statevar_elements all_names
  statevars-names zero i = refl
  statevars-names (suc rounds) i =
      ap (λ t. t ∷ names_of (statevar_elements srv rounds (suc i)))
        (statevar-name (srv.described_names i) (srv.variable_meta i))
      ∙ ap (λ ts. or_empty (srv.described_names i) ∷ ts) (statevars-names rounds (suc i))

  whole_servicestatetable-adds :
      whole_servicestatetable srv
      ≡ add_all
          (statevar_elements srv srv.described_count 0)
          (element (codes "serviceStateTable") [] empty)
  unfolding whole_servicestatetable xmlelement_new
  whole_servicestatetable-adds = whole_statevars-adds srv srv.described_count 0 _

  pub document-declares : declared_variables (whole_scpd srv) ≡ all_names srv.described_count 0
  unfolding whole_scpd gen_specversion xmldoc_new_topelement xmlelement_add_element xmlelement_new
      xmlelement_set_attribute add_value_element_int add_value_element
  document-declares =
      let miss = ap (λ t. text_eq t (codes "serviceStateTable")) (actionlist-tag srv) in
      let es = statevar_elements srv srv.described_count 0 in
      let top = element (codes "serviceStateTable") [] empty in
      ap names_of (
        rw miss (
          part-first (codes "serviceStateTable") (whole_servicestatetable srv) []
            (ap tag_of whole_servicestatetable-adds ∙ tag-add_all es top)
          ∙ ap below whole_servicestatetable-adds
          ∙ below-add_all es top))
      ∙ statevars-names srv.described_count 0
