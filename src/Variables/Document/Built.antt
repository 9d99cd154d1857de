-- ===== src/Variables/Document/Built.antt =====
-- The functions of src/variable-container.c and src/xmlescape.c make the LastChange documents that
-- Document describes.
use gmrender_resurrect_silan.Base.{
  ℕ, ◌≡◌, refl, sym, ap, ◌∙◌, Bool, true, false, ◌||◌, Option, none, some, List, [], ◌∷◌, ◌++◌,
  Text, codes, text_eq, if◌then◌else◌,
}
use gmrender_resurrect_silan.Xml.{
  Ixml, Element, element, Nodes, empty, child, text_node, append_child, xmlelement_new,
  xmldoc_new_topelement, xmlelement_add_element, xmlelement_set_attribute, set_in,
  add_attributevalue_element,
}
use gmrender_resurrect_silan.XmlEscape.{escape_byte, xmlescape}
use gmrender_resurrect_silan.XmlEscape.Buffer.{escaped, write_escaped-eq}
use gmrender_resurrect_silan.Variables.Builder
use gmrender_resurrect_silan.Variables.Change.{to_xml, notification}
use gmrender_resurrect_silan.Variables.Document.{
  one_of, channel_names, change_element, change_nodes, joined, event_document, entity,
  with_entities, last_change_message, printed,
}

escape_byte-entity : (c : ℕ) → escape_byte false c ≡ entity c
unfolding escape_byte
escape_byte-entity c = refl

escaped-with_entities : (s : Text) → escaped false s ≡ with_entities s
unfolding escaped
escaped-with_entities [] = refl
escaped-with_entities (c ∷ s) =
    ap (λ t. t ++ escaped false s) (escape_byte-entity c)
    ∙ ap (λ t. entity c ++ t) (escaped-with_entities s)

pub xmlescape-with_entities : (s : Text) → xmlescape s false ≡ with_entities s
unfolding xmlescape
xmlescape-with_entities s = write_escaped-eq false s [] ∙ escaped-with_entities s

pub notification-last_change_message :
    ⦃x : Ixml⦄ (service xml : Text) → notification service xml ≡ last_change_message service xml
unfolding notification
notification-last_change_message service xml =
    ap (λ t. record { notified_service = service; variables = (codes "LastChange", t) ∷ [] })
      (xmlescape-with_entities xml)

joined-empty : (ns : Nodes) → joined ns empty ≡ ns
joined-empty empty = refl
joined-empty (child e ns) = ap (child e) (joined-empty ns)
joined-empty (text_node t ns) = ap (text_node t) (joined-empty ns)

joined-append_child :
    (ns ms : Nodes) (e : Element) → joined (append_child ns e) ms ≡ joined ns (child e ms)
joined-append_child empty ms e = refl
joined-append_child (child f ns) ms e = ap (child f) (joined-append_child ns ms e)
joined-append_child (text_node t ns) ms e = ap (text_node t) (joined-append_child ns ms e)

-- A builder whose instance is begun.
abbrev begun : Option Text → Text → List (Text × Text) → Nodes → Builder.Builder
begun ns tag attrs nodes = record {
  xml_namespace = ns;
  instance_element = some (element tag attrs nodes);
}

or-one_of : (a b c d : Bool) → a || b || c || d ≡ a || (b || (c || (d || false)))
or-one_of true b c d = refl
or-one_of false true c d = refl
or-one_of false false true d = refl
or-one_of false false false true = refl
or-one_of false false false false = refl

has_channel-one_of : (name : Text) → Builder.has_channel name ≡ one_of name channel_names
unfolding Builder.has_channel
has_channel-one_of name =
    or-one_of (text_eq name (codes "Volume")) (text_eq name (codes "VolumeDB"))
      (text_eq name (codes "Mute")) (text_eq name (codes "Loudness"))

attributes-if :
    (b : Bool) (name value : Text)
    → (if b
        then element name ((codes "val", value) ∷ (codes "channel", codes "Master") ∷ []) empty
        else element name ((codes "val", value) ∷ []) empty)
      ≡ element name
          ((codes "val", value) ∷ (if b then (codes "channel", codes "Master") ∷ [] else []))
          empty
attributes-if true name value = refl
attributes-if false name value = refl

qualify-change_element :
    (name value : Text)
    → Builder.qualify name (element name ((codes "val", value) ∷ []) empty)
      ≡ change_element name value
unfolding Builder.qualify xmlelement_set_attribute set_in
qualify-change_element name value =
    ap
      (λ (b : Bool).
        if b
        then element name ((codes "val", value) ∷ (codes "channel", codes "Master") ∷ []) empty
        else element name ((codes "val", value) ∷ []) empty)
      (has_channel-one_of name)
    ∙ attributes-if (one_of name channel_names) name value

add-begun :
    (ns : Option Text) (tag : Text) (attrs : List (Text × Text)) (nodes : Nodes) (name value : Text)
    → Builder.add (begun ns tag attrs nodes) name value
      ≡ begun ns tag attrs (append_child nodes (change_element name value))
unfolding Builder.add Builder.begin_instance xmlelement_new xmlelement_add_element
    xmlelement_set_attribute set_in add_attributevalue_element
add-begun ns tag attrs nodes name value =
    ap (λ e. begun ns tag attrs (append_child nodes e)) (qualify-change_element name value)

add_all-begun :
    (ns : Option Text) (tag : Text) (attrs : List (Text × Text)) (nodes : Nodes)
    (cs : List (Text × Text))
    → Builder.add_all (begun ns tag attrs nodes) cs
      ≡ begun ns tag attrs (joined nodes (change_nodes cs))
add_all-begun ns tag attrs nodes [] = ap (begun ns tag attrs) (sym (joined-empty nodes))
add_all-begun ns tag attrs nodes ((name, value) ∷ cs) =
    ap (λ b. Builder.add_all b cs) (add-begun ns tag attrs nodes name value)
    ∙ add_all-begun ns tag attrs (append_child nodes (change_element name value)) cs
    ∙ ap (begun ns tag attrs)
        (joined-append_child nodes (change_nodes cs) (change_element name value))

-- The first change of a document begins it.
add-new :
    (ns : Option Text) (name value : Text)
    → Builder.add (record { xml_namespace = ns; instance_element = none }) name value
      ≡ begun ns
          (codes "InstanceID")
          ((codes "val", codes "0") ∷ [])
          (child (change_element name value) empty)
unfolding Builder.add Builder.begin_instance xmlelement_new xmlelement_add_element
    xmlelement_set_attribute set_in add_attributevalue_element
add-new ns name value =
    ap (λ e. begun ns (codes "InstanceID") ((codes "val", codes "0") ∷ []) (child e empty))
      (qualify-change_element name value)

-- What a builder is after a list of changes.
after : Option Text → Option Element → List (Text × Text) → Builder.Builder
after ns none [] = record { xml_namespace = ns; instance_element = none }
after ns none (c ∷ cs) =
    begun ns (codes "InstanceID") ((codes "val", codes "0") ∷ []) (change_nodes (c ∷ cs))
after ns (some (element tag attrs nodes)) cs = begun ns tag attrs (joined nodes (change_nodes cs))

add_all-after :
    (ns : Option Text) (e : Option Element) (cs : List (Text × Text))
    → Builder.add_all (record { xml_namespace = ns; instance_element = e }) cs ≡ after ns e cs
unfolding after
add_all-after ns none [] = refl
add_all-after ns none ((name, value) ∷ cs) =
    ap (λ b. Builder.add_all b cs) (add-new ns name value)
    ∙ add_all-begun ns (codes "InstanceID") ((codes "val", codes "0") ∷ [])
        (child (change_element name value) empty) cs
add_all-after ns (some (element tag attrs nodes)) cs = add_all-begun ns tag attrs nodes cs

document-after :
    (ns : Option Text) (e : Option Element) (cs : List (Text × Text))
    → Builder.document (after ns e cs) ≡ event_document ns e cs
unfolding after Builder.document xmldoc_new_topelement xmlelement_new xmlelement_add_element
    xmlelement_set_attribute set_in
document-after none none [] = refl
document-after (some ns) none [] = refl
document-after none none (c ∷ cs) = refl
document-after (some ns) none (c ∷ cs) = refl
document-after none (some (element tag attrs nodes)) cs = refl
document-after (some ns) (some (element tag attrs nodes)) cs = refl

pub document-event_document :
    (b : Builder.Builder) (cs : List (Text × Text))
    → Builder.document (Builder.add_all b cs) ≡ event_document b.xml_namespace b.instance_element cs
document-event_document b cs =
    ap Builder.document (add_all-after b.xml_namespace b.instance_element cs)
    ∙ document-after b.xml_namespace b.instance_element cs

reset-after :
    (ns : Option Text) (e : Option Element) (cs : List (Text × Text))
    → Builder.reset (after ns e cs) ≡ record { xml_namespace = ns; instance_element = none }
unfolding after Builder.reset
reset-after ns none [] = refl
reset-after ns none (c ∷ cs) = refl
reset-after ns (some (element tag attrs nodes)) cs = refl

pub reset-add_all :
    (b : Builder.Builder) (cs : List (Text × Text))
    → Builder.reset (Builder.add_all b cs) ≡ record b { instance_element = none }
reset-add_all b cs =
    ap Builder.reset (add_all-after b.xml_namespace b.instance_element cs)
    ∙ reset-after b.xml_namespace b.instance_element cs

module _ ⦃x : Ixml⦄ where
  elim-printed : (d : Option Element) → elim d [ none ↦ none | some e ↦ x.to_string e ] ≡ printed d
  elim-printed none = refl
  elim-printed (some e) = refl

  to_xml-printed : (b : Builder.Builder) → to_xml b ≡ printed (Builder.document b)
  unfolding to_xml
  to_xml-printed b = elim-printed (Builder.document b)

  pub to_xml-event_document :
      (b : Builder.Builder) (cs : List (Text × Text))
      → to_xml (Builder.add_all b cs)
        ≡ printed (event_document b.xml_namespace b.instance_element cs)
  to_xml-event_document b cs =
      to_xml-printed (Builder.add_all b cs) ∙ ap printed (document-event_document b cs)
