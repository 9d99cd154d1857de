-- ===== src/Variables/Document.antt =====
-- What a LastChange document of src/variable-container.c holds for a list of changes, and what a
-- client is sent of its text, told apart from the functions that build and escape it.
pub mod Built
use gmrender_resurrect_silan.Base.{
  ℕ, ◌≡◌, refl, sym, ap, ◌∙◌, Bool, true, false, ◌||◌, Option, none, some, List, [], ◌∷◌, ◌++◌,
  Text, codes, text_eq, ◌==◌, if◌then◌else◌,
}
use gmrender_resurrect_silan.Xml.{
  Ixml, Element, element, Nodes, empty, child, text_node, append_child, xmlelement_new,
  xmldoc_new_topelement, xmlelement_add_element, xmlelement_set_attribute, set_in,
  add_attributevalue_element,
}
use gmrender_resurrect_silan.XmlEscape.{escape_byte, xmlescape}
use gmrender_resurrect_silan.XmlEscape.Buffer.{escaped, write_escaped-eq}
use gmrender_resurrect_silan.Variables.Builder
use gmrender_resurrect_silan.Variables.Model.{Notification}
use gmrender_resurrect_silan.Variables.Change.{to_xml, notification}

abbrev pub one_of : Text → List Text → Bool
one_of t [] = false
one_of t (u ∷ us) = text_eq t u || one_of t us

-- The variables that RenderingControl keeps for each channel.
abbrev pub channel_names : List Text
channel_names = codes "Volume" ∷ codes "VolumeDB" ∷ codes "Mute" ∷ codes "Loudness" ∷ []

-- `<name val="value"/>`, and for the variables of a channel `<name val="value" channel="Master"/>`
abbrev pub change_element : Text → Text → Element
change_element name value =
    element name
      ((codes "val", value)
        ∷ (if one_of name channel_names then (codes "channel", codes "Master") ∷ [] else []))
      empty

-- An element for each change, in their order.
abbrev pub change_nodes : List (Text × Text) → Nodes
change_nodes [] = empty
change_nodes ((name, value) ∷ rest) = child (change_element name value) (change_nodes rest)

-- Nodes with others after them.
abbrev pub joined : Nodes → Nodes → Nodes
joined empty ms = ms
joined (child e ns) ms = child e (joined ns ms)
joined (text_node t ns) ms = text_node t (joined ns ms)

abbrev pub namespace_attribute : Option Text → List (Text × Text)
namespace_attribute none = []
namespace_attribute (some ns) = (codes "xmlns", ns) ∷ []

-- `<Event xmlns="..."><InstanceID val="0">` with the changes below it; if an instance is begun already
-- they follow what it has, and without any there is no document.
abbrev pub event_document : Option Text → Option Element → List (Text × Text) → Option Element
event_document ns none [] = none
event_document ns none (c ∷ cs) = some (
    element (codes "Event") (namespace_attribute ns) (
      child (element (codes "InstanceID") ((codes "val", codes "0") ∷ []) (change_nodes (c ∷ cs)))
        empty))
event_document ns (some (element tag attrs nodes)) cs = some (
    element (codes "Event") (namespace_attribute ns)
      (child (element tag attrs (joined nodes (change_nodes cs))) empty))

-- A text with entities for `<`, `>` and `&`.
abbrev pub entity : ℕ → Text
entity c =
    if c == b'<'
    then codes "&lt;"
    else if c == b'>'
    then codes "&gt;"
    else if c == b'&'
    then codes "&amp;"
    else c ∷ []

abbrev pub with_entities : Text → Text
with_entities [] = []
with_entities (c ∷ s) = entity c ++ with_entities s

-- What the subscribers of a service are sent for a document.
abbrev pub last_change_message : Text → Text → Notification
last_change_message service xml = record {
  notified_service = service;
  variables = (codes "LastChange", with_entities xml) ∷ [];
}

module _ ⦃x : Ixml⦄ where
  -- The text of a document, if there is one and it can be printed.
  abbrev pub printed : Option Element → Option Text
  printed none = none
  printed (some e) = x.to_string e
