-- ===== src/Variables/Builder.antt =====
-- The UPnPLastChangeBuilder of src/variable-container.c.
use gmrender_resurrect_silan.Base.{
  Bool, ◌||◌, Option, none, some, List, [], ◌∷◌, Text, codes, text_eq, if◌then◌else◌,
}
use gmrender_resurrect_silan.Xml.{
  Element, xmlelement_new, xmldoc_new_topelement, xmlelement_add_element, xmlelement_set_attribute,
  add_attributevalue_element,
}

-- `instance_element` is the one element below the top of `change_event_doc`; it is absent while no
-- document is begun. The top element is put round it when the document is printed.
pub record Builder : Type 0 where
  pub xml_namespace : Option Text
  pub instance_element : Option Element

unfoldable pub new_builder : Option Text → Builder
new_builder ns = record { xml_namespace = ns; instance_element = none }

-- The variables whose value belongs to a channel.
unfoldable pub has_channel : Text → Bool
has_channel name =
    text_eq name (codes "Volume")
    || text_eq name (codes "VolumeDB")
    || text_eq name (codes "Mute")
    || text_eq name (codes "Loudness")

-- What UPnPLastChangeBuilder_add does to the element of the change, after it made it.
unfoldable pub qualify : Text → Element → Element
qualify name e =
    if has_channel name then xmlelement_set_attribute e (codes "channel") (codes "Master") else e

-- The element `<InstanceID val="0">` that a new document begins with.
unfoldable pub begin_instance : Option Element → Element
begin_instance none =
    xmlelement_set_attribute (xmlelement_new (codes "InstanceID")) (codes "val") (codes "0")
begin_instance (some e) = e

-- UPnPLastChangeBuilder_add
unfoldable pub add : Builder → Text → Text → Builder
add b name value = record b {
  instance_element = some (
      add_attributevalue_element (qualify name) (begin_instance b.instance_element) name
        (codes "val") value);
}

-- The document that the builder holds, if one is begun.
unfoldable pub document : Builder → Option Element
document b = elim b.instance_element [
  | none ↦ none
  | some e ↦ some (xmlelement_add_element (xmldoc_new_topelement (codes "Event") b.xml_namespace) e)
]

-- What UPnPLastChangeBuilder_to_xml leaves behind.
unfoldable pub reset : Builder → Builder
reset b = record b { instance_element = none }

-- The builder that holds a list of changes, oldest first.
abbrev pub add_all : Builder → List (Text × Text) → Builder
add_all b [] = b
add_all b ((name, value) ∷ rest) = add_all (add b name value) rest
