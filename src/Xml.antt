-- ===== src/Xml.antt =====
-- src/xmldoc.c, the builder of XML documents. The C code links nodes of the ixml library; here a
-- document is a tree, and a function that links a node below a parent returns the new parent.
use gmrender_resurrect_silan.Base.{
  Option, none, some, List, [], ◌∷◌, Text, codes, text_eq, if◌then◌else◌,
}

-- Attributes are in the order in which they were set.
mutual
  pub data Element : Type 0 where
    element : Text → List (Text × Text) → Nodes → Element

  pub data Nodes : Type 0 where
    empty : Nodes
    child : Element → Nodes → Nodes
    text_node : Text → Nodes → Nodes

-- What the program relies on of ixml: `ixmlDocumenttoString` prints the document with the given top
-- element, or fails with NULL.
pub record Ixml : Type 0 where
  pub to_string : Element → Option Text

abbrev pub append_child : Nodes → Element → Nodes
append_child empty e = child e empty
append_child (child f ns) e = child f (append_child ns e)
append_child (text_node t ns) e = text_node t (append_child ns e)

abbrev pub append_text : Nodes → Text → Nodes
append_text empty t = text_node t empty
append_text (child f ns) t = child f (append_text ns t)
append_text (text_node s ns) t = text_node s (append_text ns t)

-- An attribute that is set again keeps its place.
unfoldable pub set_in : Text → Text → List (Text × Text) → List (Text × Text)
set_in name value [] = (name, value) ∷ []
set_in name value ((n, v) ∷ rest) =
    if text_eq n name then (n, value) ∷ rest else (n, v) ∷ set_in name value rest

unfoldable pub xmlelement_new : Text → Element
xmlelement_new name = element name [] empty

unfoldable pub xmlelement_set_attribute : Element → Text → Text → Element
unfolding set_in
xmlelement_set_attribute (element tag attrs ns) name value =
    element tag (set_in name value attrs) ns

unfoldable pub xmlelement_add_element : Element → Element → Element
xmlelement_add_element (element tag attrs ns) e = element tag attrs (append_child ns e)

unfoldable pub xmlelement_add_text : Element → Text → Element
xmlelement_add_text (element tag attrs ns) t = element tag attrs (append_text ns t)

unfoldable pub xmldoc_new_topelement : Text → Option Text → Element
unfolding xmlelement_new xmlelement_set_attribute
xmldoc_new_topelement name none = xmlelement_new name
xmldoc_new_topelement name (some xmlns) =
    xmlelement_set_attribute (xmlelement_new name) (codes "xmlns") xmlns

unfoldable pub add_value_element : Element → Text → Text → Element
unfolding xmlelement_new xmlelement_add_text xmlelement_add_element
add_value_element parent tagname value =
    xmlelement_add_element parent (xmlelement_add_text (xmlelement_new tagname) value)

-- The new element is linked below `parent`. The C code hands it back, for further attributes: here
-- the caller says by `finish` what it still does to it.
unfoldable pub add_attributevalue_element :
    (Element → Element) → Element → Text → Text → Text → Element
unfolding xmlelement_new xmlelement_set_attribute xmlelement_add_element
add_attributevalue_element finish parent tagname attribute_name value =
    let top = xmlelement_set_attribute (xmlelement_new tagname) attribute_name value in
    xmlelement_add_element parent (finish top)
