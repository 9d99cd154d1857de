-- ===== src/XmlEscape/Clean.antt =====
-- What xmlescape (src/xmlescape.c) leaves of the bytes that mean something to XML.
use gmrender_resurrect_silan.Base.{
  ℕ, ◌≡◌, refl, ap, ◌∙◌, Bool, false, ◌&&◌, ◌||◌, [], ◌∷◌, ◌++◌, Text, ◌==◌, arith,
}
use gmrender_resurrect_silan.XmlEscape.{escape_byte, xmlescape}
use gmrender_resurrect_silan.XmlEscape.Buffer.{escaped, write_escaped-eq}

-- A byte that ends the text it stands in: a bracket, and in an attribute also a quote.
abbrev pub is_markup : Bool → ℕ → Bool
is_markup attribute c = c == b'<' || c == b'>' || (attribute && c == b'"')

abbrev pub has_markup : Bool → Text → Bool
has_markup attribute [] = false
has_markup attribute (c ∷ s) = is_markup attribute c || has_markup attribute s

has_markup-append :
    (attribute : Bool) (s t : Text)
    → has_markup attribute (s ++ t) ≡ has_markup attribute s || has_markup attribute t
has_markup-append attribute [] t = refl
has_markup-append attribute (c ∷ s) t = ground (arith, has_markup-append attribute s t)

has_markup-escape_byte :
    (attribute : Bool) (c : ℕ) → has_markup attribute (escape_byte attribute c) ≡ false
unfolding escape_byte
has_markup-escape_byte attribute c = ground arith

has_markup-escaped :
    (attribute : Bool) (s : Text) → has_markup attribute (escaped attribute s) ≡ false
unfolding escaped
has_markup-escaped attribute [] = refl
has_markup-escaped attribute (c ∷ s) =
    has_markup-append attribute (escape_byte attribute c) (escaped attribute s)
    ∙ rw (has_markup-escape_byte attribute c) (has_markup-escaped attribute s)

-- What xmlescape writes has no angle bracket in it, and in attribute mode no quote either.
pub has_markup-xmlescape :
    (s : Text) (attribute : Bool) → has_markup attribute (xmlescape s attribute) ≡ false
unfolding xmlescape
has_markup-xmlescape s attribute =
    ap (has_markup attribute) (write_escaped-eq attribute s []) ∙ has_markup-escaped attribute s
