-- ===== src/XmlEscape/Buffer.antt =====
-- The two passes of xmlescape (src/xmlescape.c): what the first measures and what the second writes.
use gmrender_resurrect_silan.Base.{
  ℕ, ◌+◌, ◌≡◌, ap, sym, ◌∙◌, Bool, [], ◌∷◌, ◌++◌, append_assoc, append-nil, Text, strlen,
  strlen-append, arith,
}
use gmrender_resurrect_silan.XmlEscape.{
  escape_byte, write_escaped, escaped_size, escaped_length, xmlescape, allocated,
}

-- The bytes that are written for a text, one after the other.
unfoldable pub escaped : Bool → Text → Text
escaped attribute [] = []
escaped attribute (c ∷ s) = escape_byte attribute c ++ escaped attribute s

pub write_escaped-eq :
    (attribute : Bool) (s out : Text) → write_escaped attribute s out ≡ out ++ escaped attribute s
unfolding write_escaped escaped
write_escaped-eq attribute [] out = sym (append-nil out)
write_escaped-eq attribute (c ∷ s) out =
    write_escaped-eq attribute s (out ++ escape_byte attribute c)
    ∙ append_assoc out (escape_byte attribute c) (escaped attribute s)

escaped_size-strlen :
    (attribute : Bool) (c : ℕ) → escaped_size attribute c ≡ strlen (escape_byte attribute c)
unfolding escaped_size escape_byte
escaped_size-strlen attribute c = ground arith

escaped_length-strlen :
    (attribute : Bool) (s : Text) (len : ℕ)
    → escaped_length attribute s len ≡ len + strlen (escaped attribute s)
unfolding escaped_length escaped
escaped_length-strlen attribute [] len = omega arith
escaped_length-strlen attribute (c ∷ s) len = omega (
  arith,
  escaped_length-strlen attribute s (len + escaped_size attribute c),
  escaped_size-strlen attribute c,
  strlen-append (escape_byte attribute c) (escaped attribute s),
)

-- In both modes the buffer that xmlescape allocates holds exactly the text it writes and the NUL.
pub allocated-strlen :
    (s : Text) (attribute : Bool) → allocated s attribute ≡ strlen (xmlescape s attribute) + 1
unfolding allocated xmlescape
allocated-strlen s attribute =
    omega (arith, escaped_length-strlen attribute s 0, ap strlen (write_escaped-eq attribute s []))
