-- ===== src/XmlEscape.antt =====
-- src/xmlescape.c. A call with a target writes the escaped text, a call without one only counts.
pub mod Buffer
pub mod RoundTrip
pub mod Clean
use gmrender_resurrect_silan.Base.{
  ℕ, ◌+◌, Bool, ◌&&◌, [], ◌∷◌, ◌++◌, Text, codes, ◌==◌, if◌then◌else◌,
}

-- What one byte is written as.
unfoldable pub escape_byte : Bool → ℕ → Text
escape_byte attribute c =
    if c == b'<'
    then codes "&lt;"
    else if attribute && c == b'"'
    then codes "%22"
    else if c == b'>'
    then codes "&gt;"
    else if c == b'&'
    then codes "&amp;"
    else c ∷ []

-- xmlescape_real with a target: `len` bytes are written already, `out` in the model.
unfoldable pub write_escaped : Bool → Text → Text → Text
write_escaped attribute [] out = out
write_escaped attribute (c ∷ s) out = write_escaped attribute s (out ++ escape_byte attribute c)

-- How many bytes the counting loop adds for one byte.
unfoldable pub escaped_size : Bool → ℕ → ℕ
escaped_size attribute c =
    if c == b'<'
    then 4
    else if attribute && c == b'"'
    then 3
    else if c == b'>'
    then 4
    else if c == b'&'
    then 5
    else 1

-- xmlescape_real without a target, from `len` on.
unfoldable pub escaped_length : Bool → Text → ℕ → ℕ
escaped_length attribute [] len = len
escaped_length attribute (c ∷ s) len = escaped_length attribute s (len + escaped_size attribute c)

-- xmlescape: the text written to the buffer.
unfoldable pub xmlescape : Text → Bool → Text
unfolding write_escaped
xmlescape s attribute = write_escaped attribute s []

-- The buffer that xmlescape allocates for it: the counted length and the NUL.
unfoldable pub allocated : Text → Bool → ℕ
unfolding escaped_length
allocated s attribute = escaped_length attribute s 0 + 1
