-- ===== src/XmlEscape/RoundTrip.antt =====
-- What a reader of XML makes of the text that xmlescape (src/xmlescape.c) wrote.
use gmrender_resurrect_silan.Base.{
  ℕ, zero, suc, ◌≤◌, ◌≡◌, refl, ap, sym, ◌∙◌, true, false, Option, none, some, [], ◌∷◌, ◌++◌, Text,
  codes, strlen, ◌==◌, if◌then◌else◌, arith,
}
use gmrender_resurrect_silan.XmlEscape.{escape_byte, xmlescape}
use gmrender_resurrect_silan.XmlEscape.Buffer.{escaped, write_escaped-eq}

-- The text behind a prefix.
abbrev pub strip : Text → Text → Option Text
strip [] s = some s
strip (a ∷ p) [] = none
strip (a ∷ p) (c ∷ s) = if a == c then strip p s else none

abbrev pub or_else : Option (ℕ × Text) → Option (ℕ × Text) → Option (ℕ × Text)
or_else none o = o
or_else (some r) o = some r

abbrev pub named : ℕ → Option Text → Option (ℕ × Text)
named c none = none
named c (some s) = some (c, s)

-- The entities of XML that xmlescape uses, behind their `&`.
abbrev pub entity : Text → Option (ℕ × Text)
entity s =
    or_else (named b'<' (strip (codes "lt;") s))
      (or_else (named b'>' (strip (codes "gt;") s)) (named b'&' (strip (codes "amp;") s)))

abbrev pub char_or_entity : ℕ → Text → ℕ × Text
char_or_entity c s = if c == b'&' then elim (entity s) [ none ↦ (c, s) | some r ↦ r ] else (c, s)

-- XML text read: one character or entity at a time, at most `fuel` of them.
unfoldable pub unescape_from : ℕ → Text → Text
unescape_from zero s = []
unescape_from (suc fuel) [] = []
unescape_from (suc fuel) (c ∷ s) = let (d, rest) = char_or_entity c s in d ∷ unescape_from fuel rest

-- Each of them takes up a byte at least, so the length is fuel enough.
unfoldable pub unescape : Text → Text
unfolding unescape_from
unescape s = unescape_from (strlen s) s

unescape-byte :
    (fuel c : ℕ) (s : Text)
    → unescape_from (suc fuel) (escape_byte false c ++ s) ≡ c ∷ unescape_from fuel s
unfolding unescape_from escape_byte
unescape-byte fuel c s = ground arith

unescape_from-escaped :
    (s : Text) (fuel : ℕ) → strlen s ≤ fuel → unescape_from fuel (escaped false s) ≡ s
unfolding escaped
unescape_from-escaped [] zero h = unfold unescape_from in refl
unescape_from-escaped [] (suc fuel) h = unfold unescape_from in refl
unescape_from-escaped (c ∷ s) zero h = absurd (omega arith)
unescape_from-escaped (c ∷ s) (suc fuel) h =
    unescape-byte fuel c (escaped false s) ∙ ap (◌∷◌ c) (unescape_from-escaped s fuel (omega arith))

strlen-escaped : (s : Text) → strlen s ≤ strlen (escaped false s)
unfolding escaped escape_byte
strlen-escaped [] = omega arith
strlen-escaped (c ∷ s) = ground (arith, strlen-escaped s)

-- A reader of XML makes of what xmlescape wrote as text content the text that it was given.
pub unescape-xmlescape : (s : Text) → unescape (xmlescape s false) ≡ s
unfolding unescape xmlescape
unescape-xmlescape s =
    rw (write_escaped-eq false s [])
      (unescape_from-escaped s (strlen (escaped false s)) (strlen-escaped s))

escaped-collision :
    (s t : Text) → escaped true (s ++ (b'"' ∷ t)) ≡ escaped true (s ++ (codes "%22" ++ t))
unfolding escaped escape_byte
escaped-collision [] t = refl
escaped-collision (c ∷ s) t = ap (◌++◌ (escape_byte true c)) (escaped-collision s t)

-- In attribute mode a text with a quote and the text with `%22` in place of it are written alike,
-- wherever the quote stands: no reader can tell the two apart.
pub xmlescape-collision :
    (s t : Text) → xmlescape (s ++ (b'"' ∷ t)) true ≡ xmlescape (s ++ (codes "%22" ++ t)) true
unfolding xmlescape
xmlescape-collision s t =
    write_escaped-eq true (s ++ (b'"' ∷ t)) []
    ∙ escaped-collision s t
    ∙ sym (write_escaped-eq true (s ++ (codes "%22" ++ t)) [])
