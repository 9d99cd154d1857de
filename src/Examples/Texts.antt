-- ===== src/Examples/Texts.antt =====
-- Times, texts and numbers at concrete inputs.
use gmrender_resurrect_silan.Base.{◌+◌, ◌≡◌, true, false, Text, codes, strlen, ◌∷◌, ◌++◌}
use gmrender_resurrect_silan.Base.Int.{pos}
use gmrender_resurrect_silan.Time.{print_upnp_time, parse_upnp_time}
use gmrender_resurrect_silan.Time.RoundTrip.{parse-print_upnp_time}
use gmrender_resurrect_silan.XmlEscape.{xmlescape, allocated}
use gmrender_resurrect_silan.XmlEscape.Buffer.{allocated-strlen}
use gmrender_resurrect_silan.XmlEscape.RoundTrip.{unescape, unescape-xmlescape, xmlescape-collision}
use gmrender_resurrect_silan.XmlEscape.Clean.{has_markup, has_markup-xmlescape}

abbrev title : Text
title = codes "<b>\"Q & A\"</b>"

parse-print_upnp_time_example : parse_upnp_time (print_upnp_time (pos 3725)) ≡ pos 3725
parse-print_upnp_time_example = parse-print_upnp_time 3725

allocated-strlen_example : allocated title true ≡ strlen (xmlescape title true) + 1
allocated-strlen_example = allocated-strlen title true

unescape-xmlescape_example : unescape (xmlescape title false) ≡ title
unescape-xmlescape_example = unescape-xmlescape title

has_markup-xmlescape_example : has_markup true (xmlescape title true) ≡ false
has_markup-xmlescape_example = has_markup-xmlescape title true

xmlescape-collision_example :
    xmlescape (title ++ (b'"' ∷ title)) true ≡ xmlescape (title ++ (codes "%22" ++ title)) true
xmlescape-collision_example = xmlescape-collision title title
