-- ===== src/MiniXml/Tests.antt =====
-- Runs of the XML parser, and its theorem at a concrete document.
use miniupnpd_sdn.Base.{◌+◌, ◌≤◌, ◌≡◌, refl, [], ◌∷◌, ◌++◌, codes, arith}
use miniupnpd_sdn.MiniXml.Effects.{starts, ends, text, attribute, next, fault, emit, stop_if}
use miniupnpd_sdn.MiniXml.Safe.{Ends}
use miniupnpd_sdn.MiniXml.Bounds.{parsexml-Ends}
use miniupnpd_sdn.MiniXml.{
  is_white_space, ends_name, read, advance_while, matches, seek, pass_equals, att_value, att,
  parseatt, comment, element_name, cdata, char_data, content, open_tag, close_tag, tag,
  parseelt_step, parseelt, parsexml,
}

ruleset parser = (
  is_white_space, ends_name, read, advance_while, matches, seek, pass_equals, att_value, att,
  parseatt, comment, element_name, cdata, char_data, content, open_tag, close_tag, tag,
  parseelt_step, parseelt, parsexml,
)

parse_runs :
    parsexml (codes "<u:a k='v'> 1</u:a>") 19
    ≡ (starts 3 1 ∷ attribute 5 1 8 1 ∷ text 11 2 ∷ ends 15 3 ∷ [], next 19)
unfolding is_white_space ends_name read advance_while matches seek pass_equals att_value att
    parseatt comment element_name cdata char_data content open_tag close_tag tag parseelt_step
    parseelt parsexml emit stop_if
parse_runs = refl

-- A colon at the end of the document makes the parser read the byte behind it.
colon_reads_on : parsexml (codes "<a:") 3 ≡ ([], fault)
unfolding is_white_space ends_name read advance_while matches seek pass_equals att_value att
    parseatt comment element_name cdata char_data content open_tag close_tag tag parseelt_step
    parseelt parsexml emit stop_if
colon_reads_on = refl

parsexml-Ends_example : Ends 3 (λ q. 3 ≤ q + 1) (parsexml (codes "<a:" ++ 0 ∷ []) 3)
parsexml-Ends_example = parsexml-Ends (codes "<a:" ++ 0 ∷ []) 3 (omega arith)
