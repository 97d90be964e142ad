-- ===== src/Diagnostics/Tests.antt =====
-- Two identifiers read.
use pure_analyzer.Shared.{◌≡◌, ◌↔◌, some, get_elem?, codes}
use pure_analyzer.Diagnostics.Codes
use pure_analyzer.Diagnostics.Codes.{as_str, bad_token, unknown_property}
use pure_analyzer.Diagnostics.Reasons
use pure_analyzer.Diagnostics.Reasons.{id, ind_window}
use pure_analyzer.Diagnostics.Registry.{codes_from_str-ok, reasons_from_str-ok, family-as_str}

codes_from_str-ok_example :
    (Codes.from_str "PUR0102" ≡ Codes.ok bad_token) ↔ (as_str bad_token ≡ "PUR0102")
codes_from_str-ok_example = codes_from_str-ok "PUR0102" bad_token

reasons_from_str-ok_example :
    (Reasons.from_str "IND_WINDOW" ≡ Reasons.ok ind_window) ↔ (id ind_window ≡ "IND_WINDOW")
reasons_from_str-ok_example = reasons_from_str-ok "IND_WINDOW" ind_window

family-as_str_example : get_elem? (codes (as_str unknown_property)) 3 ≡ some b'2'
unfolding Codes.family
family-as_str_example = family-as_str unknown_property
