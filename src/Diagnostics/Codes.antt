-- ===== src/Diagnostics/Codes.antt =====
-- crates/pure-analyzer-diagnostics/src/code.rs: the diagnostic codes.
use Prim.Native.String.{String}
use text.Mathlib.Text.{◌==◌ as str_eq}
use pure_analyzer.Shared.{List, [], ◌∷◌, if◌then◌else◌}

pub data DiagCode : Type 0 where
  unterminated_island bad_token malformed_syntax parenthesized_tuple illegal_bracket_index
        malformed_milestoning_arguments unknown_join_kind wrong_milestoning_arity unknown_property
        unknown_source model_merge_conflict duplicate_model_declaration
        unresolved_model_association :
      DiagCode

pub data DiagFamily : Type 0 where
  lexer parser lint tool : DiagFamily

-- The registry, in the source's order.
abbrev pub all_diag_codes : List DiagCode
all_diag_codes =
    unterminated_island ∷ bad_token ∷ malformed_syntax ∷ parenthesized_tuple ∷ illegal_bracket_index
    ∷ malformed_milestoning_arguments ∷ unknown_join_kind ∷ wrong_milestoning_arity
    ∷ unknown_property ∷ unknown_source ∷ model_merge_conflict ∷ duplicate_model_declaration
    ∷ unresolved_model_association ∷ []

unfoldable pub as_str : DiagCode → String
as_str unterminated_island = "PUR0101"
as_str bad_token = "PUR0102"
as_str malformed_syntax = "PUR1200"
as_str parenthesized_tuple = "PUR1201"
as_str illegal_bracket_index = "PUR1202"
as_str malformed_milestoning_arguments = "PUR1204"
as_str unknown_join_kind = "PUR1210"
as_str wrong_milestoning_arity = "PUR2001"
as_str unknown_property = "PUR2002"
as_str unknown_source = "PUR2101"
as_str model_merge_conflict = "PUR9000"
as_str duplicate_model_declaration = "PUR9002"
as_str unresolved_model_association = "PUR9003"

unfoldable pub family : DiagCode → DiagFamily
family unterminated_island = lexer
family bad_token = lexer
family malformed_syntax = parser
family parenthesized_tuple = parser
family illegal_bracket_index = parser
family malformed_milestoning_arguments = parser
family unknown_join_kind = parser
family wrong_milestoning_arity = lint
family unknown_property = lint
family unknown_source = lint
family model_merge_conflict = tool
family duplicate_model_declaration = tool
family unresolved_model_association = tool

pub data Parsed : Type 0 where
  ok : DiagCode → Parsed
  unknown : String → Parsed

-- `find` over the registry, and `ok_or_else`.
unfoldable pub find_in : List DiagCode → String → Parsed
unfolding as_str
find_in [] value = unknown value
find_in (c ∷ cs) value = if str_eq (as_str c) value then ok c else find_in cs value

unfoldable pub from_str : String → Parsed
unfolding find_in
from_str value = find_in all_diag_codes value
