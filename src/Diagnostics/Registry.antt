-- ===== src/Diagnostics/Registry.antt =====
-- The registries of crates/pure-analyzer-diagnostics/src/code.rs and verdict.rs read and printed.
use Prim.Native.String.{String}
use text.Mathlib.Text.{◌==◌ as str_eq}
use text.Mathlib.TextEquality.{eq_iff}
use mathlib.Core.Path.{subst}
use pure_analyzer.Shared.{
  ℕ, some, List, [], ◌∷◌, ◌≡◌, ◌↔◌, refl, sym, ap, ◌∙◌, Bool-cases, inl, inr, get_elem?, codes,
}
use pure_analyzer.Diagnostics.Codes
use pure_analyzer.Diagnostics.Codes.{
  DiagCode, DiagFamily, lexer, parser, lint, tool, as_str, family,
}
use pure_analyzer.Diagnostics.Reasons
use pure_analyzer.Diagnostics.Reasons.{ReasonCode, id}

code_found :
    (cs : List DiagCode) (s : String) (c : DiagCode)
    → Codes.find_in cs s ≡ Codes.ok c
    → as_str c ≡ s
unfolding Codes.find_in
code_found [] s c h = absurd (cc)
code_found (d ∷ cs) s c h = elim (Bool-cases (str_eq (as_str d) s)) [
  | inl e ↦
      let taken : Codes.ok d ≡ Codes.ok c = rw e at h in
      let same : d ≡ c = cc in ap as_str (sym same) ∙ (eq_iff (as_str d) s).0 e
  | inr e ↦ code_found cs s c (rw e at h)
]

code_read : (c : DiagCode) → Codes.from_str (as_str c) ≡ Codes.ok c
unfolding Codes.from_str as_str
code_read Codes.unterminated_island = refl
code_read Codes.bad_token = refl
code_read Codes.malformed_syntax = refl
code_read Codes.parenthesized_tuple = refl
code_read Codes.illegal_bracket_index = refl
code_read Codes.malformed_milestoning_arguments = refl
code_read Codes.unknown_join_kind = refl
code_read Codes.wrong_milestoning_arity = refl
code_read Codes.unknown_property = refl
code_read Codes.unknown_source = refl
code_read Codes.model_merge_conflict = refl
code_read Codes.duplicate_model_declaration = refl
code_read Codes.unresolved_model_association = refl

-- A text is read as a diagnostic code exactly if it is the identifier of that code; no two
-- share one, and each is in the registry.
pub codes_from_str-ok :
    (s : String) (c : DiagCode) → (Codes.from_str s ≡ Codes.ok c) ↔ (as_str c ≡ s)
unfolding Codes.from_str
codes_from_str-ok s c = (
  λ h. code_found Codes.all_diag_codes s c h,
  λ h. subst (λ t. Codes.from_str t ≡ Codes.ok c) h (code_read c),
)

reason_found :
    (cs : List ReasonCode) (s : String) (c : ReasonCode)
    → Reasons.find_in cs s ≡ Reasons.ok c
    → id c ≡ s
unfolding Reasons.find_in
reason_found [] s c h = absurd (cc)
reason_found (d ∷ cs) s c h = elim (Bool-cases (str_eq (id d) s)) [
  | inl e ↦
      let taken : Reasons.ok d ≡ Reasons.ok c = rw e at h in
      let same : d ≡ c = cc in ap id (sym same) ∙ (eq_iff (id d) s).0 e
  | inr e ↦ reason_found cs s c (rw e at h)
]

reason_read : (c : ReasonCode) → Reasons.from_str (id c) ≡ Reasons.ok c
unfolding Reasons.from_str id
reason_read Reasons.ind_window = refl
reason_read Reasons.ind_pareto = refl
reason_read Reasons.ind_multistep_fiscal = refl
reason_read Reasons.ind_division_ratio = refl
reason_read Reasons.ind_milestoning_asof = refl
reason_read Reasons.ind_order_underdetermined = refl
reason_read Reasons.ind_opaque_predicate = refl
reason_read Reasons.ind_different_sources = refl
reason_read Reasons.ind_missing_rewrite = refl
reason_read Reasons.ind_unmodeled_op = refl
reason_read Reasons.ind_opaque_function_in_witness = refl
reason_read Reasons.ind_unresolved_schema = refl
reason_read Reasons.ind_witness_budget_exhausted = refl
reason_read Reasons.ind_predicate_normal_form_gap = refl
reason_read Reasons.ind_unparseable = refl
reason_read Reasons.model_incomplete = refl
reason_read Reasons.relation_row_type_unknown = refl

-- A text is read as a reason exactly if it is the identifier of that reason; no two
-- share one, and each is in the registry.
pub reasons_from_str-ok :
    (s : String) (c : ReasonCode) → (Reasons.from_str s ≡ Reasons.ok c) ↔ (id c ≡ s)
unfolding Reasons.from_str
reasons_from_str-ok s c = (
  λ h. reason_found Reasons.all_reason_codes s c h,
  λ h. subst (λ t. Reasons.from_str t ≡ Reasons.ok c) h (reason_read c),
)

-- The first digit of a family's codes.
abbrev digit : DiagFamily → ℕ
digit lexer = b'0'
digit parser = b'1'
digit lint = b'2'
digit tool = b'9'

-- The family of a code is the one that the first digit of its identifier encodes.
pub family-as_str : (c : DiagCode) → get_elem? (codes (as_str c)) 3 ≡ some (digit (family c))
unfolding as_str family
family-as_str Codes.unterminated_island = refl
family-as_str Codes.bad_token = refl
family-as_str Codes.malformed_syntax = refl
family-as_str Codes.parenthesized_tuple = refl
family-as_str Codes.illegal_bracket_index = refl
family-as_str Codes.malformed_milestoning_arguments = refl
family-as_str Codes.unknown_join_kind = refl
family-as_str Codes.wrong_milestoning_arity = refl
family-as_str Codes.unknown_property = refl
family-as_str Codes.unknown_source = refl
family-as_str Codes.model_merge_conflict = refl
family-as_str Codes.duplicate_model_declaration = refl
family-as_str Codes.unresolved_model_association = refl
