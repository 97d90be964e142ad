-- ===== src/Diagnostics/Reasons.antt =====
-- crates/pure-analyzer-diagnostics/src/verdict.rs: the reasons of inconclusive verdicts.
use Prim.Native.String.{String}
use text.Mathlib.Text.{◌==◌ as str_eq}
use pure_analyzer.Shared.{List, [], ◌∷◌, if◌then◌else◌}

pub data ReasonCode : Type 0 where
  ind_window ind_pareto ind_multistep_fiscal ind_division_ratio ind_milestoning_asof
        ind_order_underdetermined ind_opaque_predicate ind_different_sources ind_missing_rewrite
        ind_unmodeled_op ind_opaque_function_in_witness ind_unresolved_schema
        ind_witness_budget_exhausted ind_predicate_normal_form_gap ind_unparseable model_incomplete
        relation_row_type_unknown :
      ReasonCode

pub data ReasonBucket : Type 0 where
  fundamental recoverable : ReasonBucket

-- The registry, in the source's order.
abbrev pub all_reason_codes : List ReasonCode
all_reason_codes =
    ind_window ∷ ind_pareto ∷ ind_multistep_fiscal ∷ ind_division_ratio ∷ ind_milestoning_asof
    ∷ ind_order_underdetermined ∷ ind_opaque_predicate ∷ ind_different_sources ∷ ind_missing_rewrite
    ∷ ind_unmodeled_op ∷ ind_opaque_function_in_witness ∷ ind_unresolved_schema
    ∷ ind_witness_budget_exhausted ∷ ind_predicate_normal_form_gap ∷ ind_unparseable
    ∷ model_incomplete ∷ relation_row_type_unknown ∷ []

unfoldable pub id : ReasonCode → String
id ind_window = "IND_WINDOW"
id ind_pareto = "IND_PARETO"
id ind_multistep_fiscal = "IND_MULTISTEP_FISCAL"
id ind_division_ratio = "IND_DIVISION_RATIO"
id ind_milestoning_asof = "IND_MILESTONING_ASOF"
id ind_order_underdetermined = "IND_ORDER_UNDERDETERMINED"
id ind_opaque_predicate = "IND_OPAQUE_PREDICATE"
id ind_different_sources = "IND_DIFFERENT_SOURCES"
id ind_missing_rewrite = "IND_MISSING_REWRITE"
id ind_unmodeled_op = "IND_UNMODELED_OP"
id ind_opaque_function_in_witness = "IND_OPAQUE_FUNCTION_IN_WITNESS"
id ind_unresolved_schema = "IND_UNRESOLVED_SCHEMA"
id ind_witness_budget_exhausted = "IND_WITNESS_BUDGET_EXHAUSTED"
id ind_predicate_normal_form_gap = "IND_PREDICATE_NORMAL_FORM_GAP"
id ind_unparseable = "IND_UNPARSEABLE"
id model_incomplete = "MODEL_INCOMPLETE"
id relation_row_type_unknown = "RELATION_ROW_TYPE_UNKNOWN"

unfoldable pub bucket : ReasonCode → ReasonBucket
bucket ind_window = fundamental
bucket ind_pareto = fundamental
bucket ind_multistep_fiscal = fundamental
bucket ind_division_ratio = fundamental
bucket ind_milestoning_asof = fundamental
bucket ind_order_underdetermined = fundamental
bucket ind_opaque_predicate = fundamental
bucket ind_different_sources = fundamental
bucket ind_missing_rewrite = recoverable
bucket ind_unmodeled_op = recoverable
bucket ind_opaque_function_in_witness = recoverable
bucket ind_unresolved_schema = recoverable
bucket ind_witness_budget_exhausted = recoverable
bucket ind_predicate_normal_form_gap = recoverable
bucket ind_unparseable = recoverable
bucket model_incomplete = recoverable
bucket relation_row_type_unknown = recoverable

unfoldable pub blurb : ReasonCode → String
blurb ind_window = "window/OLAP frame equivalence is outside the sound core"
blurb ind_pareto = "pareto/top-per-group equivalence needs modeled tie semantics"
blurb ind_multistep_fiscal = "multi-step fiscal accumulation equivalence is outside the sound core"
blurb ind_division_ratio = "division and ratio equivalence is outside the sound core"
blurb ind_milestoning_asof = "bitemporal as-of equivalence is outside the sound core"
blurb ind_order_underdetermined = "the available facts do not prove a total order"
blurb ind_opaque_predicate = "the predicate is outside the sound interpreted whitelist"
blurb ind_different_sources = "the queries read different named sources"
blurb ind_missing_rewrite = "the normalizer lacks a sound rewrite for this difference"
blurb ind_unmodeled_op = "a relational operator has no sound semantic model"
blurb ind_opaque_function_in_witness = "witness evaluation encountered an uninterpreted function"
blurb ind_unresolved_schema = "the available model facts do not resolve the schema"
blurb ind_witness_budget_exhausted = "deterministic witness enumeration exhausted its budget"
blurb ind_predicate_normal_form_gap = "the predicate did not reach a proven canonical form"
blurb ind_unparseable = "an input or deep-parsed island did not parse"
blurb model_incomplete = "model coverage is insufficient for a hard conclusion"
blurb relation_row_type_unknown = "the relation row's column types are unavailable"

pub data Parsed : Type 0 where
  ok : ReasonCode → Parsed
  unknown : String → Parsed

-- `find` over the registry, and `ok_or_else`.
unfoldable pub find_in : List ReasonCode → String → Parsed
unfolding id
find_in [] value = unknown value
find_in (c ∷ cs) value = if str_eq (id c) value then ok c else find_in cs value

unfoldable pub from_str : String → Parsed
unfolding find_in
from_str value = find_in all_reason_codes value
