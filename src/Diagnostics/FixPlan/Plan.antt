-- ===== src/Diagnostics/FixPlan/Plan.antt =====
-- crates/pure-analyzer-diagnostics/src/fix_plan.rs: plans and their errors.
use pure_analyzer.Shared.{List}
use pure_analyzer.Shared.Maps.{Map}
use pure_analyzer.Diagnostics.Text.{Text}
use pure_analyzer.Diagnostics.Fix.{FileId, TextRange, FixProvenance, TextEdit}

pub record PlannedFile : Type 0 where
  pub file : FileId
  pub source : Text

pub record PlannedChange : Type 0 where
  pub file : FileId
  pub before : Text
  pub after : Text

pub record FixPlan : Type 0 where
  pub files : Map PlannedFile
  pub edits : Map (List TextEdit)

pub data FixPlanError : Type 0 where
  duplicate_file : FileId → FixPlanError
  empty_fix : Text → FixPlanError
  applicability_policy : Text → FixProvenance → FixPlanError
  unknown_file : Text → FileId → FixPlanError
  unordered_edits : Text → FileId → FixPlanError
  out_of_bounds : Text → FileId → TextRange → FixPlanError
  invalid_utf8_boundary : Text → FileId → TextRange → FixPlanError
  conflict : FileId → Text → Text → FixPlanError
  stale_source : FileId → FixPlanError
  unexpected_source : FileId → FixPlanError

pub data Result {ℓ} (A : Type ℓ) : Type ℓ where
  ok : A → Result A
  err : FixPlanError → Result A

infixl 5 ◌>>=◌
abbrev pub ◌>>=◌ {ℓ κ} : {B : Type κ} {A : Type ℓ} → Result A → (next : A → Result B) → Result B
err why >>= next = err why
ok value >>= next = next value

pub record Candidate : Type 0 where
  pub title : Text
  pub edits : List TextEdit

pub record AcceptedEdit : Type 0 where
  pub title : Text
  pub edit : TextEdit
