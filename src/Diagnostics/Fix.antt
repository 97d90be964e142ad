-- ===== src/Diagnostics/Fix.antt =====
-- crates/pure-analyzer-diagnostics/src/fix.rs, and of diagnostic.rs the field that plans read. A
-- `FileId` is its index, a title its bytes, and a `TextRange` its two offsets.
use pure_analyzer.Shared.{ℕ, Bool, true, false, ◌&&◌, Option, List, ◌==◌}
use pure_analyzer.Diagnostics.Text.{Text}

abbrev pub FileId : Type 0
FileId = ℕ

pub record TextRange : Type 0 where
  pub start : ℕ
  pub end : ℕ

-- `TextRange::is_empty`
abbrev pub is_empty : TextRange → Bool
is_empty r = r.start == r.end

abbrev pub range_eq : TextRange → TextRange → Bool
range_eq a b = a.start == b.start && a.end == b.end

pub data Applicability : Type 0 where
  machine_applicable suggested unsafe : Applicability

pub data FixProvenance : Type 0 where
  syntax_only model_dependent single_arity_proven : FixProvenance

unfoldable pub permits_machine_application : FixProvenance → Bool
permits_machine_application syntax_only = true
permits_machine_application single_arity_proven = true
permits_machine_application model_dependent = false

abbrev pub is_machine_applicable : Applicability → Bool
is_machine_applicable machine_applicable = true
is_machine_applicable _ = false

pub record TextEdit : Type 0 where
  pub file : FileId
  pub span : TextRange
  pub new_text : Text

pub record Fix : Type 0 where
  pub title : Text
  pub applicability : Applicability
  pub provenance : FixProvenance
  pub edits : List TextEdit

pub record Diagnostic : Type 0 where
  pub fix : Option Fix
