-- ===== src/Diagnostics/FixPlan/Build.antt =====
-- crates/pure-analyzer-diagnostics/src/fix_plan.rs: `FixPlan::build`.
use pure_analyzer.Shared.{Bool, true, false, not, Option, none, some, List, [], ◌∷◌, if◌then◌else◌}
use pure_analyzer.Shared.Maps.{Map, lookup, insert, entry, push}
use pure_analyzer.Diagnostics.Text.{Text}
use pure_analyzer.Diagnostics.Fix.{
  permits_machine_application, is_machine_applicable, TextEdit, Fix, Diagnostic,
}
use pure_analyzer.Diagnostics.FixPlan.Plan.{
  PlannedFile, FixPlan, duplicate_file, empty_fix, applicability_policy, conflict, Result, ok, err,
  ◌>>=◌, Candidate, AcceptedEdit,
}
use pure_analyzer.Diagnostics.FixPlan.Order.{sort_candidates, sort_edits}
use pure_analyzer.Diagnostics.FixPlan.Validate.{edits_overlap, validate_fix}

abbrev pub is_some : Option PlannedFile → Bool
is_some none = false
is_some (some f) = true

-- `files_by_id`; the loop stops at the first file that is already there.
unfoldable pub collect_files : Map PlannedFile → List PlannedFile → Result (Map PlannedFile)
collect_files files_by_id [] = ok files_by_id
collect_files files_by_id (f ∷ fs) =
    let rest = collect_files (insert f.file f files_by_id) fs in
    if is_some (lookup f.file files_by_id) then err (duplicate_file f.file) else rest

abbrev pub no_edits : List TextEdit → Bool
no_edits [] = true
no_edits (e ∷ es) = false

-- One round of the loop over the diagnostics: `none` is a `continue`.
unfoldable pub candidate_of : Map PlannedFile → Fix → Result (Option Candidate)
candidate_of files fix =
    if not (is_machine_applicable fix.applicability)
    then ok none
    else if not (permits_machine_application fix.provenance)
    then err (applicability_policy fix.title fix.provenance)
    else if no_edits fix.edits
    then err (empty_fix fix.title)
    else validate_fix fix.title files fix.edits >>= λ _.
        ok (some (record { title = fix.title; edits = fix.edits }))

abbrev pub with_candidate : Option Candidate → List Candidate → List Candidate
with_candidate none cs = cs
with_candidate (some c) cs = c ∷ cs

abbrev pub round : Map PlannedFile → Option Fix → Result (Option Candidate)
round files none = ok none
round files (some fix) = candidate_of files fix

-- The source appends to a vector; here the candidates of the later diagnostics are put behind.
unfoldable pub collect_candidates : Map PlannedFile → List Diagnostic → Result (List Candidate)
unfolding candidate_of
collect_candidates files [] = ok []
collect_candidates files (d ∷ ds) =
    round files d.fix >>= λ c. collect_candidates files ds >>= λ cs. ok (with_candidate c cs)

pub record Selection : Type 0 where
  pub edits : Map (List TextEdit)
  pub accepted : Map (List AcceptedEdit)

-- `find(|prior| edits_overlap(&prior.edit, edit))`
unfoldable pub find_overlap : TextEdit → List AcceptedEdit → Option AcceptedEdit
unfolding edits_overlap
find_overlap e [] = none
find_overlap e (prior ∷ rest) =
    if edits_overlap prior.edit e then some prior else find_overlap e rest

abbrev pub accepted_with : Text → TextEdit → Selection → Selection
accepted_with title e s = record {
  edits = push e.file e s.edits;
  accepted = push e.file (record { title = title; edit = e }) s.accepted;
}

abbrev pub unless_conflict : Text → TextEdit → Selection → Option AcceptedEdit → Result Selection
unless_conflict title e s (some prior) = err (conflict e.file prior.title title)
unless_conflict title e s none = ok (accepted_with title e s)

unfoldable pub accept_edit : Text → TextEdit → Selection → Result Selection
unfolding find_overlap
accept_edit title e s = unless_conflict title e s (find_overlap e (entry e.file s.accepted))

unfoldable pub accept_edits : Text → List TextEdit → Selection → Result Selection
unfolding accept_edit
accept_edits title [] s = ok s
accept_edits title (e ∷ es) s = accept_edit title e s >>= λ t. accept_edits title es t

unfoldable pub select : List Candidate → Selection → Result Selection
unfolding accept_edits
select [] s = ok s
select (c ∷ cs) s = accept_edits c.title c.edits s >>= λ t. select cs t

unfoldable pub sort_all : Map (List TextEdit) → Map (List TextEdit)
unfolding sort_edits
sort_all [] = []
sort_all ((file, es) ∷ rest) = (file, sort_edits es) ∷ sort_all rest

unfoldable pub build : List PlannedFile → List Diagnostic → Result FixPlan
unfolding collect_files collect_candidates sort_candidates select sort_all
build files diagnostics = collect_files [] files >>= λ by_id.
    collect_candidates by_id diagnostics >>= λ candidates.
    select (sort_candidates candidates) (record { edits = []; accepted = [] }) >>= λ s.
    ok (record { files = by_id; edits = sort_all s.edits })
