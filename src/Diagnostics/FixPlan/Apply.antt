-- ===== src/Diagnostics/FixPlan/Apply.antt =====
-- crates/pure-analyzer-diagnostics/src/fix_plan.rs: `apply`, `preview`, `check` and what they share.
use pure_analyzer.Shared.{
  Bool, true, false, not, ◌&&◌, Option, none, some, List, [], ◌∷◌, ◌==◌, if◌then◌else◌,
}
use pure_analyzer.Shared.Maps.{Map, lookup, entry}
use pure_analyzer.Diagnostics.Text.{Text, replace_range}
use pure_analyzer.Diagnostics.Fix.{FileId, TextEdit}
use pure_analyzer.Diagnostics.FixPlan.Plan.{
  PlannedFile, PlannedChange, FixPlan, stale_source, unexpected_source, Result, ok, err, ◌>>=◌,
}

-- Equality of texts.
unfoldable pub text_eq : Text → Text → Bool
text_eq [] [] = true
text_eq (a ∷ s) (b ∷ t) = a == b && text_eq s t
text_eq _ _ = false

abbrev pub is_planned : Option PlannedFile → Bool
is_planned none = false
is_planned (some f) = true

-- `sources.keys().find(|file| !self.files.contains_key(file))`
unfoldable pub unplanned : Map PlannedFile → Map Text → Option FileId
unplanned files [] = none
unplanned files ((file, t) ∷ rest) =
    if not (is_planned (lookup file files)) then some file else unplanned files rest

abbrev pub is_source : Option Text → Text → Bool
is_source none t = false
is_source (some s) t = text_eq s t

unfoldable pub check_stale : Map Text → Map PlannedFile → Result (Unit {0})
unfolding text_eq
check_stale sources [] = ok tt
check_stale sources ((file, snapshot) ∷ rest) =
    if is_source (lookup file sources) snapshot.source
    then check_stale sources rest
    else err (stale_source file)

abbrev pub or_unexpected : Option FileId → Result (Unit {0}) → Result (Unit {0})
or_unexpected none r = r
or_unexpected (some file) r = err (unexpected_source file)

unfoldable pub validate_sources : FixPlan → Map Text → Result (Unit {0})
unfolding unplanned check_stale
validate_sources plan sources =
    or_unexpected (unplanned plan.files sources) (check_stale sources plan.files)

abbrev pub then_replace : TextEdit → Option Text → Option Text
then_replace e none = none
then_replace e (some t) = replace_range t e.span.start e.span.end e.new_text

-- The edits of a file, the last one first. `none` is a panic of `replace_range`.
unfoldable pub edited : Text → List TextEdit → Option Text
edited t [] = some t
edited t (e ∷ es) = then_replace e (edited t es)

abbrev pub with_change :
    FileId → Text → Option Text → Option (List PlannedChange) → Option (List PlannedChange)
with_change file before none rest = none
with_change file before (some after) none = none
with_change file before (some after) (some rest) =
    some (record { file = file; before = before; after = after } ∷ rest)

unfoldable pub changes_of : Map (List TextEdit) → Map PlannedFile → Option (List PlannedChange)
unfolding edited
changes_of edits [] = some []
changes_of edits ((file, snapshot) ∷ rest) =
    with_change file snapshot.source (edited snapshot.source (entry file edits))
      (changes_of edits rest)

unfoldable pub transformed_changes : FixPlan → Map Text → Result (Option (List PlannedChange))
unfolding changes_of
transformed_changes plan sources =
    validate_sources plan sources >>= λ _. ok (changes_of plan.edits plan.files)

abbrev pub after_of : List PlannedChange → Map Text
after_of [] = []
after_of (c ∷ cs) = (c.file, c.after) ∷ after_of cs

abbrev pub map_option {ℓ κ} : {A : Type ℓ} {B : Type κ} → (A → B) → Option A → Option B
map_option f none = none
map_option f (some a) = some (f a)

unfoldable pub apply : FixPlan → Map Text → Result (Option (Map Text))
unfolding transformed_changes
apply plan sources = transformed_changes plan sources >>= λ cs. ok (map_option after_of cs)

-- `change.before != change.after`
unfoldable pub only_changed : List PlannedChange → List PlannedChange
unfolding text_eq
only_changed [] = []
only_changed (c ∷ cs) = if text_eq c.before c.after then only_changed cs else c ∷ only_changed cs

unfoldable pub preview : FixPlan → Map Text → Result (Option (List PlannedChange))
unfolding transformed_changes only_changed
preview plan sources = transformed_changes plan sources >>= λ cs. ok (map_option only_changed cs)

abbrev pub any_change : List PlannedChange → Bool
any_change [] = false
any_change (c ∷ cs) = true

unfoldable pub check : FixPlan → Map Text → Result (Option Bool)
unfolding preview
check plan sources = preview plan sources >>= λ cs. ok (map_option any_change cs)
