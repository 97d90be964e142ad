-- ===== src/Diagnostics/FixPlan/Validate.antt =====
-- crates/pure-analyzer-diagnostics/src/fix_plan.rs: `validate_fix` and `edits_overlap`.
use pure_analyzer.Shared.{
  Bool, true, not, ◌&&◌, ◌||◌, Option, none, some, List, [], ◌∷◌, ltb, if◌then◌else◌, length,
}
use pure_analyzer.Shared.Maps.{Map, lookup, push}
use pure_analyzer.Diagnostics.Text.{Text, is_char_boundary}
use pure_analyzer.Diagnostics.Fix.{TextEdit, is_empty, range_eq}
use pure_analyzer.Diagnostics.FixPlan.Plan.{
  PlannedFile, unknown_file, unordered_edits, out_of_bounds, invalid_utf8_boundary, Result, ok, err,
  ◌>>=◌,
}

unfoldable pub edits_overlap : TextEdit → TextEdit → Bool
edits_overlap left right =
    (ltb left.span.start right.span.end && ltb right.span.start left.span.end)
    || (range_eq left.span right.span && is_empty left.span)

-- The checks of one edit, in the order of the loop.
unfoldable pub check_span : Text → Option PlannedFile → TextEdit → Result (Unit {0})
check_span title none e = err (unknown_file title e.file)
check_span title (some snapshot) e =
    if ltb (length snapshot.source) e.span.start || ltb (length snapshot.source) e.span.end
    then err (out_of_bounds title e.file e.span)
    else if not (is_char_boundary snapshot.source e.span.start)
        || not (is_char_boundary snapshot.source e.span.end)
    then err (invalid_utf8_boundary title e.file e.span)
    else ok tt

unfoldable pub check_spans :
    Text → Map PlannedFile → List TextEdit → Map (List TextEdit) → Result (Map (List TextEdit))
unfolding check_span
check_spans title files [] by_file = ok by_file
check_spans title files (e ∷ es) by_file = check_span title (lookup e.file files) e >>= λ _.
    check_spans title files es (push e.file e by_file)

-- Whether an edit may not follow the one before it in its file.
abbrev pub out_of_order : TextEdit → TextEdit → Bool
out_of_order prior e =
    ltb e.span.start prior.span.end || (range_eq e.span prior.span && is_empty e.span)

unfoldable pub in_order : Option TextEdit → List TextEdit → Bool
in_order previous [] = true
in_order none (e ∷ es) = in_order (some e) es
in_order (some prior) (e ∷ es) = not (out_of_order prior e) && in_order (some e) es

unfoldable pub check_order : Text → Map (List TextEdit) → Result (Unit {0})
unfolding in_order
check_order title [] = ok tt
check_order title ((file, es) ∷ rest) =
    if in_order none es then check_order title rest else err (unordered_edits title file)

unfoldable pub validate_fix : Text → Map PlannedFile → List TextEdit → Result (Unit {0})
unfolding check_spans check_order
validate_fix title files edits =
    check_spans title files edits [] >>= λ by_file. check_order title by_file
