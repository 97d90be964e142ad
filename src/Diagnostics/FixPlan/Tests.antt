-- ===== src/Diagnostics/FixPlan/Tests.antt =====
-- Runs of crates/pure-analyzer-diagnostics/src/fix_plan.rs: two fixes, found in the reverse order of
-- their places, rewrite "abc" to "xbcy".
use mathlib.Core.List.{Memᴰ}
use pure_analyzer.Shared.{ℕ, true, some, List, [], ◌∷◌, ◌≡◌, refl, arith, ◌↔◌}
use pure_analyzer.Shared.Every.{All}
use pure_analyzer.Shared.Maps.{Map, lookup, insert, entry, push}
use pure_analyzer.Diagnostics.Text.{Text, is_char_boundary, replace_range}
use pure_analyzer.Diagnostics.Fix.{
  TextEdit, Fix, permits_machine_application, Diagnostic, machine_applicable, syntax_only,
}
use pure_analyzer.Diagnostics.FixPlan.Plan.{PlannedFile, FixPlan, stale_source, conflict, ok, err}
use pure_analyzer.Diagnostics.FixPlan.Order.{sort_edits}
use pure_analyzer.Diagnostics.FixPlan.Validate.{edits_overlap, validate_fix}
use pure_analyzer.Diagnostics.FixPlan.Build.{build}
use pure_analyzer.Diagnostics.FixPlan.Apply.{validate_sources, apply, preview, check, edited}
use pure_analyzer.Diagnostics.FixPlan.Sorting.{Chained, sort_edits-Chained}
use pure_analyzer.Diagnostics.FixPlan.Splice.{splice, edited-splice}
use pure_analyzer.Diagnostics.FixPlan.Sources.{Supplied, IsPlanned, validate_sources-ok}
use pure_analyzer.Diagnostics.FixPlan.Safe.{SoundIn, build-Sound}
use pure_analyzer.Diagnostics.FixPlan.Twice.{apply-stale}
use pure_analyzer.Diagnostics.FixPlan.Complete.{build-complete}
use pure_analyzer.Diagnostics.FixPlan.Applied.{rewritten, apply-build}

abbrev abc : Text
abc = 97 ∷ 98 ∷ 99 ∷ []

abbrev first_letter : TextEdit
first_letter = record { file = 4; span = record { start = 0; end = 1 }; new_text = 120 ∷ [] }

abbrev at_end : TextEdit
at_end = record { file = 4; span = record { start = 3; end = 3 }; new_text = 121 ∷ [] }

abbrev safe_fix : TextEdit → Fix
safe_fix e = record {
  title = 116 ∷ [];
  applicability = machine_applicable;
  provenance = syntax_only;
  edits = e ∷ [];
}

abbrev fix_of : TextEdit → Diagnostic
fix_of e = record { fix = some (safe_fix e) }

abbrev two_fixes : List Diagnostic
two_fixes = fix_of at_end ∷ fix_of first_letter ∷ []

abbrev one_file : List PlannedFile
one_file = record { file = 4; source = abc } ∷ []

abbrev two_edits : FixPlan
two_edits = record {
  files = (4, record { file = 4; source = abc }) ∷ [];
  edits = (4, first_letter ∷ at_end ∷ []) ∷ [];
}

abbrev same_source : Map Text
same_source = (4, abc) ∷ []

build-two_fixes : build one_file two_fixes ≡ ok two_edits
unfolding build lookup permits_machine_application validate_fix insert is_char_boundary push
build-two_fixes = refl

preview-stale : preview two_edits ((4, 97 ∷ []) ∷ []) ≡ err (stale_source 4)
unfolding preview validate_sources lookup
preview-stale = refl

check-two_edits : check two_edits same_source ≡ ok (some true)
unfolding check validate_sources lookup entry replace_range is_char_boundary
check-two_edits = refl

-- The same edit twice is a conflict of the two fixes.
build-conflict :
    build one_file (fix_of at_end ∷ fix_of at_end ∷ []) ≡ err (conflict 4 (116 ∷ []) (116 ∷ []))
unfolding build lookup permits_machine_application validate_fix insert is_char_boundary push
build-conflict = refl

Supplied-same_source : All (Supplied same_source) two_edits.files
unfolding lookup
Supplied-same_source = (refl, tt)

IsPlanned-same_source : All (IsPlanned two_edits.files) same_source
unfolding lookup
IsPlanned-same_source = (refl, tt)

apply-build_example : apply two_edits same_source ≡ ok (some ((4, 120 ∷ 98 ∷ 99 ∷ 121 ∷ []) ∷ []))
unfolding rewritten entry
apply-build_example =
    apply-build one_file two_fixes two_edits same_source (refl, tt)
      ((((omega arith), refl), tt), ((((omega arith), refl), tt), tt)) build-two_fixes
      Supplied-same_source IsPlanned-same_source

build-Sound_example : SoundIn two_fixes 4 two_edits
build-Sound_example =
    build-Sound one_file two_fixes two_edits 4
      ((((omega arith), refl), tt), ((((omega arith), refl), tt), tt)) build-two_fixes

validate_sources-ok_example :
    (validate_sources two_edits same_source ≡ ok tt)
    ↔ (All (Supplied same_source) two_edits.files × All (IsPlanned two_edits.files) same_source)
validate_sources-ok_example = validate_sources-ok two_edits same_source

sort_edits-Chained_example : Chained (sort_edits (at_end ∷ first_letter ∷ []))
unfolding edits_overlap
sort_edits-Chained_example =
    sort_edits-Chained (at_end ∷ first_letter ∷ []) ((omega arith), ((omega arith), tt))
      ((refl, tt), (tt, tt))

edited-splice_example : edited abc (first_letter ∷ at_end ∷ []) ≡ some (120 ∷ 98 ∷ 99 ∷ 121 ∷ [])
unfolding splice is_char_boundary
edited-splice_example =
    edited-splice abc (first_letter ∷ at_end ∷ []) refl ((omega arith, tt), (tt, tt))
      (
        record {
          ordered = omega arith;
          inside = omega arith;
          start_boundary = refl;
          end_boundary = refl;
        },
        (
          record {
            ordered = omega arith;
            inside = omega arith;
            start_boundary = refl;
            end_boundary = refl;
          },
          tt,
        ),
      )
      (refl, (refl, tt))

build-complete_example : Memᴰ first_letter (entry 4 two_edits.edits)
build-complete_example =
    build-complete one_file two_fixes two_edits (fix_of first_letter) (safe_fix first_letter)
      first_letter build-two_fixes (Memᴰ.tail (Memᴰ.head refl)) refl refl (Memᴰ.head refl)

abbrev new_source : Map Text
new_source = (4, 120 ∷ 98 ∷ 99 ∷ 121 ∷ []) ∷ []

apply-two_edits : apply two_edits same_source ≡ ok (some new_source)
unfolding apply validate_sources lookup entry replace_range is_char_boundary
apply-two_edits = refl

apply-stale_example : (f : ℕ) × (apply two_edits new_source ≡ err (stale_source f))
apply-stale_example =
    apply-stale two_edits same_source new_source (tt, tt) check-two_edits apply-two_edits
