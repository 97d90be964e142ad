-- ===== src/Diagnostics/FixPlan/Applied.antt =====
-- What `apply` returns for a plan that `build` made.
use pure_analyzer.Shared.{
  ℕ, true, Option, none, some, List, [], ◌∷◌, ◌≡◌, refl, sym, ap, ◌∙◌, Bool-cases, inl, inr,
}
use mathlib.Core.Path.{subst}
use pure_analyzer.Shared.Every.{All, All-map, All-zip}
use pure_analyzer.Shared.Maps.{Map, lookup, insert, entry}
use pure_analyzer.Shared.MapOrder.{Sorted, insert-All, insert-Sorted, Sorted-lookup}
use pure_analyzer.Diagnostics.Text.{Text, starts_char}
use pure_analyzer.Diagnostics.Fix.{TextEdit, Diagnostic}
use pure_analyzer.Diagnostics.FixPlan.Plan.{
  PlannedFile, PlannedChange, FixPlan, duplicate_file, ok, err,
}
use pure_analyzer.Diagnostics.FixPlan.Build.{
  collect_files, is_some, collect_candidates, select, build,
}
use pure_analyzer.Diagnostics.FixPlan.Order.{sort_candidates}
use pure_analyzer.Diagnostics.FixPlan.Apply.{
  edited, changes_of, with_change, after_of, map_option, transformed_changes, apply,
}
use pure_analyzer.Diagnostics.FixPlan.Splice.{Fits, splice, edited-splice}
use pure_analyzer.Diagnostics.FixPlan.Selected.{Placed, bind-eq-ok}
use pure_analyzer.Diagnostics.FixPlan.Sources.{Supplied, IsPlanned, validate_sources-ok}
use pure_analyzer.Diagnostics.FixPlan.Safe.{WellMade, SoundIn, build-Sound, ok_plan_injective}

-- A source that is a string does not begin inside a code point.
abbrev pub IsText : PlannedFile → Type 0
IsText f = starts_char f.source ≡ true

abbrev IsTextAt : ℕ × PlannedFile → Type 0
IsTextAt p = IsText p.1

collect_files-Sorted :
    (m : Map PlannedFile) (fs : List PlannedFile) (n : Map PlannedFile)
    → All IsText fs
    → Sorted m × All IsTextAt m
    → collect_files m fs ≡ ok n
    → Sorted n × All IsTextAt n
unfolding collect_files
collect_files-Sorted m [] n ts v h =
    let eq : m ≡ n = cc in subst (λ k. Sorted k × All IsTextAt k) eq v
collect_files-Sorted m (f ∷ fs) n (t, ts) (s, a) h = elim (Bool-cases (is_some (lookup f.file m))) [
  | inl e ↦ absurd (duplicate (rw e at h))
  | inr e ↦
      collect_files-Sorted (insert f.file f m) fs n ts
        (insert-Sorted f.file f m s, insert-All IsTextAt f.file f m t a) (rw e at h)
]
  where
    duplicate : err (duplicate_file f.file) ≡ ok n → ⊥
    duplicate q = cc

-- Each planned file with its edits spliced into its source.
unfoldable pub rewritten : Map (List TextEdit) → Map PlannedFile → Map Text
unfolding splice
rewritten edits [] = []
rewritten edits ((k, f) ∷ rest) = (k, splice 0 f.source (entry k edits)) ∷ rewritten edits rest

abbrev EditedAt : Map (List TextEdit) → ℕ × PlannedFile → Type 0
EditedAt edits p =
    edited p.1.source (entry p.0 edits) ≡ some (splice 0 p.1.source (entry p.0 edits))

changes_of-rewritten :
    (edits : Map (List TextEdit)) (files : Map PlannedFile)
    → All (EditedAt edits) files
    → map_option after_of (changes_of edits files) ≡ some (rewritten edits files)
unfolding changes_of rewritten
changes_of-rewritten edits [] h = refl
changes_of-rewritten edits ((k, f) ∷ rest) (p, h) =
    rw p (after_more (changes_of edits rest) (changes_of-rewritten edits rest h))
  where
    after_more :
        (o : Option (List PlannedChange))
        → map_option after_of o ≡ some (rewritten edits rest)
        → map_option after_of (with_change k f.source (some (splice 0 f.source (entry k edits))) o)
          ≡ some ((k, splice 0 f.source (entry k edits)) ∷ rewritten edits rest)
    after_more none q = cc
    after_more (some cs) q = cc

edited_at :
    (files : Map PlannedFile) (edits : Map (List TextEdit)) (ds : List Diagnostic)
    (p : ℕ × PlannedFile)
    → lookup p.0 files ≡ some p.1
    → IsTextAt p
    → SoundIn ds p.0 (record { files = files; edits = edits })
    → EditedAt edits p
edited_at files edits ds p l t (c, s) =
    edited-splice p.1.source (entry p.0 edits) t c
      (All-map (λ e k. fits_here e k.0.placed k.1) (entry p.0 edits) s)
      (All-map (λ e k. k.0.text) (entry p.0 edits) s)
  where
    same : (a b : PlannedFile) → some a ≡ some b → a ≡ b
    same a b q = cc

    fits_here : (e : TextEdit) → Placed files e → e.file ≡ p.0 → Fits p.1.source e
    fits_here e v q =
        subst (λ f. Fits f.source e)
          (same v.snapshot p.1 (sym v.planned ∙ ap (λ k. lookup k files) q ∙ l)) v.fits

build-collect_files :
    (files : List PlannedFile) (ds : List Diagnostic) (plan : FixPlan)
    → build files ds ≡ ok plan
    → collect_files [] files ≡ ok plan.files
unfolding build
build-collect_files files ds plan h =
    let (by_id, p, q) = bind-eq-ok (collect_files [] files) _ h in
    let (cs, r, t) = bind-eq-ok (collect_candidates by_id ds) _ q in
    let (s, u, v) =
      bind-eq-ok (select (sort_candidates cs) (record { edits = []; accepted = [] })) _ t in
    p ∙ ap (λ made. ok made.files) (ok_plan_injective _ plan v)

-- For a plan made from sources that are strings and from fixes whose ranges are not reversed and whose
-- replacements are strings, and given exactly the planned sources, `apply` does not panic, and returns
-- each file with its edits' ranges replaced in one pass over its source.
pub apply-build :
    (files : List PlannedFile) (ds : List Diagnostic) (plan : FixPlan) (sources : Map Text)
    → All IsText files
    → All (λ d. WellMade d.fix) ds
    → build files ds ≡ ok plan
    → All (Supplied sources) plan.files
    → All (IsPlanned plan.files) sources
    → apply plan sources ≡ ok (some (rewritten plan.edits plan.files))
unfolding apply transformed_changes
apply-build files ds plan sources t w h s p =
    let (order, texts) =
      collect_files-Sorted [] files plan.files t (tt, tt) (build-collect_files files ds plan h) in
    rw ((validate_sources-ok plan sources).1 (s, p)) (
      ap ok (
        changes_of-rewritten plan.edits plan.files (
          All-zip
            (λ q l u. edited_at plan.files plan.edits ds q l u (build-Sound files ds plan q.0 w h))
            plan.files (Sorted-lookup plan.files order) texts)))
