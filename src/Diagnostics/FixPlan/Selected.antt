-- ===== src/Diagnostics/FixPlan/Selected.antt =====
-- What `build` accepts: in each file, edits that fit its source and do not overlap, in order.
use pure_analyzer.Shared.{
  ◌≤◌, true, none, some, List, [], ◌∷◌, ◌≡◌, refl, arith, Option-cases, inl, inr, length,
}
use pure_analyzer.Shared.Every.{All}
use pure_analyzer.Shared.Maps.{Map, lookup}
use pure_analyzer.Diagnostics.Text.{Text, is_char_boundary}
use pure_analyzer.Diagnostics.Fix.{TextEdit}
use pure_analyzer.Diagnostics.FixPlan.Plan.{PlannedFile, Result, ok, err, ◌>>=◌}
use pure_analyzer.Diagnostics.FixPlan.Validate.{check_span, check_spans, validate_fix}
use pure_analyzer.Diagnostics.FixPlan.Sorting.{IsOrdered}
use pure_analyzer.Diagnostics.FixPlan.Splice.{Fits}

-- A chain that ends well has gone through its first part.
pub bind-eq-ok {ℓ κ} :
    {B : Type κ} {A : Type ℓ} {end : B} (start : Result A) (next : A → Result B)
    → (start >>= next) ≡ ok end
    → (middle : A) × (start ≡ ok middle) × (next middle ≡ ok end)
bind-eq-ok (err why) next h = cc
bind-eq-ok (ok value) next h = (value, refl, h)

-- The edit lies in the planned source of its file.
pub record Placed (files : Map PlannedFile) (e : TextEdit) : Type 0 where
  pub snapshot : PlannedFile
  pub planned : lookup e.file files ≡ some snapshot
  pub fits : Fits snapshot.source e

check_span-Placed :
    (title : Text) (files : Map PlannedFile) (e : TextEdit)
    → IsOrdered e
    → check_span title (lookup e.file files) e ≡ ok tt
    → Placed files e
check_span-Placed title files e o h = elim (Option-cases (lookup e.file files)) [
  | inl n ↦ absurd (no_file (rw n at h))
  | inr (snapshot, p) ↦
      let k = fitting snapshot (rw p at h) in
      record {
        snapshot = snapshot;
        planned = p;
        fits = record { ordered = o; inside = k.0; start_boundary = k.1; end_boundary = k.2 };
      }
]
  where
    no_file : check_span title none e ≡ ok tt → ⊥
    no_file h = unfold check_span in cc

    fitting :
        (s : PlannedFile)
        → check_span title (some s) e ≡ ok tt
        → (e.span.end ≤ length s.source)
          × (is_char_boundary s.source e.span.start ≡ true)
          × (is_char_boundary s.source e.span.end ≡ true)
    fitting s h = unfold check_span in ground arith

check_spans-Placed :
    (title : Text) (files : Map PlannedFile) (es : List TextEdit) (by_file m : Map (List TextEdit))
    → All IsOrdered es
    → check_spans title files es by_file ≡ ok m
    → All (Placed files) es
unfolding check_spans
check_spans-Placed title files [] by_file m o h = tt
check_spans-Placed title files (e ∷ es) by_file m (o, os) h =
    let (u, p, q) = bind-eq-ok (check_span title (lookup e.file files) e) _ h in
    (check_span-Placed title files e o p, check_spans-Placed title files es _ m os q)

pub validate_fix-Placed :
    (title : Text) (files : Map PlannedFile) (es : List TextEdit)
    → All IsOrdered es
    → validate_fix title files es ≡ ok tt
    → All (Placed files) es
unfolding validate_fix
validate_fix-Placed title files es o h =
    let (m, p, q) = bind-eq-ok (check_spans title files es []) _ h in
    check_spans-Placed title files es [] m o p
