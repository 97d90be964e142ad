-- ===== src/Diagnostics/FixPlan/Sources.antt =====
-- Which sources `validate_sources` lets through.
use pure_analyzer.Shared.{
  ℕ, true, false, Option, none, some, [], ◌∷◌, ◌≡◌, refl, ap, arith, ◌↔◌, ◌==◌, Bool-cases,
  Option-cases, inl, inr,
}
use pure_analyzer.Shared.Every.{All}
use pure_analyzer.Shared.Maps.{Map, lookup}
use pure_analyzer.Diagnostics.Text.{Text}
use pure_analyzer.Diagnostics.FixPlan.Plan.{
  PlannedFile, FixPlan, FixPlanError, unexpected_source, stale_source, Result, ok, err,
}
use pure_analyzer.Diagnostics.FixPlan.Apply.{
  text_eq, is_planned, unplanned, is_source, check_stale, validate_sources,
}

pub text_eq_refl : (t : Text) → text_eq t t ≡ true
unfolding text_eq
text_eq_refl [] = refl
text_eq_refl (b ∷ t) = ground (arith, text_eq_refl t)

pub text_eq-eq : (s t : Text) → text_eq s t ≡ true → s ≡ t
unfolding text_eq
text_eq-eq [] [] h = refl
text_eq-eq [] (b ∷ t) h = cc
text_eq-eq (a ∷ s) [] h = cc
text_eq-eq (a ∷ s) (b ∷ t) h = elim (Bool-cases (a == b)) [
  | inl e ↦ let first : a ≡ b = ground arith in let rest : s ≡ t = text_eq-eq s t (rw e at h) in cc
  | inr e ↦ absurd (differ (rw e at h))
]
  where
    differ : false ≡ true → ⊥
    differ q = cc

-- The file is supplied with the text that was planned for.
abbrev pub Supplied : Map Text → ℕ × PlannedFile → Type 0
Supplied sources p = lookup p.0 sources ≡ some p.1.source

abbrev pub IsPlanned : Map PlannedFile → ℕ × Text → Type 0
IsPlanned files p = is_planned (lookup p.0 files) ≡ true

is_source-eq : (o : Option Text) (t : Text) → is_source o t ≡ true → o ≡ some t
is_source-eq none t h = cc
is_source-eq (some s) t h = ap some (text_eq-eq s t h)

eq-is_source : (o : Option Text) (t : Text) → o ≡ some t → is_source o t ≡ true
eq-is_source o t h = rw h (text_eq_refl t)

refused : (e : FixPlanError) → ◌≡◌ {A = Result (Unit {0})} (err e) (ok tt) → ⊥
refused e q = cc

check_stale-Supplied :
    (sources : Map Text) (files : Map PlannedFile)
    → check_stale sources files ≡ ok tt
    → All (Supplied sources) files
unfolding check_stale
check_stale-Supplied sources [] h = tt
check_stale-Supplied sources ((k, f) ∷ files) h =
    elim (Bool-cases (is_source (lookup k sources) f.source)) [
      | inl e ↦ (
        is_source-eq (lookup k sources) f.source e,
        check_stale-Supplied sources files (rw e at h),
      )
      | inr e ↦ absurd (refused (stale_source k) (rw e at h))
    ]

Supplied-check_stale :
    (sources : Map Text) (files : Map PlannedFile)
    → All (Supplied sources) files
    → check_stale sources files ≡ ok tt
unfolding check_stale
Supplied-check_stale sources [] h = refl
Supplied-check_stale sources ((k, f) ∷ files) (p, h) =
    rw (eq-is_source (lookup k sources) f.source p) (Supplied-check_stale sources files h)

unplanned-IsPlanned :
    (files : Map PlannedFile) (sources : Map Text)
    → unplanned files sources ≡ none
    → All (IsPlanned files) sources
unfolding unplanned
unplanned-IsPlanned files [] h = tt
unplanned-IsPlanned files ((k, t) ∷ rest) h = elim (Bool-cases (is_planned (lookup k files))) [
  | inl e ↦ (e, unplanned-IsPlanned files rest (rw e at h))
  | inr e ↦ absurd (found (rw e at h))
]
  where
    found : some k ≡ none → ⊥
    found q = cc

pub IsPlanned-unplanned :
    (files : Map PlannedFile) (sources : Map Text)
    → All (IsPlanned files) sources
    → unplanned files sources ≡ none
unfolding unplanned
IsPlanned-unplanned files [] h = refl
IsPlanned-unplanned files ((k, t) ∷ rest) (p, h) = rw p (IsPlanned-unplanned files rest h)

-- `validate_sources` accepts exactly the sources that name only planned files and give each planned
-- file the very text the plan was made for.
pub validate_sources-ok :
    (plan : FixPlan) (sources : Map Text)
    → (validate_sources plan sources ≡ ok tt)
      ↔ (All (Supplied sources) plan.files × All (IsPlanned plan.files) sources)
unfolding validate_sources
validate_sources-ok plan sources = (forth, back)
  where
    forth :
        validate_sources plan sources ≡ ok tt
        → All (Supplied sources) plan.files × All (IsPlanned plan.files) sources
    forth h = elim (Option-cases (unplanned plan.files sources)) [
      | inl n ↦ (
        check_stale-Supplied sources plan.files (rw n at h),
        unplanned-IsPlanned plan.files sources n,
      )
      | inr (k, e) ↦ absurd (refused (unexpected_source k) (rw e at h))
    ]

    back :
        All (Supplied sources) plan.files × All (IsPlanned plan.files) sources
        → validate_sources plan sources ≡ ok tt
    back (s, p) =
        rw (IsPlanned-unplanned plan.files sources p) (Supplied-check_stale sources plan.files s)
