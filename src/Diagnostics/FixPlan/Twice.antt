-- ===== src/Diagnostics/FixPlan/Twice.antt =====
-- A plan that changes something is stale for its own output.
use mathlib.Core.Path.{subst}
use pure_analyzer.Shared.{
  ℕ, ◌<◌, true, false, Option, none, some, List, [], ◌∷◌, ◌≡◌, refl, sym, Bool-cases, Option-cases,
  ◌⊎◌, inl, inr,
}
use pure_analyzer.Shared.Every.{All, All-map}
use pure_analyzer.Shared.Maps.{Map, lookup, entry}
use pure_analyzer.Shared.MapOrder.{Sorted, Sorted-lookup}
use pure_analyzer.Diagnostics.Text.{Text}
use pure_analyzer.Diagnostics.Fix.{FileId, TextEdit}
use pure_analyzer.Diagnostics.FixPlan.Plan.{
  PlannedFile, PlannedChange, FixPlan, stale_source, Result, ok, err,
}
use pure_analyzer.Diagnostics.FixPlan.Apply.{
  text_eq, edited, changes_of, with_change, after_of, transformed_changes, apply, only_changed,
  any_change, preview, check, is_source, check_stale, unplanned, validate_sources, is_planned,
}
use pure_analyzer.Diagnostics.FixPlan.Selected.{bind-eq-ok}
use pure_analyzer.Diagnostics.FixPlan.Sources.{
  text_eq_refl, Supplied, IsPlanned, IsPlanned-unplanned, validate_sources-ok,
}

-- What `with_change` puts in front.
Changed : FileId → Text → Option Text → Option (List PlannedChange) → List PlannedChange → Type 0
Changed k before o r cs =
    (after : Text) × (rest : List PlannedChange) × (r ≡ some rest)
    × (record { file = k; before = before; after = after } ∷ rest ≡ cs)

with_change-Changed :
    (k : FileId) (before : Text) (o : Option Text) (r : Option (List PlannedChange))
    (cs : List PlannedChange)
    → with_change k before o r ≡ some cs
    → Changed k before o r cs
unfolding Changed
with_change-Changed k before none r cs h = absurd (cc)
with_change-Changed k before (some after) none cs h = absurd (cc)
with_change-Changed k before (some after) (some rest) cs h = (after, rest, refl, cc)

changes_of-All :
    (P : ℕ → Type 0) (edits : Map (List TextEdit)) (files : Map PlannedFile)
    (cs : List PlannedChange)
    → changes_of edits files ≡ some cs
    → All (λ p. P p.0) files
    → All (λ q. P q.0) (after_of cs)
unfolding changes_of Changed
changes_of-All P edits [] cs h a =
    let eq : [] ≡ cs = cc in subst (λ l. All (λ q. P q.0) (after_of l)) eq tt
changes_of-All P edits ((k, f) ∷ files) cs h (p, a) =
    let (after, rest, r, q) =
      with_change-Changed k f.source (edited f.source (entry k edits)) (changes_of edits files) cs
        h in
    subst (λ l. All (λ x. P x.0) (after_of l)) q (p, changes_of-All P edits files rest r a)

changes_of-Sorted :
    (edits : Map (List TextEdit)) (files : Map PlannedFile) (cs : List PlannedChange)
    → changes_of edits files ≡ some cs
    → Sorted files
    → Sorted (after_of cs)
unfolding changes_of Changed
changes_of-Sorted edits [] cs h a = let eq : [] ≡ cs = cc in subst (λ l. Sorted (after_of l)) eq tt
changes_of-Sorted edits ((k, f) ∷ files) cs h (b, a) =
    let (after, rest, r, q) =
      with_change-Changed k f.source (edited f.source (entry k edits)) (changes_of edits files) cs
        h in
    subst (λ l. Sorted (after_of l)) q
      (changes_of-All (λ j. k < j) edits files rest r b, changes_of-Sorted edits files rest r a)

-- Where every file's text after the edits is the planned one, no change is left.
only_changed_none :
    (m : Map Text) (edits : Map (List TextEdit)) (files : Map PlannedFile) (cs : List PlannedChange)
    → changes_of edits files ≡ some cs
    → All (Supplied m) files
    → All (λ q. lookup q.0 m ≡ some q.1) (after_of cs)
    → only_changed cs ≡ []
unfolding changes_of Changed only_changed
only_changed_none m edits [] cs h s a =
    let eq : [] ≡ cs = cc in subst (λ l. only_changed l ≡ []) eq refl
only_changed_none m edits ((k, f) ∷ files) cs h (p, s) a =
    let (after, rest, r, q) =
      with_change-Changed k f.source (edited f.source (entry k edits)) (changes_of edits files) cs
        h in
    let (now, later) = subst (λ l. All (λ x. lookup x.0 m ≡ some x.1) (after_of l)) (sym q) a in
    let same : f.source ≡ after = cc in
    subst (λ l. only_changed l ≡ []) q
      (rw (subst (λ t. text_eq f.source t ≡ true) same (text_eq_refl f.source))
        (only_changed_none m edits files rest r s later))

check_stale-cases :
    (sources : Map Text) (files : Map PlannedFile)
    → (check_stale sources files ≡ ok tt)
      ⊎ ((f : FileId) × (check_stale sources files ≡ err (stale_source f)))
unfolding check_stale
check_stale-cases sources [] = inl refl
check_stale-cases sources ((k, f) ∷ files) =
    elim (Bool-cases (is_source (lookup k sources) f.source)) [
      | inl e ↦ rw e (check_stale-cases sources files)
      | inr e ↦ inr (k, rw e refl)
    ]

after_of-IsPlanned :
    (edits : Map (List TextEdit)) (files : Map PlannedFile) (cs : List PlannedChange)
    → Sorted files
    → changes_of edits files ≡ some cs
    → All (IsPlanned files) (after_of cs)
after_of-IsPlanned edits files cs o h =
    changes_of-All (λ k. is_planned (lookup k files) ≡ true) edits files cs h
      (All-map (λ p q. rw q refl) files (Sorted-lookup files o))

changes_of-stale :
    (plan : FixPlan) (cs : List PlannedChange)
    → Sorted plan.files
    → changes_of plan.edits plan.files ≡ some cs
    → any_change (only_changed cs) ≡ true
    → (f : FileId) × (validate_sources plan (after_of cs) ≡ err (stale_source f))
unfolding validate_sources
changes_of-stale plan cs o h c =
    let planned =
      IsPlanned-unplanned plan.files (after_of cs)
        (after_of-IsPlanned plan.edits plan.files cs o h) in
    elim (check_stale-cases (after_of cs) plan.files) [
      | inl e ↦ absurd (unchanged planned e)
      | inr (f, e) ↦ (f, rw (planned, e) refl)
    ]
  where
    no_change : false ≡ true → ⊥
    no_change q = cc

    unchanged :
        unplanned plan.files (after_of cs) ≡ none → check_stale (after_of cs) plan.files ≡ ok tt → ⊥
    unchanged n e =
        let (s, p) = (validate_sources-ok plan (after_of cs)).0 (rw (n, e) refl) in
        let none_left =
          only_changed_none (after_of cs) plan.edits plan.files cs h s
            (Sorted-lookup (after_of cs) (changes_of-Sorted plan.edits plan.files cs h o)) in
        no_change (rw none_left at c)

-- Where the files of a plan stand in the order of their ids, as in every `BTreeMap`, and `check` finds
-- a change, what `apply` returns is refused by a second `apply` as stale.
pub apply-stale :
    (plan : FixPlan) (sources out : Map Text)
    → Sorted plan.files
    → check plan sources ≡ ok (some true)
    → apply plan sources ≡ ok (some out)
    → (f : FileId) × (apply plan out ≡ err (stale_source f))
unfolding apply check preview transformed_changes
apply-stale plan sources out o c a =
    let (m, p, q) = bind-eq-ok (transformed_changes plan sources) _ a in
    let (u, v, w) = bind-eq-ok (validate_sources plan sources) _ p in
    elim (Option-cases (changes_of plan.edits plan.files)) [
      | inl n ↦ absurd (nothing (rw (v, n) at a))
      | inr (cs, e) ↦
          let (f, k) = changes_of-stale plan cs o e (found cs (rw (v, e) at c)) in
          (
            f,
            subst (λ t. apply plan t ≡ err (stale_source f)) (same cs (rw (v, e) at a)) (rw k refl),
          )
    ]
  where
    nothing : ◌≡◌ {A = Result (Option (Map Text))} (ok none) (ok (some out)) → ⊥
    nothing q = cc

    found :
        (cs : List PlannedChange)
        → ok (some (any_change (only_changed cs))) ≡ ok (some true)
        → any_change (only_changed cs) ≡ true
    found cs q = cc

    same : (cs : List PlannedChange) → ok (some (after_of cs)) ≡ ok (some out) → after_of cs ≡ out
    same cs q = cc
