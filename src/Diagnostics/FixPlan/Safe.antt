-- ===== src/Diagnostics/FixPlan/Safe.antt =====
-- A plan that `build` returns: which edits it holds, and what applying them gives.
use mathlib.Core.List.{Memᴰ}
use mathlib.Core.Path.{subst}
use pure_analyzer.Shared.{
  true, Option, none, some, List, [], ◌∷◌, ◌≡◌, refl, sym, arith, ◌==◌, Bool-cases, inl, inr,
}
use pure_analyzer.Shared.Every.{All, All-map}
use pure_analyzer.Shared.Maps.{Map, lookup, entry}
use pure_analyzer.Diagnostics.Fix.{
  FileId, TextEdit, Fix, Diagnostic, is_machine_applicable, permits_machine_application,
}
use pure_analyzer.Diagnostics.FixPlan.Plan.{PlannedFile, FixPlan, ok, Candidate}
use pure_analyzer.Diagnostics.FixPlan.Order.{sort, sort_candidates, sort_edits, span_lt}
use pure_analyzer.Diagnostics.FixPlan.Validate.{validate_fix}
use pure_analyzer.Diagnostics.FixPlan.Build.{
  Selection, candidate_of, with_candidate, round, collect_candidates, collect_files, select,
  sort_all, build,
}
use pure_analyzer.Diagnostics.FixPlan.Sorting.{IsOrdered, Chained, sort-All, sort_edits-Chained}
use pure_analyzer.Diagnostics.FixPlan.Splice.{IsString}
use pure_analyzer.Diagnostics.FixPlan.Selected.{Placed, bind-eq-ok, validate_fix-Placed}
use pure_analyzer.Diagnostics.FixPlan.Accepted.{In, IsSelected, select-IsSelected}

-- The edit belongs to a fix of a diagnostic that may be applied without review.
pub record Chosen (ds : List Diagnostic) (e : TextEdit) : Type 0 where
  pub diagnostic : Diagnostic
  pub listed : Memᴰ diagnostic ds
  pub fix : Fix
  pub attached : diagnostic.fix ≡ some fix
  pub machine : is_machine_applicable fix.applicability ≡ true
  pub permitted : permits_machine_application fix.provenance ≡ true
  pub part : Memᴰ e fix.edits

-- What the producers of fixes owe: ranges are not reversed, and replacements are strings.
abbrev pub IsWellMade : TextEdit → Type 0
IsWellMade e = IsOrdered e × IsString e

abbrev pub WellMade : Option Fix → Type 0
WellMade none = Unit
WellMade (some fix) = All IsWellMade fix.edits

pub record Sound (files : Map PlannedFile) (ds : List Diagnostic) (e : TextEdit) : Type 0 where
  pub placed : Placed files e
  pub text : IsString e
  pub chosen : Chosen ds e

candidate_of-some :
    (files : Map PlannedFile) (fix : Fix) (c : Candidate)
    → candidate_of files fix ≡ ok (some c)
    → (is_machine_applicable fix.applicability ≡ true)
      × (permits_machine_application fix.provenance ≡ true)
      × (validate_fix fix.title files fix.edits ≡ ok tt)
      × (c.edits ≡ fix.edits)
unfolding candidate_of
candidate_of-some files fix c h = ground arith

edit_of_fix :
    (files : Map PlannedFile) (all : List Diagnostic) (d : Diagnostic) (fix : Fix)
    (es : List TextEdit)
    → Memᴰ d all
    → d.fix ≡ some fix
    → is_machine_applicable fix.applicability ≡ true
    → permits_machine_application fix.provenance ≡ true
    → ((e : TextEdit) → Memᴰ e es → Memᴰ e fix.edits)
    → All IsWellMade es
    → All (Placed files) es
    → All (Sound files all) es
edit_of_fix files all d fix [] l a m p inc w h = tt
edit_of_fix files all d fix (e ∷ es) l a m p inc (w, ws) (h, hs) = (
  record {
    placed = h;
    text = w.1;
    chosen = record {
      diagnostic = d;
      listed = l;
      fix = fix;
      attached = a;
      machine = m;
      permitted = p;
      part = inc e (Memᴰ.head refl);
    };
  },
  edit_of_fix files all d fix es l a m p (λ x k. inc x (Memᴰ.tail k)) ws hs,
)

round-Sound :
    (files : Map PlannedFile) (all : List Diagnostic) (d : Diagnostic) (o : Option Fix)
    (c : Candidate)
    → Memᴰ d all
    → d.fix ≡ o
    → WellMade o
    → round files o ≡ ok (some c)
    → All (Sound files all) c.edits
round-Sound files all d none c l a w h = absurd (none_case h)
  where
    none_case : round files none ≡ ok (some c) → ⊥
    none_case q = cc
round-Sound files all d (some fix) c l a w h =
    let (m, p, v, es) = candidate_of-some files fix c h in
    subst (All (Sound files all)) (sym es) (
      edit_of_fix files all d fix fix.edits l a m p (λ e k. k) w
        (validate_fix-Placed fix.title files fix.edits (All-map (λ e k. k.0) fix.edits w) v))

abbrev pub EditsSound : Map PlannedFile → List Diagnostic → Candidate → Type 0
EditsSound files all c = All (Sound files all) c.edits

collect_candidates-Sound :
    (files : Map PlannedFile) (all ds : List Diagnostic) (cs : List Candidate)
    → ((d : Diagnostic) → Memᴰ d ds → Memᴰ d all)
    → All (λ d. WellMade d.fix) ds
    → collect_candidates files ds ≡ ok cs
    → All (EditsSound files all) cs
unfolding collect_candidates
collect_candidates-Sound files all [] cs inc w h =
    let eq : [] ≡ cs = cc in subst (All (EditsSound files all)) eq tt
collect_candidates-Sound files all (d ∷ ds) cs inc (w, ws) h =
    let (o, first, later) = bind-eq-ok (round files d.fix) _ h in
    let (rest, p, q) = bind-eq-ok (collect_candidates files ds) _ later in
    with_rest o rest first q
      (collect_candidates-Sound files all ds rest (λ x k. inc x (Memᴰ.tail k)) ws p)
  where
    with_rest :
        (o : Option Candidate) (rest : List Candidate)
        → round files d.fix ≡ ok o
        → ok (with_candidate o rest) ≡ ok cs
        → All (EditsSound files all) rest
        → All (EditsSound files all) cs
    with_rest none rest f q k = subst (All (EditsSound files all)) (cc) k
    with_rest (some c) rest f q k =
        let eq : c ∷ rest ≡ cs = cc in
        subst (All (EditsSound files all)) eq
          (round-Sound files all d d.fix c (inc d (Memᴰ.head refl)) refl w f, k)

pub entry-sort_all :
    (f : FileId) (m : Map (List TextEdit)) → entry f (sort_all m) ≡ sort_edits (entry f m)
unfolding sort_all entry lookup sort_edits sort
entry-sort_all f [] = refl
entry-sort_all f ((k, es) ∷ m) = elim (Bool-cases (k == f)) [
  | inl h ↦ rw h refl
  | inr h ↦ rw h (entry-sort_all f m)
]

abbrev pub SoundIn : List Diagnostic → FileId → FixPlan → Type 0
SoundIn ds f plan =
    Chained (entry f plan.edits) × All (In (Sound plan.files ds) f) (entry f plan.edits)

selected-Sound :
    (files : Map PlannedFile) (ds : List Diagnostic) (s : Selection) (f : FileId)
    → IsSelected (Sound files ds) s
    → SoundIn ds f (record { files = files; edits = sort_all s.edits })
unfolding sort_edits
selected-Sound files ds s f v = rw (entry-sort_all f s.edits) (
  sort_edits-Chained (entry f s.edits)
      (All-map (λ e k. k.0.placed.fits.ordered) (entry f s.edits) (v.placed f)) (v.apart f),
  sort-All (In (Sound files ds) f) span_lt (entry f s.edits) (v.placed f),
)

nothing-IsSelected : (P : TextEdit → Type 0) → IsSelected P (record { edits = []; accepted = [] })
unfolding entry lookup
nothing-IsSelected P = record { paired = λ f. refl; apart = λ f. tt; placed = λ f. tt }

pub ok_plan_injective : (a b : FixPlan) → ok a ≡ ok b → a ≡ b
ok_plan_injective a b h = cc

-- Of the plan that `build` returns, for each file: every edit is one of an applicable fix and fits the
-- file's source, and the edits come in order and do not overlap.
pub build-Sound :
    (files : List PlannedFile) (ds : List Diagnostic) (plan : FixPlan) (f : FileId)
    → All (λ d. WellMade d.fix) ds
    → build files ds ≡ ok plan
    → SoundIn ds f plan
unfolding build sort_candidates
build-Sound files ds plan f w h =
    let (by_id, p, q) = bind-eq-ok (collect_files [] files) _ h in
    let (cs, r, t) = bind-eq-ok (collect_candidates by_id ds) _ q in
    let (s, u, v) =
      bind-eq-ok (select (sort_candidates cs) (record { edits = []; accepted = [] })) _ t in
    subst (SoundIn ds f) (ok_plan_injective _ plan v) (
      selected-Sound by_id ds s f (
        select-IsSelected (Sound by_id ds) (sort_candidates cs) _ s
          (sort-All (EditsSound by_id ds) _ cs
            (collect_candidates-Sound by_id ds ds cs (λ d k. k) w r))
          (nothing-IsSelected (Sound by_id ds)) u))
