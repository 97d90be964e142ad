-- ===== src/Diagnostics/FixPlan/Complete.antt =====
-- No edit that may be applied is left out of a plan.
use mathlib.Core.List.{Memᴰ}
use mathlib.Core.Path.{subst}
use pure_analyzer.Shared.{
  true, Option, none, some, List, [], ◌∷◌, ◌≡◌, refl, sym, ap, ◌∙◌, arith, ◌==◌, Bool-cases, inl,
  inr,
}
use pure_analyzer.Shared.Every.{mem_append_left, mem_append_last}
use pure_analyzer.Shared.Maps.{Map, entry, entry-push}
use pure_analyzer.Diagnostics.Text.{Text}
use pure_analyzer.Diagnostics.Fix.{FileId, TextEdit, Fix, Diagnostic, is_machine_applicable}
use pure_analyzer.Diagnostics.FixPlan.Plan.{PlannedFile, FixPlan, ok, Candidate, AcceptedEdit}
use pure_analyzer.Diagnostics.FixPlan.Order.{sort_candidates, sort_edits, span_lt}
use pure_analyzer.Diagnostics.FixPlan.Build.{
  Selection, candidate_of, with_candidate, round, collect_candidates, collect_files, find_overlap,
  accepted_with, unless_conflict, accept_edit, accept_edits, select, build,
}
use pure_analyzer.Diagnostics.FixPlan.Sorting.{mem-sort}
use pure_analyzer.Diagnostics.FixPlan.Selected.{bind-eq-ok}
use pure_analyzer.Diagnostics.FixPlan.Safe.{entry-sort_all, ok_plan_injective}

-- A machine-applicable fix that passes its checks is a candidate.
candidate_of-machine :
    (files : Map PlannedFile) (fix : Fix) (o : Option Candidate)
    → is_machine_applicable fix.applicability ≡ true
    → candidate_of files fix ≡ ok o
    → (c : Candidate) × (o ≡ some c) × (c.edits ≡ fix.edits)
unfolding candidate_of
candidate_of-machine files fix none m h = absurd (ground arith)
candidate_of-machine files fix (some c) m h = (c, refl, ground arith)

collect_candidates-listed :
    (files : Map PlannedFile) (ds : List Diagnostic) (cs : List Candidate) (d : Diagnostic)
    (fix : Fix)
    → Memᴰ d ds
    → d.fix ≡ some fix
    → is_machine_applicable fix.applicability ≡ true
    → collect_candidates files ds ≡ ok cs
    → (c : Candidate) × Memᴰ c cs × (c.edits ≡ fix.edits)
unfolding collect_candidates
collect_candidates-listed files [] cs d fix m a w h = elim m [ ]
collect_candidates-listed files (x ∷ ds) cs d fix m a w h =
    let (o, first, later) = bind-eq-ok (round files x.fix) _ h in
    let (rest, p, q) = bind-eq-ok (collect_candidates files ds) _ later in
    found o rest first q (λ k. collect_candidates-listed files ds rest d fix k a w p) m
  where
    Found : List Candidate → Type 0
    Found l = (c : Candidate) × Memᴰ c l × (c.edits ≡ fix.edits)

    later_one :
        (o : Option Candidate) (rest : List Candidate) → Found rest → Found (with_candidate o rest)
    later_one none rest v = v
    later_one (some b) rest (c, l, q) = (c, Memᴰ.tail l, q)

    this_one :
        (o : Option Candidate) (rest : List Candidate)
        → round files x.fix ≡ ok o
        → d ≡ x
        → Found (with_candidate o rest)
    this_one o rest first e =
        let same : x.fix ≡ some fix = sym (ap (λ y. y.fix) e) ∙ a in
        let (c, s, q) = candidate_of-machine files fix o w (sym (ap (round files) same) ∙ first) in
        subst (λ b. Found (with_candidate b rest)) (sym s) (c, Memᴰ.head refl, q)

    ok_injective : (l : List Candidate) → ok l ≡ ok cs → l ≡ cs
    ok_injective l q = cc

    found :
        (o : Option Candidate) (rest : List Candidate)
        → round files x.fix ≡ ok o
        → ok (with_candidate o rest) ≡ ok cs
        → (Memᴰ d ds → Found rest)
        → Memᴰ d (x ∷ ds)
        → Found cs
    found o rest first q ih (Memᴰ.head e) =
        subst Found (ok_injective (with_candidate o rest) q) (this_one o rest first e)
    found o rest first q ih (Memᴰ.tail k) =
        subst Found (ok_injective (with_candidate o rest) q) (later_one o rest (ih k))

-- What is accepted stays accepted.
abbrev Kept : Selection → Selection → Type 0
Kept s t = (f : FileId) (z : TextEdit) → Memᴰ z (entry f s.edits) → Memᴰ z (entry f t.edits)

accept_edit-ok :
    (title : Text) (e : TextEdit) (s t : Selection)
    → accept_edit title e s ≡ ok t
    → accepted_with title e s ≡ t
unfolding accept_edit
accept_edit-ok title e s t h = from_case (find_overlap e (entry e.file s.accepted)) h
  where
    from_case :
        (o : Option AcceptedEdit) → unless_conflict title e s o ≡ ok t → accepted_with title e s ≡ t
    from_case none q = cc
    from_case (some prior) q = cc

accepted_with-Kept :
    (title : Text) (e : TextEdit) (s : Selection) → Kept s (accepted_with title e s)
accepted_with-Kept title e s f z m = elim (Bool-cases (e.file == f)) [
  | inl h ↦ rw (entry-push e.file f e s.edits, h) (mem_append_left (entry f s.edits) (e ∷ []) m)
  | inr h ↦ rw (entry-push e.file f e s.edits, h) m
]

mem-accepted_with :
    (title : Text) (e : TextEdit) (s : Selection)
    → Memᴰ e (entry e.file (accepted_with title e s).edits)
mem-accepted_with title e s =
    let same : (e.file == e.file) ≡ true = ground arith in
    rw (entry-push e.file e.file e s.edits, same) (mem_append_last e (entry e.file s.edits))

accept_edit-Kept :
    (title : Text) (e : TextEdit) (s t : Selection) → accept_edit title e s ≡ ok t → Kept s t
accept_edit-Kept title e s t h =
    subst (Kept s) (accept_edit-ok title e s t h) (accepted_with-Kept title e s)

accept_edits-Kept :
    (title : Text) (es : List TextEdit) (s t : Selection)
    → accept_edits title es s ≡ ok t
    → Kept s t
unfolding accept_edits
accept_edits-Kept title [] s t h f z m =
    let eq : s ≡ t = cc in subst (λ v. Memᴰ z (entry f v.edits)) eq m
accept_edits-Kept title (e ∷ es) s t h f z m =
    let (u, first, later) = bind-eq-ok (accept_edit title e s) _ h in
    accept_edits-Kept title es u t later f z (accept_edit-Kept title e s u first f z m)

select-Kept : (cs : List Candidate) (s t : Selection) → select cs s ≡ ok t → Kept s t
unfolding select
select-Kept [] s t h f z m = let eq : s ≡ t = cc in subst (λ v. Memᴰ z (entry f v.edits)) eq m
select-Kept (c ∷ cs) s t h f z m =
    let (u, first, later) = bind-eq-ok (accept_edits c.title c.edits s) _ h in
    select-Kept cs u t later f z (accept_edits-Kept c.title c.edits s u first f z m)

accept_edits-mem :
    (title : Text) (es : List TextEdit) (s t : Selection) (e : TextEdit)
    → accept_edits title es s ≡ ok t
    → Memᴰ e es
    → Memᴰ e (entry e.file t.edits)
unfolding accept_edits
accept_edits-mem title [] s t e h m = elim m [ ]
accept_edits-mem title (x ∷ es) s t e h (Memᴰ.tail m) =
    let (u, first, later) = bind-eq-ok (accept_edit title x s) _ h in
    accept_edits-mem title es u t e later m
accept_edits-mem title (x ∷ es) s t e h (Memᴰ.head q) =
    let (u, first, later) = bind-eq-ok (accept_edit title x s) _ h in
    accept_edits-Kept title es u t later e.file e (
      subst (λ v. Memᴰ e (entry e.file v.edits)) (accept_edit-ok title x s u first)
        (subst (λ y. Memᴰ e (entry e.file (accepted_with title y s).edits)) q
          (mem-accepted_with title e s)))

select-mem :
    (cs : List Candidate) (s t : Selection) (c : Candidate) (e : TextEdit)
    → select cs s ≡ ok t
    → Memᴰ c cs
    → Memᴰ e c.edits
    → Memᴰ e (entry e.file t.edits)
unfolding select
select-mem [] s t c e h m k = elim m [ ]
select-mem (x ∷ cs) s t c e h (Memᴰ.tail m) k =
    let (u, first, later) = bind-eq-ok (accept_edits x.title x.edits s) _ h in
    select-mem cs u t c e later m k
select-mem (x ∷ cs) s t c e h (Memᴰ.head q) k =
    let (u, first, later) = bind-eq-ok (accept_edits x.title x.edits s) _ h in
    select-Kept cs u t later e.file e
      (accept_edits-mem x.title x.edits s u e first (subst (λ y. Memᴰ e y.edits) q k))

-- Each edit of a machine-applicable fix of a diagnostic is among the edits of its file in the plan
-- that `build` returns.
pub build-complete :
    (files : List PlannedFile) (ds : List Diagnostic) (plan : FixPlan) (d : Diagnostic) (fix : Fix)
    (e : TextEdit)
    → build files ds ≡ ok plan
    → Memᴰ d ds
    → d.fix ≡ some fix
    → is_machine_applicable fix.applicability ≡ true
    → Memᴰ e fix.edits
    → Memᴰ e (entry e.file plan.edits)
unfolding build sort_candidates sort_edits
build-complete files ds plan d fix e h m a w k =
    let (by_id, p, q) = bind-eq-ok (collect_files [] files) _ h in
    let (cs, r, t) = bind-eq-ok (collect_candidates by_id ds) _ q in
    let (s, u, v) =
      bind-eq-ok (select (sort_candidates cs) (record { edits = []; accepted = [] })) _ t in
    let (c, l, same) = collect_candidates-listed by_id ds cs d fix m a w r in
    subst (λ made. Memᴰ e (entry e.file made.edits)) (ok_plan_injective _ plan v)
      (rw (entry-sort_all e.file s.edits) (
        mem-sort span_lt e (entry e.file s.edits) (
          select-mem (sort_candidates cs) _ s c e u (mem-sort _ c cs l)
            (subst (Memᴰ e) (sym same) k))))
