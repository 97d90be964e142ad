-- ===== src/Diagnostics/FixPlan/Accepted.antt =====
-- The loop of `build` that accepts the candidates' edits one by one.
use pure_analyzer.Shared.{
  false, none, some, List, [], ◌∷◌, ◌++◌, ◌≡◌, ap, ◌∙◌, arith, map, ◌==◌, Bool-cases, Option-cases,
  inl, inr,
}
use mathlib.Core.List.{map-append}
use mathlib.Core.Path.{subst}
use pure_analyzer.Shared.Every.{All, All-append}
use pure_analyzer.Shared.Maps.{Map, entry, push, entry-push}
use pure_analyzer.Diagnostics.Text.{Text}
use pure_analyzer.Diagnostics.Fix.{FileId, TextEdit}
use pure_analyzer.Diagnostics.FixPlan.Plan.{ok, Candidate, AcceptedEdit}
use pure_analyzer.Diagnostics.FixPlan.Validate.{edits_overlap}
use pure_analyzer.Diagnostics.FixPlan.Build.{
  Selection, find_overlap, accepted_with, unless_conflict, accept_edit, accept_edits, select,
}
use pure_analyzer.Diagnostics.FixPlan.Sorting.{Apart}
use pure_analyzer.Diagnostics.FixPlan.Selected.{bind-eq-ok}

-- `P` is what is known of every candidate's edits.
abbrev pub In : (TextEdit → Type 0) → FileId → TextEdit → Type 0
In P file e = P e × (e.file ≡ file)

pub record IsSelected (P : TextEdit → Type 0) (s : Selection) : Type 0 where
  pub paired : (f : FileId) → map (λ a. a.edit) (entry f s.accepted) ≡ entry f s.edits
  pub apart : (f : FileId) → Apart (entry f s.edits)
  pub placed : (f : FileId) → All (In P f) (entry f s.edits)

find_overlap-none :
    (e : TextEdit) (ps : List AcceptedEdit)
    → find_overlap e ps ≡ none
    → All (λ p. edits_overlap p e ≡ false) (map (λ a. a.edit) ps)
unfolding find_overlap
find_overlap-none e [] h = tt
find_overlap-none e (p ∷ ps) h = elim (Bool-cases (edits_overlap p.edit e)) [
  | inl o ↦ absurd (found (rw o at h))
  | inr n ↦ (n, find_overlap-none e ps (rw n at h))
]
  where
    found : some p ≡ none → ⊥
    found q = cc

Apart-append :
    (es : List TextEdit) (e : TextEdit)
    → Apart es
    → All (λ p. edits_overlap p e ≡ false) es
    → Apart (es ++ e ∷ [])
Apart-append [] e a o = (tt, tt)
Apart-append (x ∷ es) e (b, a) (o, os) =
    (All-append (λ y. edits_overlap x y ≡ false) es (e ∷ []) b (o, tt), Apart-append es e a os)

-- What is said of each file's edits holds after an edit is added, if it holds of the file that gets
-- the edit with the edit behind the others.
entry_push_case :
    (P : List TextEdit → Type 0) (e : TextEdit) (f : FileId) (m : Map (List TextEdit))
    → P (entry f m)
    → (e.file ≡ f → P (entry f m ++ e ∷ []))
    → P (entry f (push e.file e m))
entry_push_case P e f m old new = elim (Bool-cases (e.file == f)) [
  | inl h ↦ rw (entry-push e.file f e m) (rw h (new (ground arith)))
  | inr h ↦ rw (entry-push e.file f e m) (rw h old)
]

edits_push :
    (title : Text) (e : TextEdit) (f : FileId) (s : Selection)
    → map (λ a. a.edit) (entry f s.accepted) ≡ entry f s.edits
    → map (λ a. a.edit) (entry f (accepted_with title e s).accepted)
      ≡ entry f (accepted_with title e s).edits
edits_push title e f s v =
    let a : AcceptedEdit = record { title = title; edit = e } in
    rw (entry-push e.file f a s.accepted, entry-push e.file f e s.edits)
      (elim (Bool-cases (e.file == f)) [
        | inl h ↦
            rw h (map-append (λ a. a.edit) (entry f s.accepted) (a ∷ []) ∙ ap (λ l. l ++ e ∷ []) v)
        | inr h ↦ rw h v
      ])

module _ (P : TextEdit → Type 0) (title : Text) (e : TextEdit) (s : Selection) where
  accepted_with-IsSelected :
      P e
      → IsSelected P s
      → find_overlap e (entry e.file s.accepted) ≡ none
      → IsSelected P (accepted_with title e s)
  accepted_with-IsSelected p v n = record {
    paired = λ f. edits_push title e f s (v.paired f);
    apart = λ f. entry_push_case Apart e f s.edits (v.apart f) (λ h.
        Apart-append (entry f s.edits) e (v.apart f) (
          subst (λ g. All (λ p. edits_overlap p e ≡ false) (entry g s.edits)) h
            (subst (All (λ p. edits_overlap p e ≡ false)) (v.paired e.file)
              (find_overlap-none e (entry e.file s.accepted) n))));
    placed = λ f.
        entry_push_case (All (In P f)) e f s.edits (v.placed f)
          (λ h. All-append (In P f) (entry f s.edits) (e ∷ []) (v.placed f) ((p, h), tt));
  }

pub accept_edit-IsSelected :
    (P : TextEdit → Type 0) (title : Text) (e : TextEdit) (s t : Selection)
    → P e
    → IsSelected P s
    → accept_edit title e s ≡ ok t
    → IsSelected P t
unfolding accept_edit
accept_edit-IsSelected P title e s t p v h =
    elim (Option-cases (find_overlap e (entry e.file s.accepted))) [
      | inl n ↦
          subst (IsSelected P) (ok-injective (accepted_with title e s) t (rw n at h))
            (accepted_with-IsSelected P title e s p v n)
      | inr (prior, q) ↦ absurd (refused prior (rw q at h))
    ]
  where
    ok-injective : (a b : Selection) → ok a ≡ ok b → a ≡ b
    ok-injective a b q = cc

    refused : (prior : AcceptedEdit) → unless_conflict title e s (some prior) ≡ ok t → ⊥
    refused prior q = cc

accept_edits-IsSelected :
    (P : TextEdit → Type 0) (title : Text) (es : List TextEdit) (s t : Selection)
    → All P es
    → IsSelected P s
    → accept_edits title es s ≡ ok t
    → IsSelected P t
unfolding accept_edits
accept_edits-IsSelected P title [] s t ps v h = subst (IsSelected P) (cc) v
accept_edits-IsSelected P title (e ∷ es) s t (p, ps) v h =
    let (u, first, later) = bind-eq-ok (accept_edit title e s) _ h in
    accept_edits-IsSelected P title es u t ps (accept_edit-IsSelected P title e s u p v first) later

pub select-IsSelected :
    (P : TextEdit → Type 0) (cs : List Candidate) (s t : Selection)
    → All (λ c. All P c.edits) cs
    → IsSelected P s
    → select cs s ≡ ok t
    → IsSelected P t
unfolding select
select-IsSelected P [] s t ps v h = subst (IsSelected P) (cc) v
select-IsSelected P (c ∷ cs) s t (p, ps) v h =
    let (u, first, later) = bind-eq-ok (accept_edits c.title c.edits s) _ h in
    select-IsSelected P cs u t ps (accept_edits-IsSelected P c.title c.edits s u p v first) later
