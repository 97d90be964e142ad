-- ===== src/Lsp/Versions.antt =====
-- What each call does to every document of the store.
use Prim.Native.String.{String}
use text.Mathlib.Text.{◌==◌ as str_eq}
use pure_analyzer.Shared.{
  ap, ◌+◌, ◌<◌, ◌≤◌, ◌⊎◌, true, false, none, some, List, [], ◌∷◌, ◌≡◌, refl, arith, ltb,
  if◌then◌else◌, Bool-cases, Option-cases, inl, inr,
}
use pure_analyzer.Lsp.Chars.{Chars}
use pure_analyzer.Lsp.Document.{
  u64_bound, ContentChange, Changed, changed, refused, panicked, apply_all,
}
use pure_analyzer.Lsp.Changes.{apply_all-ne-panicked}
use pure_analyzer.Lsp.Store
use pure_analyzer.Lsp.Store.{
  Version, DocumentSnapshot, DocumentStore, accepts_version, advance_revision, put, Applied,
  returned, committed, apply_changes,
}

-- Why a call refuses its changes.
pub data Refusal (s : DocumentStore) (uri : String) (version : Version)
    (changes : List ContentChange) : Type 0 where
  no_changes : changes ≡ [] → Refusal s uri version changes
  no_document : s.documents uri ≡ none → Refusal s uri version changes
  stale :
      (d : DocumentSnapshot)
      → s.documents uri ≡ some d
      → accepts_version d.version (some version) ≡ false
      → Refusal s uri version changes
  bad_change :
      (d : DocumentSnapshot)
      → s.documents uri ≡ some d
      → apply_all d.text changes ≡ refused
      → Refusal s uri version changes
  exhausted : u64_bound ≤ s.revision + 1 → Refusal s uri version changes

-- The call stored the changed text of one document under a newer version and counted a revision.
pub record IsCommitted (s : DocumentStore) (uri : String) (version : Version)
    (changes : List ContentChange) (r : Applied) : Type 0 where
  pub document : DocumentSnapshot
  pub text : Chars
  pub store : DocumentStore
  pub found : s.documents uri ≡ some document
  pub accepted : accepts_version document.version (some version) ≡ true
  pub changes_text : apply_all document.text changes ≡ changed text
  pub done : r ≡ returned true store
  pub counted : store.revision ≡ s.revision + 1
  pub bounded : store.revision < u64_bound
  pub stored :
      (u : String)
      → store.documents u ≡ (
          if str_eq uri u
          then some (record document { text = text; version = some version })
          else s.documents u)

-- Both ends of a call.
abbrev pub Outcome : DocumentStore → String → Version → List ContentChange → Applied → Type 0
Outcome s uri version changes r =
    ((r ≡ returned false s) × Refusal s uri version changes) ⊎ IsCommitted s uri version changes r

committed-Outcome :
    (s : DocumentStore) (uri : String) (version : Version) (changes : List ContentChange)
    (d : DocumentSnapshot)
    → s.documents uri ≡ some d
    → accepts_version d.version (some version) ≡ true
    → (c : Changed) → apply_all d.text changes ≡ c
    → Outcome s uri version changes (committed uri version d s c (advance_revision s))
unfolding advance_revision
committed-Outcome s uri version changes d e a panicked h =
    absurd (apply_all-ne-panicked d.text changes h)
committed-Outcome s uri version changes d e a refused h = inl (refl, bad_change d e h)
committed-Outcome s uri version changes d e a (changed text) h =
    elim (Bool-cases (ltb (s.revision + 1) u64_bound)) [
      | inl small ↦ rw small (
          inr (record {
            document = d;
            text = text;
            store =
                put uri (some (record d { text = text; version = some version }))
                  (record s { revision = s.revision + 1 });
            found = e;
            accepted = a;
            changes_text = h;
            done =
                ap
                  (λ x.
                    Store.write_text uri version text (record s { revision = s.revision + 1 }) x)
                  e;
            counted = refl;
            bounded = ground arith;
            stored = λ u. refl;
          }))
      | inr big ↦ rw big (inl (refl, exhausted (ground arith)))
    ]

-- `apply_changes` never panics and is atomic: either it refuses and leaves the store as it was, since
-- there are no changes, the document is not open, the version is not newer, a change does not apply or
-- the revisions are exhausted, or it stores the text that all changes in a row give under the new
-- version, counts one revision within 64 bits and leaves every other document as it was.
pub apply_changes-Outcome :
    (s : DocumentStore) (uri : String) (version : Version) (changes : List ContentChange)
    → Outcome s uri version changes (apply_changes s uri version changes)
unfolding apply_changes
apply_changes-Outcome s uri version [] = inl (refl, no_changes refl)
apply_changes-Outcome s uri version (c ∷ cs) = elim (Option-cases (s.documents uri)) [
  | inl e ↦ rw e (inl (refl, no_document e))
  | inr (d, e) ↦ elim (Bool-cases (accepts_version d.version (some version))) [
    | inl a ↦
        rw (e, a) (committed-Outcome s uri version (c ∷ cs) d e a (apply_all d.text (c ∷ cs)) refl)
    | inr n ↦ rw (e, n) (inl (refl, stale d e n))
  ]
]
