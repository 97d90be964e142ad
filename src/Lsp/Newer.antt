-- ===== src/Lsp/Newer.antt =====
-- A retained document is never replaced by an older one.
use Prim.Native.String.{String}
use text.Mathlib.Text.{◌==◌ as str_eq}
use text.Mathlib.TextEquality.{eq_iff}
use pure_analyzer.Shared.{
  ◌+◌, true, false, not, Option, none, some, ◌≡◌, ◌⊎◌, refl, ap, ◌∙◌, arith, ltb, Bool-cases, inl,
  inr,
}
use pure_analyzer.Lsp.Document.{u64_bound}
use pure_analyzer.Lsp.Store.{
  DocumentSnapshot, DocumentStore, accepts_version, advance_revision, retained, replace,
}

-- The document that a URI has afterwards is the one before or a newer one.
abbrev pub IsKeptOrNewer : DocumentSnapshot → Option DocumentSnapshot → Type 0
IsKeptOrNewer old none = ⊥
IsKeptOrNewer old (some new) = (new ≡ old) ⊎ (accepts_version old.version new.version ≡ true)

-- `replace` leaves each open document open, as it was or with a version that its version lets in.
pub replace-IsKeptOrNewer :
    (s : DocumentStore) (d : DocumentSnapshot) (uri : String) (old : DocumentSnapshot)
    → s.documents uri ≡ some old
    → IsKeptOrNewer old ((replace s d).1.documents uri)
unfolding replace advance_revision
replace-IsKeptOrNewer s d uri old h = elim (Bool-cases (retained (s.documents d.uri) d.version)) [
  | inl e ↦ rw (e, h) (inl refl)
  | inr e ↦ elim (Bool-cases (ltb (s.revision + 1) u64_bound)) [
    | inl small ↦ elim (Bool-cases (str_eq d.uri uri)) [
      | inl q ↦
          let same : d.uri ≡ uri = (eq_iff d.uri uri).0 q in
          let at_uri : s.documents d.uri ≡ some old = ap s.documents same ∙ h in
          let taken : not (accepts_version old.version d.version) ≡ false = rw at_uri at e in
          rw (e, small, q) (inr (ground arith))
      | inr q ↦ rw (e, small, q, h) (inl refl)
    ]
    | inr big ↦ rw (e, big, h) (inl refl)
  ]
]
