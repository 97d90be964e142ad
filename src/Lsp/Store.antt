-- ===== src/Lsp/Store.antt =====
-- crates/pure-analyzer-lsp/src/document.rs: `DocumentStore`. The map is the function that looks a URI up,
-- as its order is seen by `iter` only.
use Prim.Native.String.{String}
use text.Mathlib.Text.{◌==◌ as str_eq}
use pure_analyzer.Shared.{
  ℕ, ◌+◌, Bool, true, false, not, Option, none, some, List, [], ◌∷◌, ltb, if◌then◌else◌,
}
use pure_analyzer.Lsp.Chars.{Chars}
use pure_analyzer.Lsp.Document.{
  u64_bound, ContentChange, Changed, changed, refused, panicked, apply_all,
}

-- `i64`, as far as versions go: a sign and what stands behind it.
pub data Version : Type 0 where
  pos negsuc : ℕ → Version

unfoldable pub newer : Version → Version → Bool
newer (pos n) (pos m) = ltb m n
newer (pos n) (negsuc m) = true
newer (negsuc n) (pos m) = false
newer (negsuc n) (negsuc m) = ltb n m

pub record DocumentSnapshot : Type 0 where
  pub uri : String
  pub text : Chars
  pub version : Option Version

pub record DocumentStore : Type 0 where
  pub documents : String → Option DocumentSnapshot
  pub revision : ℕ

unfoldable pub accepts_version : Option Version → Option Version → Bool
unfolding newer
accepts_version (some current) (some incoming) = newer incoming current
accepts_version (some current) none = false
accepts_version none incoming = true

-- `checked_add(1)`
unfoldable pub advance_revision : DocumentStore → Option DocumentStore
advance_revision s =
    if ltb (s.revision + 1) u64_bound then some (record s { revision = s.revision + 1 }) else none

abbrev pub put : String → Option DocumentSnapshot → DocumentStore → DocumentStore
put uri d s = record s { documents = λ u. if str_eq uri u then d else s.documents u }

abbrev pub retained : Option DocumentSnapshot → Option Version → Bool
retained none incoming = false
retained (some current) incoming = not (accepts_version current.version incoming)

abbrev pub replaced : DocumentSnapshot → DocumentStore → Option DocumentStore → Bool × DocumentStore
replaced d s none = (false, s)
replaced d s (some next) = (true, put d.uri (some d) next)

unfoldable pub replace : DocumentStore → DocumentSnapshot → Bool × DocumentStore
unfolding accepts_version advance_revision
replace s d =
    if retained (s.documents d.uri) d.version then (false, s) else replaced d s (advance_revision s)

abbrev pub removed :
    String
    → DocumentStore
    → Option DocumentSnapshot
    → Option DocumentStore
    → Option DocumentSnapshot × DocumentStore
removed uri s none next = (none, s)
removed uri s (some d) none = (none, s)
removed uri s (some d) (some next) = (some d, put uri none next)

unfoldable pub remove : DocumentStore → String → Option DocumentSnapshot × DocumentStore
unfolding advance_revision
remove s uri = removed uri s (s.documents uri) (advance_revision s)

-- How `apply_changes` ends, a panic aside.
pub data Applied : Type 0 where
  returned : Bool → DocumentStore → Applied
  panic : Applied

-- The `get_mut` that follows the count of the revision, and the assignment of the text.
abbrev pub write_text : String → Version → Chars → DocumentStore → Option DocumentSnapshot → Applied
write_text uri version text s none = returned false s
write_text uri version text s (some d) =
    returned true (put uri (some (record d { text = text; version = some version })) s)

abbrev pub committed :
    String → Version → DocumentSnapshot → DocumentStore → Changed → Option DocumentStore → Applied
committed uri version d s panicked next = panic
committed uri version d s refused next = returned false s
committed uri version d s (changed text) none = returned false s
committed uri version d s (changed text) (some next) =
    write_text uri version text next (next.documents uri)

abbrev pub change_document :
    String → Version → List ContentChange → DocumentStore → Option DocumentSnapshot → Applied
change_document uri version changes s none = returned false s
change_document uri version changes s (some d) =
    if accepts_version d.version (some version)
    then committed uri version d s (apply_all d.text changes) (advance_revision s)
    else returned false s

unfoldable pub apply_changes : DocumentStore → String → Version → List ContentChange → Applied
unfolding accepts_version advance_revision apply_all
apply_changes s uri version [] = returned false s
apply_changes s uri version (c ∷ cs) = change_document uri version (c ∷ cs) s (s.documents uri)
