-- ===== src/Diagnostics/FixPlan/Order.antt =====
-- crates/pure-analyzer-diagnostics/src/fix_plan.rs: the keys by which candidates and edits are
-- sorted. `sort_by` and `sort_by_key` are stable, so a sort is written as a stable insertion sort.
use pure_analyzer.Shared.{
  ℕ, Bool, true, false, ◌&&◌, ◌||◌, Option, none, some, List, [], ◌∷◌, ◌==◌, ltb, if◌then◌else◌,
}
use pure_analyzer.Diagnostics.Text.{Text}
use pure_analyzer.Diagnostics.Fix.{FileId, TextEdit}
use pure_analyzer.Diagnostics.FixPlan.Plan.{Candidate}

-- The order of strings, byte by byte.
unfoldable pub title_lt : Text → Text → Bool
title_lt a [] = false
title_lt [] (y ∷ b) = true
title_lt (x ∷ a) (y ∷ b) = ltb x y || (x == y && title_lt a b)

pub record Key : Type 0 where
  pub file : FileId
  pub start : ℕ
  pub end : ℕ
  pub title : Text

abbrev pub key_lt : Key → Key → Bool
key_lt a b =
    ltb a.file b.file
    || (a.file == b.file
        && (ltb a.start b.start
            || (a.start == b.start
                && (ltb a.end b.end || (a.end == b.end && title_lt a.title b.title)))))

-- `None` comes before every `Some`.
abbrev pub option_key_lt : Option Key → Option Key → Bool
option_key_lt a none = false
option_key_lt none (some b) = true
option_key_lt (some a) (some b) = key_lt a b

-- The key `(edit.file, edit.span.start(), edit.span.end())`.
abbrev pub place_lt : TextEdit → TextEdit → Bool
place_lt a b =
    ltb a.file b.file
    || (a.file == b.file
        && (ltb a.span.start b.span.start
            || (a.span.start == b.span.start && ltb a.span.end b.span.end)))

-- `min_by_key` keeps the first of several least elements.
unfoldable pub least : TextEdit → List TextEdit → TextEdit
least best [] = best
least best (e ∷ es) = least (if place_lt e best then e else best) es

abbrev key_of : Text → TextEdit → Key
key_of title e = record { file = e.file; start = e.span.start; end = e.span.end; title = title }

abbrev first_key_of : Text → List TextEdit → Option Key
first_key_of title [] = none
first_key_of title (e ∷ es) = some (key_of title (least e es))

unfoldable pub first_key : Candidate → Option Key
unfolding least
first_key c = first_key_of c.title c.edits

-- An element goes in front of the first one that is not before it.
module _ {ℓ} {A : Type ℓ} (lt : A → A → Bool) where
  unfoldable pub insert_sorted : A → List A → List A
  insert_sorted x [] = x ∷ []
  insert_sorted x (y ∷ ys) = if lt y x then y ∷ insert_sorted x ys else x ∷ y ∷ ys

  unfoldable pub sort : List A → List A
  unfolding insert_sorted
  sort [] = []
  sort (x ∷ xs) = insert_sorted x (sort xs)

unfoldable pub sort_candidates : List Candidate → List Candidate
unfolding sort first_key title_lt
sort_candidates = sort (λ a b. option_key_lt (first_key a) (first_key b))

-- `file_edits.sort_by_key(|edit| (edit.span.start(), edit.span.end()))`
abbrev pub span_lt : TextEdit → TextEdit → Bool
span_lt a b =
    ltb a.span.start b.span.start || (a.span.start == b.span.start && ltb a.span.end b.span.end)

unfoldable pub sort_edits : List TextEdit → List TextEdit
unfolding sort
sort_edits = sort span_lt
