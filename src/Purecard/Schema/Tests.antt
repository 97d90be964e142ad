-- ===== src/Purecard/Schema/Tests.antt =====
-- A trie of two names, of which one begins the other.
use pure_analyzer.Shared.{ℕ, List, [], ◌∷◌, ◌≡◌, refl}
use pure_analyzer.Purecard.Schema.Trie.{
  NameClose, free, must_follow, plain, class_path, stay, root, child, from_closing_names,
  insert_from, grow, walk,
}
use pure_analyzer.Purecard.Schema.Labels.{names_of}
use pure_analyzer.Purecard.Schema.Legal.{Legal, from_closing_names-Legal}
use pure_analyzer.Purecard.Schema.Stays.{from_closing_names-stays}

-- `ab` and `abc`.
abbrev entries : List (List ℕ × NameClose)
entries = (97 ∷ 98 ∷ [], free) ∷ (97 ∷ 98 ∷ 99 ∷ [], must_follow 46) ∷ []

-- The longer name goes on where the shorter one ends.
longer : walk (from_closing_names entries) root (97 ∷ 98 ∷ 99 ∷ []) plain ≡ stay 3
unfolding from_closing_names insert_from child grow walk
longer = refl

from_closing_names-Legal_example :
    Legal
      (names_of entries)
      class_path
      (97 ∷ 98 ∷ 46 ∷ [])
      (walk (from_closing_names entries) root (97 ∷ 98 ∷ 46 ∷ []) class_path)
from_closing_names-Legal_example = from_closing_names-Legal entries (97 ∷ 98 ∷ 46 ∷ []) class_path

from_closing_names-stays_example :
    (n : ℕ) × (walk (from_closing_names entries) root (97 ∷ 98 ∷ []) plain ≡ stay n)
from_closing_names-stays_example =
    from_closing_names-stays entries (97 ∷ 98 ∷ []) plain (1, 99 ∷ [], refl)
