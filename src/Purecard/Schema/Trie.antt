-- ===== src/Purecard/Schema/Trie.antt =====
-- crates/pure-analyzer-purecard/src/schema/trie.rs: a byte trie of legal names and the walk of a token.
-- The edges of a node are sorted by byte with no byte twice, so that `binary_search_by_key` finds the
-- edge of a byte, or the place to insert one.
use pure_analyzer.Shared.{
  ℕ, Bool, true, false, not, ◌&&◌, ◌||◌, Option, none, some, List, [], ◌∷◌, ◌++◌, ◌==◌, ltb,
  if◌then◌else◌, length,
}
use pure_analyzer.Shared.Cells.{get_or, modify}
use pure_analyzer.Purecard.Grammar.Bytes.{is_ident_tail}

pub data NameClose : Type 0 where
  free : NameClose
  must_follow : ℕ → NameClose

-- `NameClose::admits`
unfoldable pub admits : NameClose → ℕ → Bool
admits free byte = true
admits (must_follow required) byte = byte == required

pub data NameShape : Type 0 where
  plain class_path : NameShape

abbrev is_class_path : NameShape → Bool
is_class_path plain = false
is_class_path class_path = true

unfoldable pub continues : NameShape → ℕ → Bool
continues shape byte = is_ident_tail byte || (is_class_path shape && byte == b':')

pub record Node : Type 0 where
  pub next : List (ℕ × ℕ)
  pub terminal : Bool
  pub close : NameClose

abbrev pub empty_node : Node
empty_node = record { next = []; terminal = false; close = free }

pub record Trie : Type 0 where
  pub nodes : List Node

pub data Walk : Type 0 where
  stay : ℕ → Walk
  complete : ℕ → ℕ → Walk
  diverge : Walk

abbrev pub root : ℕ
root = 0

abbrev pub find_edge : List (ℕ × ℕ) → ℕ → Option ℕ
find_edge [] byte = none
find_edge ((b, c) ∷ es) byte = if b == byte then some c else find_edge es byte

abbrev pub insert_edge : List (ℕ × ℕ) → ℕ → ℕ → List (ℕ × ℕ)
insert_edge [] byte child = (byte, child) ∷ []
insert_edge ((b, c) ∷ es) byte child =
    if ltb b byte then (b, c) ∷ insert_edge es byte child else (byte, child) ∷ (b, c) ∷ es

unfoldable pub child : Trie → ℕ → ℕ → Option ℕ
child t node byte = find_edge (get_or empty_node t.nodes node).next byte

unfoldable pub is_terminal : Trie → ℕ → Bool
is_terminal t node = (get_or empty_node t.nodes node).terminal

unfoldable pub close_at : Trie → ℕ → NameClose
close_at t node = (get_or empty_node t.nodes node).close

-- A new node, and the edge that leads to it.
unfoldable pub grow : Trie → ℕ → ℕ → Trie
grow t node byte = record {
  nodes =
      modify (t.nodes ++ empty_node ∷ []) node
        (λ n. record n { next = insert_edge n.next byte (length t.nodes) });
}

-- What one round of the loop of `insert` leads to, by the child that is there.
abbrev pub step_to : Trie → ℕ → ℕ → Option ℕ → Trie × ℕ
step_to t node byte none = (grow t node byte, length t.nodes)
step_to t node byte (some c) = (t, c)

-- The loop of `insert`, and the node that it ends at.
unfoldable pub insert_from : Trie → ℕ → List ℕ → Trie × ℕ
unfolding child grow
insert_from t node [] = (t, node)
insert_from t node (b ∷ bs) =
    let (next, at) = step_to t node b (child t node b) in insert_from next at bs

abbrev pub finish : NameClose → Trie × ℕ → Trie
finish close (t, node) = record {
  nodes = modify t.nodes node (λ n. record n { terminal = true; close = close });
}

unfoldable pub insert : Trie → List ℕ → NameClose → Trie
unfolding insert_from
insert t bytes close = finish close (insert_from t root bytes)

abbrev pub insert_all : Trie → List (List ℕ × NameClose) → Trie
insert_all t [] = t
insert_all t ((bytes, close) ∷ names) = insert_all (insert t bytes close) names

unfoldable pub from_closing_names : List (List ℕ × NameClose) → Trie
unfolding insert
from_closing_names names = insert_all (record { nodes = empty_node ∷ [] }) names

abbrev pub walk_on : Trie → ℕ → ℕ → NameShape → (ℕ → Walk) → Option ℕ → Walk
walk_on t node byte shape again none =
    if is_terminal t node && not (continues shape byte) then complete node byte else diverge
walk_on t node byte shape again (some c) = again c

unfoldable pub walk : Trie → ℕ → List ℕ → NameShape → Walk
unfolding child is_terminal continues
walk t node [] shape = stay node
walk t node (b ∷ bs) shape = walk_on t node b shape (λ c. walk t c bs shape) (child t node b)
