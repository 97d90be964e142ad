-- ===== src/Purecard/Schema/Nodes.antt =====
-- What growing and finishing a trie does to its edges and its marks.
use pure_analyzer.Shared.{
  ℕ, zero, suc, ◌<◌, ◌≤◌, true, false, ◌&&◌, ◌||◌, none, some, List, [], ◌∷◌, ◌++◌, ◌≡◌, refl, sym,
  ap, ◌∙◌, arith, ◌==◌, ltb, if◌then◌else◌, length, length-append, Bool-cases, inl, inr,
}
use pure_analyzer.Shared.Cells.{get_or, length-modify, get_or-modify_self, get_or-modify_other}
use pure_analyzer.Purecard.Schema.Trie.{
  NameClose, Node, empty_node, Trie, find_edge, insert_edge, child, is_terminal, grow, finish,
}

find_edge-insert_edge :
    (es : List (ℕ × ℕ)) (byte new b : ℕ)
    → find_edge es byte ≡ none
    → find_edge (insert_edge es byte new) b ≡ (if byte == b then some new else find_edge es b)
find_edge-insert_edge [] byte new b h = refl
find_edge-insert_edge ((a, c) ∷ es) byte new b h = elim (Bool-cases (a == byte)) [
  | inl e ↦ let no : some c ≡ none = rw e at h in absurd (cc)
  | inr e ↦ ground (arith, find_edge-insert_edge es byte new b (rw e at h))
]

get_or-append :
    (ns : List Node) (i : ℕ) → get_or empty_node (ns ++ empty_node ∷ []) i ≡ get_or empty_node ns i
get_or-append [] zero = refl
get_or-append [] (suc i) = refl
get_or-append (n ∷ ns) zero = refl
get_or-append (n ∷ ns) (suc i) = get_or-append ns i

abbrev pub node_at : Trie → ℕ → Node
node_at t i = get_or empty_node t.nodes i

within : (t : Trie) (i : ℕ) → i < length t.nodes → i < length (t.nodes ++ empty_node ∷ [])
within t i lt = omega (arith, lt, length-append t.nodes (empty_node ∷ []))

node_at-grow_self :
    (t : Trie) (node byte : ℕ)
    → node < length t.nodes
    → node_at (grow t node byte) node
      ≡ record (node_at t node) { next = insert_edge (node_at t node).next byte (length t.nodes) }
unfolding grow
node_at-grow_self t node byte lt =
    get_or-modify_self empty_node (t.nodes ++ empty_node ∷ []) node _ (within t node lt)
    ∙ ap (λ (n : Node). record n { next = insert_edge n.next byte (length t.nodes) })
        (get_or-append t.nodes node)

node_at-grow_other :
    (t : Trie) (node byte m : ℕ) → (node == m) ≡ false → node_at (grow t node byte) m ≡ node_at t m
unfolding grow
node_at-grow_other t node byte m e =
    get_or-modify_other empty_node (t.nodes ++ empty_node ∷ []) node m _ e ∙ get_or-append t.nodes m

-- `grow` adds one edge.
pub child-grow :
    (t : Trie) (node byte m b : ℕ)
    → node < length t.nodes
    → child t node byte ≡ none
    → child (grow t node byte) m b
      ≡ (if (node == m) && (byte == b) then some (length t.nodes) else child t m b)
unfolding child
child-grow t node byte m b lt h = elim (Bool-cases (node == m)) [
  | inl e ↦
      let same : node ≡ m = ground arith in
      ap (λ i. find_edge (node_at (grow t node byte) i).next b) (sym same)
      ∙ ap (λ (n : Node). find_edge n.next b) (node_at-grow_self t node byte lt)
      ∙ find_edge-insert_edge (node_at t node).next byte (length t.nodes) b h
      ∙ rw (e, same) refl
  | inr e ↦ ap (λ (n : Node). find_edge n.next b) (node_at-grow_other t node byte m e) ∙ rw e refl
]

pub length-grow :
    (t : Trie) (node byte : ℕ) → length (grow t node byte).nodes ≡ suc (length t.nodes)
unfolding grow
length-grow t node byte =
    length-modify (t.nodes ++ empty_node ∷ []) node _
    ∙ length-append t.nodes (empty_node ∷ [])
    ∙ omega arith

pub is_terminal-grow :
    (t : Trie) (node byte m : ℕ)
    → node < length t.nodes
    → is_terminal (grow t node byte) m ≡ is_terminal t m
unfolding is_terminal
is_terminal-grow t node byte m lt = elim (Bool-cases (node == m)) [
  | inl e ↦
      let same : node ≡ m = ground arith in
      ap (λ i. (node_at (grow t node byte) i).terminal) (sym same)
      ∙ ap (λ (n : Node). n.terminal) (node_at-grow_self t node byte lt)
      ∙ ap (λ i. (node_at t i).terminal) same
  | inr e ↦ ap (λ (n : Node). n.terminal) (node_at-grow_other t node byte m e)
]

module _ (t : Trie) (node : ℕ) (close : NameClose) (lt : node < length t.nodes) where
  -- `finish` marks one node.
  pub child-finish : (m b : ℕ) → child (finish close (t, node)) m b ≡ child t m b
  unfolding child
  child-finish m b = elim (Bool-cases (node == m)) [
    | inl e ↦
        let same : node ≡ m = ground arith in
        ap (λ i. find_edge (node_at (finish close (t, node)) i).next b) (sym same)
        ∙ ap (λ (n : Node). find_edge n.next b) (get_or-modify_self empty_node t.nodes node _ lt)
        ∙ ap (λ i. find_edge (node_at t i).next b) same
    | inr e ↦
        ap (λ (n : Node). find_edge n.next b) (get_or-modify_other empty_node t.nodes node m _ e)
  ]

  pub is_terminal-finish :
      (m : ℕ) → is_terminal (finish close (t, node)) m ≡ (node == m || is_terminal t m)
  unfolding is_terminal
  is_terminal-finish m = elim (Bool-cases (node == m)) [
    | inl e ↦
        let same : node ≡ m = ground arith in
        ap (λ i. (node_at (finish close (t, node)) i).terminal) (sym same)
        ∙ ap (λ (n : Node). n.terminal) (get_or-modify_self empty_node t.nodes node _ lt)
        ∙ rw e refl
    | inr e ↦
        ap (λ (n : Node). n.terminal) (get_or-modify_other empty_node t.nodes node m _ e)
        ∙ rw e refl
  ]

  pub length-finish : length (finish close (t, node)).nodes ≡ length t.nodes
  length-finish = length-modify t.nodes node _

beyond : (ns : List Node) (i : ℕ) → length ns ≤ i → get_or empty_node ns i ≡ empty_node
beyond [] i h = refl
beyond (n ∷ ns) zero h = absurd (omega arith)
beyond (n ∷ ns) (suc i) h = beyond ns i (omega arith)

-- Edges leave, and marks stand at, nodes that are there.
pub child-lt : (t : Trie) (n b c : ℕ) → child t n b ≡ some c → n < length t.nodes
unfolding child
child-lt t n b c h = elim (Bool-cases (ltb n (length t.nodes))) [
  | inl e ↦ ground arith
  | inr e ↦ let no : none ≡ some c = rw (beyond t.nodes n (ground arith)) at h in absurd (cc)
]

pub is_terminal-lt : (t : Trie) (n : ℕ) → is_terminal t n ≡ true → n < length t.nodes
unfolding is_terminal
is_terminal-lt t n h = elim (Bool-cases (ltb n (length t.nodes))) [
  | inl e ↦ ground arith
  | inr e ↦
      let no : false ≡ true =
        sym (ap (λ (m : Node). m.terminal) (beyond t.nodes n (ground arith))) ∙ h in
      absurd (cc)
]
