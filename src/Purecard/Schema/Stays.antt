-- ===== src/Purecard/Schema/Stays.antt =====
-- A walk keeps every token whose bytes begin a legal name.
use mathlib.Core.Path.{subst}
use pure_analyzer.Shared.{
  ℕ, zero, suc, ◌<◌, Bool, true, false, not, ◌&&◌, Option, none, some, List, [], ◌∷◌, ◌++◌, ◌≡◌,
  refl, sym, ap, ◌∙◌, arith, ◌==◌, if◌then◌else◌, length, get_elem?, Bool-cases, Option-cases, inl,
  inr,
}
use pure_analyzer.Purecard.Schema.Trie.{
  NameClose, NameShape, continues, Trie, empty_node, stay, complete, diverge, root, child,
  is_terminal, grow, step_to, finish, insert_from, insert, insert_all, from_closing_names, walk_on,
  walk,
}
use pure_analyzer.Purecard.Schema.Nodes.{child-grow, length-grow, child-finish, length-finish}
use pure_analyzer.Purecard.Schema.Labels.{Extends, Among, names_of}

-- The edges of the one trie are edges of the other.
abbrev Kept : Trie → Trie → Type 0
Kept t t' = (n b c : ℕ) → child t n b ≡ some c → child t' n b ≡ some c

abbrev InRange : Trie → Type 0
InRange t = (n b c : ℕ) → child t n b ≡ some c → c < length t.nodes

grow-Kept :
    (t : Trie) (node byte : ℕ)
    → node < length t.nodes
    → child t node byte ≡ none
    → Kept t (grow t node byte)
grow-Kept t node byte lt h n b c e = elim (Bool-cases ((node == n) && (byte == b))) [
  | inl q ↦
      let from : node ≡ n = ground arith in
      let same : byte ≡ b = ground arith in
      let no : none ≡ some c = sym h ∙ ap (λ i. child t i byte) from ∙ ap (child t n) same ∙ e in
      absurd (cc)
  | inr q ↦ child-grow t node byte n b lt h ∙ rw q e
]

grow-InRange :
    (t : Trie) (node byte : ℕ)
    → node < length t.nodes
    → child t node byte ≡ none
    → InRange t
    → InRange (grow t node byte)
grow-InRange t node byte lt h k n b c e = elim (Bool-cases ((node == n) && (byte == b))) [
  | inl q ↦
      let made : some (length t.nodes) ≡ some c = rw (child-grow t node byte n b lt h, q) at e in
      let to : length t.nodes ≡ c = cc in omega (arith, length-grow t node byte, to)
  | inr q ↦
      let kept : child t n b ≡ some c = rw (child-grow t node byte n b lt h, q) at e in
      omega (arith, length-grow t node byte, k n b c kept)
]

walk-Kept :
    (t t' : Trie) (shape : NameShape) (bs : List ℕ) (n m : ℕ)
    → Kept t t'
    → walk t n bs shape ≡ stay m
    → walk t' n bs shape ≡ stay m
unfolding walk
walk-Kept t t' shape [] n m k h = h
walk-Kept t t' shape (b ∷ bs) n m k h =
    by_child (child t n b) refl h (λ c. walk-Kept t t' shape bs c m k)
  where
    stuck : (q : Bool) → (if q then complete n b else diverge) ≡ stay m → ⊥
    stuck true e = cc
    stuck false e = cc

    by_child :
        (o : Option ℕ)
        → child t n b ≡ o
        → walk_on t n b shape (λ c. walk t c bs shape) o ≡ stay m
        → ((c : ℕ) → walk t c bs shape ≡ stay m → walk t' c bs shape ≡ stay m)
        → walk t' n (b ∷ bs) shape ≡ stay m
    by_child none e q ih = absurd (stuck (is_terminal t n && not (continues shape b)) q)
    by_child (some c) e q ih =
        ap (walk_on t' n b shape (λ c. walk t' c bs shape)) (k n b c e) ∙ ih c q

-- What the loop of `insert` leaves behind.
abbrev IsTrodden : Trie → ℕ → List ℕ → NameShape → Trie × ℕ → Type 0
IsTrodden t node bs shape r =
    InRange r.0 × Kept t r.0 × (walk r.0 node bs shape ≡ stay r.1) × (r.1 < length r.0.nodes)

insert_from-IsTrodden :
    (shape : NameShape) (bs : List ℕ) (t : Trie) (node : ℕ)
    → InRange t
    → node < length t.nodes
    → IsTrodden t node bs shape (insert_from t node bs)
unfolding insert_from walk
insert_from-IsTrodden shape [] t node k lt = (k, λ n b c e. e, refl, lt)
insert_from-IsTrodden shape (b ∷ bs) t node k lt = elim (Option-cases (child t node b)) [
  | inl e ↦
      let next : Trie = grow t node b in
      let edge : child (grow t node b) node b ≡ some (length t.nodes) =
        child-grow t node b node b lt e ∙ itself node b (some (length t.nodes)) (child t node b) in
      let (range, kept, way, inside) =
        insert_from-IsTrodden shape bs (grow t node b) (length t.nodes)
          (grow-InRange t node b lt e k) (omega (arith, length-grow t node b)) in
      by_child none e (
        range,
        λ n x c q. kept n x c (grow-Kept t node b lt e n x c q),
        ap (walk_on _ node b shape (λ c. walk _ c bs shape)) (kept node b (length t.nodes) edge)
            ∙ way,
        inside,
      )
  | inr (c, e) ↦
      let (range, kept, way, inside) = insert_from-IsTrodden shape bs t c k (k node b c e) in
      by_child (some c) e (
        range,
        kept,
        ap (walk_on _ node b shape (λ c. walk _ c bs shape)) (kept node b c e) ∙ way,
        inside,
      )
]
  where
    itself : (n x : ℕ) (y z : Option ℕ) → (if (n == n) && (x == x) then y else z) ≡ y
    itself n x y z = ground arith

    by_child :
        (o : Option ℕ)
        → child t node b ≡ o
        → IsTrodden t node
            (b ∷ bs)
            shape
            (insert_from (step_to t node b o).0 (step_to t node b o).1 bs)
        → IsTrodden t node (b ∷ bs) shape (insert_from t node (b ∷ bs))
    by_child o e q =
        subst
          (λ p.
            IsTrodden t node (b ∷ bs) shape
              (insert_from (step_to t node b p).0 (step_to t node b p).1 bs))
          (sym e) q

insert-stays :
    (shape : NameShape) (name : List ℕ) (close : NameClose) (t : Trie)
    → InRange t
    → 0 < length t.nodes
    → InRange (insert t name close)
      × Kept t (insert t name close)
      × ((n : ℕ) × (walk (insert t name close) root name shape ≡ stay n))
      × (0 < length (insert t name close).nodes)
unfolding insert
insert-stays shape name close t k lt =
    let r : Trie × ℕ = insert_from t root name in
    let (range, kept, way, inside) = insert_from-IsTrodden shape name t root k lt in
    let same = child-finish r.0 r.1 close inside in
    let size = length-finish r.0 r.1 close inside in
    (
      λ n b c e. rw size (range n b c (sym (same n b) ∙ e)),
      λ n b c e. same n b ∙ kept n b c e,
      (r.1, walk-Kept r.0 (finish close r) shape name root r.1 (λ n b c e. same n b ∙ e) way),
      rw size (omega (arith, inside)),
    )

insert_all-stays :
    (shape : NameShape) (entries : List (List ℕ × NameClose)) (t : Trie)
    → InRange t
    → 0 < length t.nodes
    → Kept t (insert_all t entries)
      × ((name : List ℕ)
          → Among (names_of entries) name
          → (n : ℕ) × (walk (insert_all t entries) root name shape ≡ stay n))
insert_all-stays shape [] t k lt = (λ n b c e. e, λ name a. absurd (nothing name a))
  where
    nothing : (name : List ℕ) → Among [] name → ⊥
    nothing name (i, e) = cc
insert_all-stays shape ((first, close) ∷ entries) t k lt =
    let (range, kept, (n, way), some_node) = insert-stays shape first close t k lt in
    let (later, others) = insert_all-stays shape entries (insert t first close) range some_node in
    (
      λ m b c e. later m b c (kept m b c e),
      λ name a.
          by_place a.0 name a.1
            (
              n,
              walk-Kept (insert t first close) (insert_all (insert t first close) entries) shape
                  first root n later way,
            )
            (λ x b. others x b),
    )
  where
    by_place :
        (i : ℕ) (name : List ℕ)
        → get_elem? (first ∷ names_of entries) i ≡ some name
        → ((n : ℕ) × (walk (insert_all (insert t first close) entries) root first shape ≡ stay n))
        → ((x : List ℕ)
            → Among (names_of entries) x
            → (n : ℕ) × (walk (insert_all (insert t first close) entries) root x shape ≡ stay n))
        → (n : ℕ) × (walk (insert_all (insert t first close) entries) root name shape ≡ stay n)
    by_place zero name e here there =
        let same : first ≡ name = cc in
        (
          here.0,
          ap (λ x. walk (insert_all (insert t first close) entries) root x shape) (sym same)
              ∙ here.1,
        )
    by_place (suc i) name e here there = there name (i, e)

-- A front of bytes that stay stays.
walk-front :
    (t : Trie) (shape : NameShape) (u rest : List ℕ) (node m : ℕ)
    → walk t node (u ++ rest) shape ≡ stay m
    → (n : ℕ) × (walk t node u shape ≡ stay n)
unfolding walk
walk-front t shape [] rest node m h = (node, refl)
walk-front t shape (b ∷ u) rest node m h =
    by_child (child t node b) refl h (λ c. walk-front t shape u rest c m)
  where
    stuck : (q : Bool) → (if q then complete node b else diverge) ≡ stay m → ⊥
    stuck true e = cc
    stuck false e = cc

    by_child :
        (o : Option ℕ)
        → child t node b ≡ o
        → walk_on t node b shape (λ c. walk t c (u ++ rest) shape) o ≡ stay m
        → ((c : ℕ) → walk t c (u ++ rest) shape ≡ stay m → (n : ℕ) × (walk t c u shape ≡ stay n))
        → (n : ℕ) × (walk t node (b ∷ u) shape ≡ stay n)
    by_child none e q ih = absurd (stuck (is_terminal t node && not (continues shape b)) q)
    by_child (some c) e q ih =
        let (n, way) = ih c q in (n, ap (walk_on t node b shape (λ c. walk t c u shape)) e ∙ way)

alone_child : (n b c : ℕ) → child (record { nodes = empty_node ∷ [] }) n b ≡ some c → c < 1
unfolding child
alone_child zero b c h = absurd (cc)
alone_child (suc n) b c h = absurd (cc)

-- In the trie of any names, a walk from the root keeps every token whose bytes begin a name.
pub from_closing_names-stays :
    (entries : List (List ℕ × NameClose)) (bytes : List ℕ) (shape : NameShape)
    → Extends (names_of entries) bytes
    → (n : ℕ) × (walk (from_closing_names entries) root bytes shape ≡ stay n)
unfolding from_closing_names
from_closing_names-stays entries bytes shape (k, rest, e) =
    let (kept, stays) =
      insert_all-stays shape entries (record { nodes = empty_node ∷ [] }) alone_child
        (omega arith) in
    let (m, way) = stays (bytes ++ rest) (k, e) in
    walk-front (insert_all (record { nodes = empty_node ∷ [] }) entries) shape bytes rest root m way
