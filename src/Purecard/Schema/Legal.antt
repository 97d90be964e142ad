-- ===== src/Purecard/Schema/Legal.antt =====
-- A walk keeps a token only if its bytes begin a legal name or end one.
use mathlib.Core.Path.{subst}
use pure_analyzer.Shared.{
  ℕ, zero, suc, Bool, true, false, not, ◌&&◌, Option, none, some, List, [], ◌∷◌, ◌++◌, ◌≡◌, ◌⊎◌,
  refl, sym, ap, ◌∙◌, arith, if◌then◌else◌, append_assoc, append-nil, Option-cases, inl, inr,
}
use pure_analyzer.Purecard.Schema.Trie.{
  NameClose, NameShape, continues, Trie, empty_node, Walk, stay, complete, diverge, root, child,
  is_terminal, insert_all, from_closing_names, walk_on, walk,
}
use pure_analyzer.Purecard.Schema.Labels.{Extends, Among, IsSpelled, names_of, insert_all-IsSpelled}

-- What a walk may say of the bytes so far: they begin a name, or a name ends where a byte that does not
-- continue it stands.
abbrev pub Legal : List (List ℕ) → NameShape → List ℕ → Walk → Type 0
Legal names shape bytes (stay n) = (bytes ≡ []) ⊎ Extends names bytes
Legal names shape bytes (complete n boundary) =
    (u : List ℕ) × (v : List ℕ) × (u ++ boundary ∷ v ≡ bytes)
    × Among names u
    × (continues shape boundary ≡ false)
Legal names shape bytes diverge = Unit

walk-Legal :
    (names : List (List ℕ)) (t : Trie) (label : ℕ → List ℕ) (shape : NameShape) (bs : List ℕ)
    (node : ℕ) (u : List ℕ)
    → IsSpelled t names label
    → label node ≡ u
    → (u ≡ []) ⊎ Extends names u
    → Legal names shape (u ++ bs) (walk t node bs shape)
unfolding walk
walk-Legal names t label shape [] node u v h begun =
    subst (λ w. (w ≡ []) ⊎ Extends names w) (sym (append-nil u)) begun
walk-Legal names t label shape (b ∷ bs) node u v h begun = elim (Option-cases (child t node b)) [
  | inl e ↦ by_child none e (by_mark (is_terminal t node && not (continues shape b)) refl)
  | inr (c, e) ↦
      let (spelled, inside, far) = v.edges node b c e in
      let here : label c ≡ u ++ b ∷ [] = spelled ∙ ap (λ l. l ++ b ∷ []) h in
      by_child (some c) e (
        subst (λ w. Legal names shape w (walk t c bs shape)) (append_assoc u (b ∷ []) bs)
          (walk-Legal names t label shape bs c (u ++ b ∷ []) v here
            (inr (subst (Extends names) here far))))
]
  where
    by_child :
        (o : Option ℕ)
        → child t node b ≡ o
        → Legal names shape (u ++ b ∷ bs) (walk_on t node b shape (λ c. walk t c bs shape) o)
        → Legal names shape (u ++ b ∷ bs) (walk t node (b ∷ bs) shape)
    by_child o e k =
        subst
          (λ p. Legal names shape (u ++ b ∷ bs) (walk_on t node b shape (λ c. walk t c bs shape) p))
          (sym e) k

    by_mark :
        (m : Bool)
        → (is_terminal t node && not (continues shape b)) ≡ m
        → Legal names shape (u ++ b ∷ bs) (if m then complete node b else diverge)
    by_mark false q = tt
    by_mark true q =
        let mark : is_terminal t node ≡ true = ground arith in
        let ends : continues shape b ≡ false = ground arith in
        let (k, name) = v.marked node mark in (u, bs, refl, (k, name ∙ ap some h), ends)

no_child : (n b c : ℕ) → child (record { nodes = empty_node ∷ [] }) n b ≡ some c → ⊥
unfolding child
no_child zero b c h = cc
no_child (suc n) b c h = cc

no_mark : (n : ℕ) → is_terminal (record { nodes = empty_node ∷ [] }) n ≡ true → ⊥
unfolding is_terminal
no_mark zero h = cc
no_mark (suc n) h = cc

-- In the trie of any names, a walk from the root keeps a token only if its bytes begin a name, and calls
-- a name complete only where the bytes before the boundary are a name and the boundary byte does not
-- continue the lexeme.
pub from_closing_names-Legal :
    (entries : List (List ℕ × NameClose)) (bytes : List ℕ) (shape : NameShape)
    → Legal (names_of entries) shape bytes (walk (from_closing_names entries) root bytes shape)
unfolding from_closing_names
from_closing_names-Legal entries bytes shape =
    let (label, v) =
      insert_all-IsSpelled (names_of entries) entries (record { nodes = empty_node ∷ [] }) (λ n. [])
        (record {
          root = refl;
          rooted = omega arith;
          edges = λ n b c e. absurd (no_child n b c e);
          marked = λ n e. absurd (no_mark n e);
        })
        (λ n a. a) in
    walk-Legal (names_of entries) (insert_all (record { nodes = empty_node ∷ [] }) entries) label
      shape bytes 0 [] v v.root (inl refl)
