-- ===== src/Purecard/Schema/Labels.antt =====
-- The names that the nodes of a trie spell.
use mathlib.Core.Path.{subst}
use pure_analyzer.Shared.{
  ℕ, suc, ◌<◌, true, false, ◌&&◌, ◌||◌, Option, none, some, List, [], ◌∷◌, ◌++◌, ◌≡◌, refl, sym, ap,
  ◌∙◌, arith, ◌==◌, if◌then◌else◌, length, get_elem?, map, append_assoc, append-nil, Bool-cases,
  Option-cases, inl, inr,
}
use pure_analyzer.Purecard.Schema.Trie.{
  NameClose, Trie, child, is_terminal, grow, step_to, insert_from, insert, insert_all,
}
use pure_analyzer.Purecard.Schema.Nodes.{
  child-grow, length-grow, is_terminal-grow, child-lt, is_terminal-lt, child-finish,
  is_terminal-finish, length-finish,
}

-- The bytes continue to a name of the list.
abbrev pub Extends : List (List ℕ) → List ℕ → Type 0
Extends names u = (k : ℕ) × (rest : List ℕ) × (get_elem? names k ≡ some (u ++ rest))

abbrev pub Among : List (List ℕ) → List ℕ → Type 0
Among names u = (k : ℕ) × (get_elem? names k ≡ some u)

-- An edge of a node leads to one that spells a byte more and begins a name.
abbrev pub Leads : Trie → List (List ℕ) → (ℕ → List ℕ) → ℕ → ℕ → ℕ → Type 0
Leads t names label n b c =
    (label c ≡ label n ++ b ∷ []) × (c < length t.nodes) × Extends names (label c)

-- Each node spells the bytes on the way to it, which begin a name, and a marked node spells a name.
pub record IsSpelled (t : Trie) (names : List (List ℕ)) (label : ℕ → List ℕ) : Type 0 where
  pub root : label 0 ≡ []
  pub rooted : 0 < length t.nodes
  pub edges : (n b c : ℕ) → child t n b ≡ some c → Leads t names label n b c
  pub marked : (n : ℕ) → is_terminal t n ≡ true → Among names (label n)

-- The labels, with that of one node more.
abbrev with_label : (ℕ → List ℕ) → ℕ → List ℕ → ℕ → List ℕ
with_label label new u n = if n == new then u else label n

with_label-old :
    (label : ℕ → List ℕ) (new n : ℕ) (u : List ℕ) → n < new → with_label label new u n ≡ label n
with_label-old label new n u lt = let other : (n == new) ≡ false = ground arith in rw other refl

with_label-new : (label : ℕ → List ℕ) (new : ℕ) (u : List ℕ) → with_label label new u new ≡ u
with_label-new label new u = let same : (new == new) ≡ true = ground arith in rw same refl

module _ (t : Trie) (names : List (List ℕ)) (label : ℕ → List ℕ) (node b : ℕ)
    (v : IsSpelled t names label) (lt : node < length t.nodes) (h : child t node b ≡ none)
    (ext : Extends names (label node ++ b ∷ [])) where
  abbrev grown : ℕ → List ℕ
  grown = with_label label (length t.nodes) (label node ++ b ∷ [])

  old : (n : ℕ) → n < length t.nodes → grown n ≡ label n
  old n le = with_label-old label (length t.nodes) n (label node ++ b ∷ []) le

  new : grown (length t.nodes) ≡ label node ++ b ∷ []
  new = with_label-new label (length t.nodes) (label node ++ b ∷ [])

  grown_edge :
      (n x c : ℕ) → child (grow t node b) n x ≡ some c → Leads (grow t node b) names grown n x c
  grown_edge n x c e = elim (Bool-cases ((node == n) && (b == x))) [
    | inl q ↦
        let from : node ≡ n = ground arith in
        let byte : b ≡ x = ground arith in
        let made : some (length t.nodes) ≡ some c = rw (child-grow t node b n x lt h, q) at e in
        let to : length t.nodes ≡ c = cc in
        let spelled : grown c ≡ label node ++ b ∷ [] = ap grown (sym to) ∙ new in
        (
          spelled
              ∙ ap (λ y. label node ++ y ∷ []) byte
              ∙ ap (λ l. l ++ x ∷ []) (sym (old node lt) ∙ ap grown from),
          omega (arith, length-grow t node b, to),
          (ext.0, ext.1, ext.2 ∙ ap (λ l. some (l ++ ext.1)) (sym spelled)),
        )
    | inr q ↦
        let kept : child t n x ≡ some c = rw (child-grow t node b n x lt h, q) at e in
        let (spelled, inside, (k, rest, begun)) = v.edges n x c kept in
        (
          old c inside ∙ spelled ∙ ap (λ l. l ++ x ∷ []) (sym (old n (child-lt t n x c kept))),
          omega (arith, length-grow t node b, inside),
          (k, rest, begun ∙ ap (λ l. some (l ++ rest)) (sym (old c inside))),
        )
  ]

  grow-IsSpelled : IsSpelled (grow t node b) names grown
  grow-IsSpelled = record {
    root = old 0 v.rooted ∙ v.root;
    rooted = omega (arith, length-grow t node b, v.rooted);
    edges = grown_edge;
    marked = λ n e.
        let here : is_terminal t n ≡ true = sym (is_terminal-grow t node b n lt) ∙ e in
        let (k, spelled) = v.marked n here in
        (k, spelled ∙ ap some (sym (old n (is_terminal-lt t n here))));
  }

-- After the loop of `insert` the node it ends at spells what it began with and the name's bytes.
abbrev Inserted : List (List ℕ) → List ℕ → Trie × ℕ → Type 0
Inserted names u r =
    (label : ℕ → List ℕ) × IsSpelled r.0 names label × (label r.1 ≡ u) × (r.1 < length r.0.nodes)

insert_from-IsSpelled :
    (names : List (List ℕ)) (bs : List ℕ) (t : Trie) (node : ℕ) (label : ℕ → List ℕ) (u : List ℕ)
    → IsSpelled t names label
    → node < length t.nodes
    → label node ≡ u
    → Extends names (u ++ bs)
    → Inserted names (u ++ bs) (insert_from t node bs)
unfolding insert_from
insert_from-IsSpelled names [] t node label u v lt h ext = (label, v, h ∙ sym (append-nil u), lt)
insert_from-IsSpelled names (b ∷ bs) t node label u v lt h ext =
    let shift : (u ++ b ∷ []) ++ bs ≡ u ++ b ∷ bs = append_assoc u (b ∷ []) bs in
    let here : label node ++ b ∷ [] ≡ u ++ b ∷ [] = ap (λ l. l ++ b ∷ []) h in
    let far : Extends names ((u ++ b ∷ []) ++ bs) = subst (Extends names) (sym shift) ext in
    let near : Extends names (label node ++ b ∷ []) = (
      ext.0,
      bs ++ ext.1,
      ext.2
          ∙ ap some (
              append_assoc u (b ∷ bs) ext.1
              ∙ sym (append_assoc u (b ∷ []) (bs ++ ext.1))
              ∙ ap (λ l. l ++ (bs ++ ext.1)) (sym here)),
    ) in
    elim (Option-cases (child t node b)) [
      | inl e ↦
          let larger = grow-IsSpelled t names label node b v lt e near in
          by_child none e (
            subst (λ w. Inserted names w (insert_from (grow t node b) (length t.nodes) bs)) shift
              (insert_from-IsSpelled names bs (grow t node b) (length t.nodes)
                (with_label label (length t.nodes) (label node ++ b ∷ [])) (u ++ b ∷ []) larger
                (omega (arith, length-grow t node b))
                (with_label-new label (length t.nodes) (label node ++ b ∷ []) ∙ here) far))
      | inr (c, e) ↦
          let (spelled, inside, begun) = v.edges node b c e in
          by_child (some c) e (
            subst (λ w. Inserted names w (insert_from t c bs)) shift
              (insert_from-IsSpelled names bs t c label (u ++ b ∷ []) v inside (spelled ∙ here)
                far))
    ]
  where
    by_child :
        (o : Option ℕ)
        → child t node b ≡ o
        → Inserted names
            (u ++ b ∷ bs)
            (insert_from (step_to t node b o).0 (step_to t node b o).1 bs)
        → Inserted names (u ++ b ∷ bs) (insert_from t node (b ∷ bs))
    by_child o e k =
        subst
          (λ p.
            Inserted names (u ++ b ∷ bs)
              (insert_from (step_to t node b p).0 (step_to t node b p).1 bs))
          (sym e) k

insert-IsSpelled :
    (names : List (List ℕ)) (name : List ℕ) (close : NameClose) (t : Trie) (label : ℕ → List ℕ)
    → IsSpelled t names label
    → Among names name
    → (after : ℕ → List ℕ) × IsSpelled (insert t name close) names after
unfolding insert
insert-IsSpelled names name close t label v (k, listed) =
    let r : Trie × ℕ = insert_from t 0 name in
    let (after, w, spelled, lt) =
      insert_from-IsSpelled names name t 0 label [] v v.rooted v.root
        (k, [], listed ∙ ap some (sym (append-nil name))) in
    (
      after,
      record {
        root = w.root;
        rooted = rw (length-finish r.0 r.1 close lt) w.rooted;
        edges = λ n b c e.
            let (grows, inside, begun) =
              w.edges n b c (sym (child-finish r.0 r.1 close lt n b) ∙ e) in
            (grows, rw (length-finish r.0 r.1 close lt) inside, begun);
        marked = λ n e. elim (Bool-cases (r.1 == n)) [
          | inl q ↦
              let same : r.1 ≡ n = ground arith in
              (k, listed ∙ ap some (sym spelled ∙ ap after same))
          | inr q ↦
              let either : (r.1 == n || is_terminal r.0 n) ≡ true =
                sym (is_terminal-finish r.0 r.1 close lt n) ∙ e in
              w.marked n (ground arith)
        ];
      },
    )

abbrev pub names_of : List (List ℕ × NameClose) → List (List ℕ)
names_of entries = map (λ e. e.0) entries

pub insert_all-IsSpelled :
    (full : List (List ℕ)) (entries : List (List ℕ × NameClose)) (t : Trie) (label : ℕ → List ℕ)
    → IsSpelled t full label
    → ((name : List ℕ) → Among (names_of entries) name → Among full name)
    → (after : ℕ → List ℕ) × IsSpelled (insert_all t entries) full after
insert_all-IsSpelled full [] t label v inc = (label, v)
insert_all-IsSpelled full ((name, close) ∷ entries) t label v inc =
    let (next, w) = insert-IsSpelled full name close t label v (inc name (0, refl)) in
    insert_all-IsSpelled full entries (insert t name close) next w (λ n a. inc n (suc a.0, a.1))
