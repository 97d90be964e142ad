-- ===== src/Purecard/Automaton/Rounds.antt =====
-- The rounds of the search, and the loop over the starts.
use mathlib.Core.Path.{subst}
use pure_analyzer.Shared.{
  ℕ, zero, suc, ◌+◌, ◌<◌, true, false, some, List, [], ◌∷◌, ◌≡◌, ◌⊎◌, refl, sym, ap, ◌∙◌, arith,
  ◌==◌, Bool-cases, Option-cases, inl, inr, length,
}
use pure_analyzer.Shared.Cells.{length-modify}
use pure_analyzer.Purecard.Automaton.Graph.{
  Mark, unvisited, in_progress, done, Traversal, drained, cycle, exhausted, mark_at, set_mark, edge,
  Round, on, cyclic, meet, follow, go_on, traverse, is_unvisited, after_start, traverse_all,
}
use pure_analyzer.Purecard.Automaton.Drain.{
  IsSearch, on_stack, finish-IsSearch, skip-IsSearch, visit-IsSearch,
}
use pure_analyzer.Purecard.Automaton.Search.{count_done-visit, mark_at-finish, mark_at-visit}

-- A node that has been met stays met.
abbrev pub IsMet : List Mark → ℕ → Type 0
IsMet marks u = is_unvisited (mark_at marks u) ≡ false

on-injective : (a b : List Mark) (c d : List (ℕ × ℕ)) → on a c ≡ on b d → (a ≡ b) × (c ≡ d)
on-injective a b c d h = (cc, cc)

-- One round.
follow-IsSearch :
    (edges : List (List ℕ)) (marks marks' : List Mark) (n k : ℕ) (rest stack' : List (ℕ × ℕ))
    → IsSearch edges marks ((n, k) ∷ rest)
    → follow marks rest n k (edge edges n k) ≡ on marks' stack'
    → IsSearch edges marks' stack'
      × (length marks' ≡ length marks)
      × ((u : ℕ) → IsMet marks u → IsMet marks' u)
follow-IsSearch edges marks marks' n k rest stack' s h = elim (Option-cases (edge edges n k)) [
  | inl e ↦
      moved (on-injective (set_mark marks n done) marks' rest stack' (rw e at h))
        (finish-IsSearch edges marks n k rest s e) (length-modify marks n _)
        (λ u m. rw (mark_at-finish marks n u) (ground arith))
  | inr (v, e) ↦ by_mark v e (mark_at marks v) refl (rw e at h)
]
  where
    moved :
        {m : List Mark} {st : List (ℕ × ℕ)}
        → (m ≡ marks') × (st ≡ stack')
        → IsSearch edges m st
        → length m ≡ length marks
        → ((u : ℕ) → IsMet marks u → IsMet m u)
        → IsSearch edges marks' stack'
          × (length marks' ≡ length marks)
          × ((u : ℕ) → IsMet marks u → IsMet marks' u)
    moved {m} {st} (p, q) w l met = (
      subst (λ x. IsSearch edges marks' x) q (subst (λ x. IsSearch edges x st) p w),
      sym (ap length p) ∙ l,
      subst (λ x. (u : ℕ) → IsMet marks u → IsMet x u) p met,
    )

    by_mark :
        (v : ℕ)
        → edge edges n k ≡ some v
        → (m : Mark) → mark_at marks v ≡ m
        → meet marks rest n k v (mark_at marks v) ≡ on marks' stack'
        → IsSearch edges marks' stack'
          × (length marks' ≡ length marks)
          × ((u : ℕ) → IsMet marks u → IsMet marks' u)
    by_mark v e in_progress f q = absurd (stuck (rw f at q))
      where
        stuck : cyclic n v ≡ on marks' stack' → ⊥
        stuck w = cc
    by_mark v e done f q =
        moved (on-injective marks marks' ((n, suc k) ∷ rest) stack' (rw f at q))
          (skip-IsSearch edges marks n k rest v s e f) refl (λ u m. m)
    by_mark v e unvisited f q =
        moved
          (on-injective (set_mark marks v in_progress) marks' ((v, 0) ∷ (n, suc k) ∷ rest) stack'
            (rw f at q))
          (visit-IsSearch edges marks n k rest v s e f) (length-modify marks v _)
          (λ u m. rw (mark_at-visit marks v u f) (ground arith))

drained-injective : (a b : List Mark) → drained a ≡ drained b → a ≡ b
drained-injective a b h = cc

traverse-IsSearch :
    (edges : List (List ℕ)) (rounds : ℕ) (marks marks' : List Mark) (stack : List (ℕ × ℕ))
    → IsSearch edges marks stack
    → traverse edges rounds marks stack ≡ drained marks'
    → IsSearch edges marks' []
      × (length marks' ≡ length marks)
      × ((u : ℕ) → IsMet marks u → IsMet marks' u)
unfolding traverse
traverse-IsSearch edges zero marks marks' stack s h = absurd (cc)
traverse-IsSearch edges (suc rounds) marks marks' [] s h =
    subst
      (λ m. IsSearch edges m [] × (length m ≡ length marks) × ((u : ℕ) → IsMet marks u → IsMet m u))
      (drained-injective marks marks' h) (s, refl, λ u m. m)
traverse-IsSearch edges (suc rounds) marks marks' ((n, k) ∷ rest) s h =
    by_round (follow marks rest n k (edge edges n k)) refl h
      (λ m st w q. traverse-IsSearch edges rounds m marks' st w q)
  where
    by_round :
        (r : Round)
        → follow marks rest n k (edge edges n k) ≡ r
        → go_on (traverse edges rounds) r ≡ drained marks'
        → ((m : List Mark) (st : List (ℕ × ℕ))
            → IsSearch edges m st
            → traverse edges rounds m st ≡ drained marks'
            → IsSearch edges marks' []
              × (length marks' ≡ length m)
              × ((u : ℕ) → IsMet m u → IsMet marks' u))
        → IsSearch edges marks' []
          × (length marks' ≡ length marks)
          × ((u : ℕ) → IsMet marks u → IsMet marks' u)
    by_round (on m st) e q ih =
        let (w, l, met) = follow-IsSearch edges marks m n k rest st s e in
        let (w', l', met') = ih m st w q in (w', l' ∙ l, λ u x. met' u (met u x))
    by_round (cyclic a b) e q ih = absurd (cc)

start-IsSearch :
    (edges : List (List ℕ)) (marks : List Mark) (start : ℕ)
    → IsSearch edges marks []
    → mark_at marks start ≡ unvisited
    → IsSearch edges (set_mark marks start in_progress) ((start, 0) ∷ [])
unfolding on_stack
start-IsSearch edges marks start s f = record {
  heights = λ u h. rw (count_done-visit marks start f) (s.heights u (was_done u h));
  waiting = (λ i w lt q. absurd (omega arith), tt);
  opened = λ u h. open_node u h (Bool-cases (start == u));
}
  where
    was_done :
        (u : ℕ) → mark_at (set_mark marks start in_progress) u ≡ done → mark_at marks u ≡ done
    was_done u h = ground (arith, mark_at-visit marks start u f)

    closed_node : false ≡ true → ⊥
    closed_node q = cc

    open_node :
        (u : ℕ)
        → mark_at (set_mark marks start in_progress) u ≡ in_progress
        → ((start == u) ≡ true) ⊎ ((start == u) ≡ false)
        → on_stack u ((start, 0) ∷ []) ≡ true
    open_node u h (inl q) = ground arith
    open_node u h (inr q) =
        absurd (closed_node (s.opened u (rw (mark_at-visit marks start u f, q) at h)))

-- Where every start has been tried, every node up to the last start has been met.
pub traverse_all-IsSearch :
    (edges : List (List ℕ)) (budget start left : ℕ) (marks marks' : List Mark)
    → IsSearch edges marks []
    → ((u : ℕ) → u < start → IsMet marks u)
    → traverse_all edges budget start left marks ≡ drained marks'
    → IsSearch edges marks' []
      × (length marks' ≡ length marks)
      × ((u : ℕ) → u < start + left → IsMet marks' u)
unfolding traverse_all
traverse_all-IsSearch edges budget start zero marks marks' s met h =
    subst
      (λ m. IsSearch edges m [] × (length m ≡ length marks) × ((u : ℕ) → u < start + 0 → IsMet m u))
      (drained-injective marks marks' h) (s, refl, λ u lt. met u (omega arith))
traverse_all-IsSearch edges budget start (suc left) marks marks' s met h =
    elim (Bool-cases (is_unvisited (mark_at marks start))) [
      | inl e ↦
          by_traversal (unvisited_mark (mark_at marks start) e)
            (traverse edges (suc budget) (set_mark marks start in_progress) ((start, 0) ∷ [])) refl
            (rw e at h)
            (λ m w n q. traverse_all-IsSearch edges budget (suc start) left m marks' w n q)
      | inr e ↦ shifted (length marks) (
          traverse_all-IsSearch edges budget (suc start) left marks marks' s
            (λ u lt. met_next marks u lt met e) (rw e at h))
    ]
  where
    unvisited_mark : (m : Mark) → is_unvisited m ≡ true → m ≡ unvisited
    unvisited_mark unvisited q = refl
    unvisited_mark in_progress q = cc
    unvisited_mark done q = cc

    met_next :
        (m : List Mark) (u : ℕ)
        → u < suc start
        → ((v : ℕ) → v < start → IsMet m v)
        → IsMet m start
        → IsMet m u
    met_next m u lt old new = elim (Bool-cases (start == u)) [
      | inl q ↦ let same : start ≡ u = ground arith in subst (IsMet m) same new
      | inr q ↦ old u (ground arith)
    ]

    shifted :
        (n : ℕ)
        → IsSearch edges marks' []
          × (length marks' ≡ n)
          × ((u : ℕ) → u < suc start + left → IsMet marks' u)
        → IsSearch edges marks' []
          × (length marks' ≡ n)
          × ((u : ℕ) → u < start + suc left → IsMet marks' u)
    shifted n (w, l, m) = (w, l, λ u lt. m u (omega arith))

    by_traversal :
        mark_at marks start ≡ unvisited
        → (t : Traversal)
        → traverse edges (suc budget) (set_mark marks start in_progress) ((start, 0) ∷ []) ≡ t
        → after_start (traverse_all edges budget (suc start) left) t ≡ drained marks'
        → ((m : List Mark)
            → IsSearch edges m []
            → ((u : ℕ) → u < suc start → IsMet m u)
            → traverse_all edges budget (suc start) left m ≡ drained marks'
            → IsSearch edges marks' []
              × (length marks' ≡ length m)
              × ((u : ℕ) → u < suc start + left → IsMet marks' u))
        → IsSearch edges marks' []
          × (length marks' ≡ length marks)
          × ((u : ℕ) → u < start + suc left → IsMet marks' u)
    by_traversal f (drained m) e q ih =
        let marks1 = set_mark marks start in_progress in
        let (w, l, kept) =
          traverse-IsSearch edges (suc budget) marks1 m ((start, 0) ∷ [])
            (start-IsSearch edges marks start s f) e in
        let here : IsMet marks1 start = rw (mark_at-visit marks start start f) (ground arith) in
        let (w', l', met') =
          ih m w
            (λ u lt. kept u (
              met_next marks1 u lt
                (λ v below. rw (mark_at-visit marks start v f) (ground (arith, met v below))) here))
            q in
        shifted (length marks) (w', l' ∙ l ∙ length-modify marks start _, met')
    by_traversal f (cycle a b) e q ih = absurd (cc)
    by_traversal f exhausted e q ih = absurd (cc)
