-- ===== src/Purecard/Automaton/Chains.antt =====
-- A search that drains bounds every chain of edges by the number of nodes.
use pure_analyzer.Shared.{
  ℕ, zero, suc, ◌≤◌, true, false, none, some, List, [], ◌∷◌, ◌≡◌, refl, ◌∙◌, arith, ltb, Bool-cases,
  inl, inr, length,
}
use pure_analyzer.Shared.Cells.{get_or, replicate, length-replicate}
use pure_analyzer.Purecard.Automaton.Graph.{
  Mark, unvisited, in_progress, done, drained, mark_at, edge, traverse_all, is_unvisited,
}
use pure_analyzer.Purecard.Automaton.Search.{Height, Height-le, count_done, count_done-le}
use pure_analyzer.Purecard.Automaton.Drain.{IsSearch, on_stack}
use pure_analyzer.Purecard.Automaton.Rounds.{traverse_all-IsSearch}

-- The search begins with no node met.
fresh_mark : (n u : ℕ) → mark_at (replicate n unvisited) u ≡ done → n ≤ u
fresh_mark zero u h = omega arith
fresh_mark (suc n) zero h = absurd (cc)
fresh_mark (suc n) (suc u) h = omega (arith, fresh_mark n u h)

not_open : (n u : ℕ) → mark_at (replicate n unvisited) u ≡ in_progress → ⊥
not_open zero u h = cc
not_open (suc n) zero h = cc
not_open (suc n) (suc u) h = not_open n u h

beyond : (edges : List (List ℕ)) (u : ℕ) → length edges ≤ u → get_or [] edges u ≡ []
beyond [] u h = refl
beyond (e ∷ es) zero h = absurd (omega arith)
beyond (e ∷ es) (suc u) h = beyond es u (omega arith)

nowhere : (edges : List (List ℕ)) (u k v : ℕ) → length edges ≤ u → edge edges u k ≡ some v → ⊥
nowhere edges u k v h e = stuck (rw (beyond edges u h) at e)
  where
    stuck : none ≡ some v → ⊥
    stuck q = cc

no_edge : (edges : List (List ℕ)) (u d : ℕ) → length edges ≤ u → Height edges d u
no_edge edges u zero h = λ k v e. nowhere edges u k v h e
no_edge edges u (suc d) h = λ k v e. absurd (nowhere edges u k v h e)

fresh-IsSearch :
    (edges : List (List ℕ)) (n : ℕ) → length edges ≡ n → IsSearch edges (replicate n unvisited) []
fresh-IsSearch edges n l = record {
  heights = λ u h. no_edge edges u (count_done (replicate n unvisited)) (rw l (fresh_mark n u h));
  waiting = tt;
  opened = λ u h. absurd (not_open n u h);
}

-- A search of every start that drains bounds every chain by the number of nodes.
pub drained-Height :
    (edges : List (List ℕ)) (budget n : ℕ) (marks : List Mark)
    → length edges ≡ n
    → traverse_all edges budget 0 n (replicate n unvisited) ≡ drained marks
    → (u : ℕ) → Height edges n u
unfolding on_stack
drained-Height edges budget n marks l h u =
    let (s, k, met) =
      traverse_all-IsSearch edges budget 0 n (replicate n unvisited) marks
        (fresh-IsSearch edges n l) (λ v lt. absurd (omega arith)) h in
    let long : length marks ≡ n = k ∙ length-replicate n unvisited in
    elim (Bool-cases (ltb u n)) [
      | inl inside ↦
          Height-le edges (count_done marks) n u (omega (arith, count_done-le marks))
            (s.heights u (finished (mark_at marks u) refl (met u (ground arith)) (s.opened u)))
      | inr outside ↦ no_edge edges u n (rw l (ground arith))
    ]
  where
    finished :
        (m : Mark)
        → mark_at marks u ≡ m
        → is_unvisited (mark_at marks u) ≡ false
        → (mark_at marks u ≡ in_progress → false ≡ true)
        → mark_at marks u ≡ done
    finished unvisited e q o = absurd (no (rw e at q))
      where
        no : true ≡ false → ⊥
        no w = cc
    finished in_progress e q o = absurd (no (o e))
      where
        no : false ≡ true → ⊥
        no w = cc
    finished done e q o = e
