-- ===== src/Purecard/Automaton/Drain.antt =====
-- What holds of the marks and the stack in each round of the search, and when the stack has drained.
use mathlib.Core.Path.{subst}
use pure_analyzer.Shared.{
  ℕ, zero, suc, ◌<◌, Bool, true, false, ◌||◌, Option, none, some, List, [], ◌∷◌, ◌≡◌, ◌⊎◌, refl,
  sym, ap, ◌∙◌, arith, ◌==◌, Bool-cases, inl, inr, get_elem?,
}
use pure_analyzer.Shared.Cells.{get_or}
use pure_analyzer.Purecard.Automaton.Graph.{
  Mark, unvisited, in_progress, done, mark_at, set_mark, edge,
}
use pure_analyzer.Purecard.Automaton.Search.{
  Height, Height-le, count_done, count_done-finish, count_done-finish_le, count_done-visit,
  mark_at-finish, mark_at-visit,
}

unfoldable pub on_stack : ℕ → List (ℕ × ℕ) → Bool
on_stack u [] = false
on_stack u ((n, k) ∷ rest) = n == u || on_stack u rest

module _ (edges : List (List ℕ)) where
  -- The edges that have been followed lead to finished nodes, or to the one above on the stack.
  abbrev pub Covered : List Mark → Option ℕ → ℕ → ℕ → Type 0
  Covered marks above n k =
      (i v : ℕ) → i < k → edge edges n i ≡ some v → (mark_at marks v ≡ done) ⊎ (above ≡ some v)

  abbrev pub Waiting : List Mark → Option ℕ → List (ℕ × ℕ) → Type 0
  Waiting marks above [] = Unit
  Waiting marks above ((n, k) ∷ rest) = Covered marks above n k × Waiting marks (some n) rest

  pub record IsSearch (marks : List Mark) (stack : List (ℕ × ℕ)) : Type 0 where
    pub heights : (u : ℕ) → mark_at marks u ≡ done → Height edges (count_done marks) u
    pub waiting : Waiting marks none stack
    pub opened : (u : ℕ) → mark_at marks u ≡ in_progress → on_stack u stack ≡ true

  abbrev DoneKept : List Mark → List Mark → Type 0
  DoneKept marks marks' = (u : ℕ) → mark_at marks u ≡ done → mark_at marks' u ≡ done

  Waiting-kept :
      (marks marks' : List Mark) (above : Option ℕ) (stack : List (ℕ × ℕ))
      → DoneKept marks marks'
      → Waiting marks above stack
      → Waiting marks' above stack
  Waiting-kept marks marks' above [] kept w = tt
  Waiting-kept marks marks' above ((n, k) ∷ rest) kept (c, w) =
      (λ i v lt e. keep (c i v lt e), Waiting-kept marks marks' (some n) rest kept w)
    where
      keep :
          {v : ℕ}
          → (mark_at marks v ≡ done) ⊎ (above ≡ some v)
          → (mark_at marks' v ≡ done) ⊎ (above ≡ some v)
      keep {v} (inl h) = inl (kept v h)
      keep (inr h) = inr h

  finish_kept : (marks : List Mark) (n : ℕ) → DoneKept marks (set_mark marks n done)
  finish_kept marks n u h = rw (mark_at-finish marks n u) (ground arith)

  -- The node above is finished, so what waited for it waits for nothing.
  Waiting-finish :
      (marks : List Mark) (n : ℕ) (stack : List (ℕ × ℕ))
      → Waiting marks (some n) stack
      → Waiting (set_mark marks n done) none stack
  Waiting-finish marks n [] w = tt
  Waiting-finish marks n ((m, k) ∷ rest) (c, w) = (
    λ i v lt e. now (c i v lt e),
    Waiting-kept marks (set_mark marks n done) (some m) rest (finish_kept marks n) w,
  )
    where
      now :
          {v : ℕ}
          → (mark_at marks v ≡ done) ⊎ (some n ≡ some v)
          → (mark_at (set_mark marks n done) v ≡ done) ⊎ (none ≡ some v)
      now {v} (inl h) = inl (finish_kept marks n v h)
      now {v} (inr h) = let same : n ≡ v = cc in inl (rw (mark_at-finish marks n v) (ground arith))

  Height-finish :
      (marks : List Mark) (n : ℕ)
      → ((u : ℕ) → mark_at marks u ≡ done → Height edges (count_done marks) u)
      → ((k v : ℕ) → edge edges n k ≡ some v → mark_at marks v ≡ done)
      → (u : ℕ) → mark_at (set_mark marks n done) u ≡ done
      → Height edges (count_done (set_mark marks n done)) u
  Height-finish marks n hs out u h = elim (Bool-cases (n == u)) [
    | inl e ↦
        let same : n ≡ u = ground arith in
        subst (Height edges (count_done (set_mark marks n done))) same
          (elim (count_done-finish marks n) [
            | inl old ↦
                Height-le edges (count_done marks) (count_done (set_mark marks n done)) n
                  (count_done-finish_le marks n) (hs n old)
            | inr more ↦ rw more (λ k v q. hs v (out k v q))
          ])
    | inr e ↦
        Height-le edges (count_done marks) (count_done (set_mark marks n done)) u
          (count_done-finish_le marks n) (hs u (rw (mark_at-finish marks n u, e) at h))
  ]

before_end : (xs : List ℕ) (i k v : ℕ) → get_elem? xs k ≡ none → get_elem? xs i ≡ some v → i < k
before_end [] i k v h e = absurd (cc)
before_end (x ∷ xs) i zero v h e = absurd (cc)
before_end (x ∷ xs) zero (suc k) v h e = omega arith
before_end (x ∷ xs) (suc i) (suc k) v h e = omega (arith, before_end xs i k v h e)

module _ (edges : List (List ℕ)) (marks : List Mark) (n k : ℕ) (rest : List (ℕ × ℕ)) where
  all_followed :
      IsSearch edges marks ((n, k) ∷ rest)
      → edge edges n k ≡ none
      → (i v : ℕ) → edge edges n i ≡ some v
      → mark_at marks v ≡ done
  all_followed s e i v q = finished v (s.waiting.0 i v (before_end (get_or [] edges n) i k v e q) q)
    where
      finished : (v : ℕ) → (mark_at marks v ≡ done) ⊎ (none ≡ some v) → mark_at marks v ≡ done
      finished v (inl h) = h
      finished v (inr h) = absurd (cc)

  pub finish-IsSearch :
      IsSearch edges marks ((n, k) ∷ rest)
      → edge edges n k ≡ none
      → IsSearch edges (set_mark marks n done) rest
  unfolding on_stack
  finish-IsSearch s e = record {
    heights = Height-finish edges marks n s.heights (all_followed s e);
    waiting = Waiting-finish edges marks n rest s.waiting.1;
    opened = λ u h. left_open u h (Bool-cases (n == u));
  }
    where
      left_open :
          (u : ℕ)
          → mark_at (set_mark marks n done) u ≡ in_progress
          → ((n == u) ≡ true) ⊎ ((n == u) ≡ false)
          → on_stack u rest ≡ true
      left_open u h (inl q) = absurd (clash (rw (mark_at-finish marks n u, q) at h))
        where
          clash : done ≡ in_progress → ⊥
          clash w = cc
      left_open u h (inr q) =
          let was : mark_at marks u ≡ in_progress = rw (mark_at-finish marks n u, q) at h in
          let held = s.opened u was in ground arith

  -- One more edge of the top node has been followed.
  Covered-next :
      (above : Option ℕ) (v : ℕ)
      → Covered edges marks none n k
      → edge edges n k ≡ some v
      → (mark_at marks v ≡ done) ⊎ (above ≡ some v)
      → Covered edges marks above n (suc k)
  Covered-next above v c e new i w lt q = elim (Bool-cases (i == k)) [
    | inl same ↦
        let at : i ≡ k = ground arith in
        let eq : v ≡ w = found (sym e ∙ ap (edge edges n) (sym at) ∙ q) in
        subst (λ x. (mark_at marks x ≡ done) ⊎ (above ≡ some x)) eq new
    | inr other ↦ weaken (c i w (ground arith) q)
  ]
    where
      found : {w : ℕ} → some v ≡ some w → v ≡ w
      found h = cc

      weaken :
          {w : ℕ}
          → (mark_at marks w ≡ done) ⊎ (none ≡ some w)
          → (mark_at marks w ≡ done) ⊎ (above ≡ some w)
      weaken (inl h) = inl h
      weaken (inr h) = absurd (cc)

  pub skip-IsSearch :
      (v : ℕ)
      → IsSearch edges marks ((n, k) ∷ rest)
      → edge edges n k ≡ some v
      → mark_at marks v ≡ done
      → IsSearch edges marks ((n, suc k) ∷ rest)
  unfolding on_stack
  skip-IsSearch v s e d = record {
    heights = s.heights;
    waiting = (Covered-next none v s.waiting.0 e (inl d), s.waiting.1);
    opened = s.opened;
  }

  visit_kept :
      (v : ℕ) → mark_at marks v ≡ unvisited → DoneKept edges marks (set_mark marks v in_progress)
  visit_kept v h u d = elim (Bool-cases (v == u)) [
    | inl e ↦
        let same : v ≡ u = ground arith in absurd (clash (sym (ap (mark_at marks) same ∙ d) ∙ h))
    | inr e ↦ rw (mark_at-visit marks v u h, e) d
  ]
    where
      clash : done ≡ unvisited → ⊥
      clash w = cc

  pub visit-IsSearch :
      (v : ℕ)
      → IsSearch edges marks ((n, k) ∷ rest)
      → edge edges n k ≡ some v
      → mark_at marks v ≡ unvisited
      → IsSearch edges (set_mark marks v in_progress) ((v, 0) ∷ (n, suc k) ∷ rest)
  unfolding on_stack
  visit-IsSearch v s e f =
      let marks' = set_mark marks v in_progress in
      record {
        heights = λ u h. finished_height u h (Bool-cases (v == u));
        waiting = (
          λ i w lt q. absurd (omega arith),
          (covered, Waiting-kept edges marks marks' (some n) rest (visit_kept v f) s.waiting.1),
        );
        opened = λ u h. open_node u h (Bool-cases (v == u));
      }
    where
      covered : Covered edges (set_mark marks v in_progress) (some v) n (suc k)
      covered i w lt q = keep (Covered-next (some v) v s.waiting.0 e (inr refl) i w lt q)
        where
          keep :
              (mark_at marks w ≡ done) ⊎ (some v ≡ some w)
              → (mark_at (set_mark marks v in_progress) w ≡ done) ⊎ (some v ≡ some w)
          keep (inl h) = inl (visit_kept v f w h)
          keep (inr h) = inr h

      finished_height :
          (u : ℕ)
          → mark_at (set_mark marks v in_progress) u ≡ done
          → ((v == u) ≡ true) ⊎ ((v == u) ≡ false)
          → Height edges (count_done (set_mark marks v in_progress)) u
      finished_height u h (inl q) = absurd (clash (rw (mark_at-visit marks v u f, q) at h))
        where
          clash : in_progress ≡ done → ⊥
          clash w = cc
      finished_height u h (inr q) =
          rw (count_done-visit marks v f) (s.heights u (rw (mark_at-visit marks v u f, q) at h))

      open_node :
          (u : ℕ)
          → mark_at (set_mark marks v in_progress) u ≡ in_progress
          → ((v == u) ≡ true) ⊎ ((v == u) ≡ false)
          → on_stack u ((v, 0) ∷ (n, suc k) ∷ rest) ≡ true
      open_node u h (inl q) = ground arith
      open_node u h (inr q) =
          let was : mark_at marks u ≡ in_progress = rw (mark_at-visit marks v u f, q) at h in
          let held = s.opened u was in ground arith
