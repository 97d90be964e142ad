-- ===== src/Purecard/Automaton/Search.antt =====
-- The depth-first search: if it drains, every chain of edges is shorter than the number of nodes.
use pure_analyzer.Shared.{
  ℕ, zero, suc, ◌≤◌, Bool, true, false, some, List, [], ◌∷◌, ◌≡◌, ◌⊎◌, refl, ◌∙◌, arith, ◌==◌,
  if◌then◌else◌, inl, inr, length,
}
use pure_analyzer.Purecard.Automaton.Graph.{
  Mark, unvisited, in_progress, done, mark_at, set_mark, edge,
}

-- A chain of edges from the node has at most so many.
abbrev pub Height : List (List ℕ) → ℕ → ℕ → Type 0
Height edges zero u = (k v : ℕ) → edge edges u k ≡ some v → ⊥
Height edges (suc d) u = (k v : ℕ) → edge edges u k ≡ some v → Height edges d v

Height-suc : (edges : List (List ℕ)) (d u : ℕ) → Height edges d u → Height edges (suc d) u
Height-suc edges zero u h k v e = absurd (h k v e)
Height-suc edges (suc d) u h k v e = Height-suc edges d v (h k v e)

pub Height-le : (edges : List (List ℕ)) (d e u : ℕ) → d ≤ e → Height edges d u → Height edges e u
Height-le edges zero zero u h w = w
Height-le edges (suc d) zero u h w = absurd (omega arith)
Height-le edges zero (suc e) u h w = λ k v q. absurd (w k v q)
Height-le edges (suc d) (suc e) u h w = λ k v q. Height-le edges d e v (omega arith) (w k v q)

pub is_done : Mark → Bool
is_done done = true
is_done _ = false

pub count_done : List Mark → ℕ
unfolding is_done
count_done [] = 0
count_done (m ∷ ms) = if is_done m then suc (count_done ms) else count_done ms

pub count_done-le : (ms : List Mark) → count_done ms ≤ length ms
unfolding count_done
count_done-le [] = omega arith
count_done-le (m ∷ ms) = ground (arith, count_done-le ms)

pub count_done-finish :
    (ms : List Mark) (i : ℕ)
    → (mark_at ms i ≡ done) ⊎ (count_done (set_mark ms i done) ≡ suc (count_done ms))
unfolding count_done
count_done-finish [] i = inl refl
count_done-finish (done ∷ ms) zero = inl refl
count_done-finish (unvisited ∷ ms) zero = inr refl
count_done-finish (in_progress ∷ ms) zero = inr refl
count_done-finish (m ∷ ms) (suc i) = elim (count_done-finish ms i) [
  | inl e ↦ inl e
  | inr e ↦ inr (ground arith)
]

pub count_done-finish_le :
    (ms : List Mark) (i : ℕ) → count_done ms ≤ count_done (set_mark ms i done)
unfolding count_done
count_done-finish_le [] i = omega arith
count_done-finish_le (m ∷ ms) zero = ground arith
count_done-finish_le (m ∷ ms) (suc i) = ground (arith, count_done-finish_le ms i)

pub count_done-visit :
    (ms : List Mark) (i : ℕ)
    → mark_at ms i ≡ unvisited
    → count_done (set_mark ms i in_progress) ≡ count_done ms
unfolding count_done
count_done-visit [] i h = refl
count_done-visit (m ∷ ms) zero h = rw h refl
count_done-visit (m ∷ ms) (suc i) h = ground (arith, count_done-visit ms i)

pub mark_at-finish :
    (ms : List Mark) (i j : ℕ)
    → mark_at (set_mark ms i done) j ≡ (if i == j then done else mark_at ms j)
mark_at-finish [] i j = ground arith
mark_at-finish (m ∷ ms) zero zero = refl
mark_at-finish (m ∷ ms) zero (suc j) = ground arith
mark_at-finish (m ∷ ms) (suc i) zero = ground arith
mark_at-finish (m ∷ ms) (suc i) (suc j) = mark_at-finish ms i j ∙ ground arith

pub mark_at-visit :
    (ms : List Mark) (i j : ℕ)
    → mark_at ms i ≡ unvisited
    → mark_at (set_mark ms i in_progress) j ≡ (if i == j then in_progress else mark_at ms j)
mark_at-visit [] i j h = absurd (cc)
mark_at-visit (m ∷ ms) zero zero h = refl
mark_at-visit (m ∷ ms) zero (suc j) h = ground arith
mark_at-visit (m ∷ ms) (suc i) zero h = ground arith
mark_at-visit (m ∷ ms) (suc i) (suc j) h = mark_at-visit ms i j h ∙ ground arith
