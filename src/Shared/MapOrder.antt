-- ===== src/Shared/MapOrder.antt =====
-- Maps whose keys increase, as those built by `insert` do.
use Prim.Native.Nat.{ℕ, ◌<◌}
use mathlib.Core.Path.{◌≡◌}
use mathlib.Core.List.{[], ◌∷◌}
use mathlib.Core.Option.{some}
use native.Mathlib.Omega.{arith}
use pure_analyzer.Shared.Tests.{◌==◌, ltb, Bool-cases}
use mathlib.Core.Logic.{inl, inr}
use pure_analyzer.Shared.Maps.{Map, lookup, insert}
use pure_analyzer.Shared.Every.{All, All-map, All-zip}

module _ {V : Type 0} where
  abbrev pub Sorted : Map V → Type 0
  Sorted [] = Unit
  Sorted ((k, v) ∷ m) = All (λ p. k < p.0) m × Sorted m

  pub insert-All :
      (P : ℕ × V → Type 0) (k : ℕ) (v : V) (m : Map V) → P (k, v) → All P m → All P (insert k v m)
  unfolding insert
  insert-All P k v [] p h = (p, tt)
  insert-All P k v ((j, w) ∷ m) p (q, h) = elim (Bool-cases (k == j)) [
    | inl e ↦ rw e (p, h)
    | inr e ↦ elim (Bool-cases (ltb k j)) [
      | inl l ↦ rw (e, l) (p, (q, h))
      | inr l ↦ rw (e, l) (q, insert-All P k v m p h)
    ]
  ]

  pub insert-Sorted : (k : ℕ) (v : V) (m : Map V) → Sorted m → Sorted (insert k v m)
  unfolding insert
  insert-Sorted k v [] h = (tt, tt)
  insert-Sorted k v ((j, w) ∷ m) (b, h) = elim (Bool-cases (k == j)) [
    | inl e ↦ let eq : k ≡ j = ground arith in rw e (All-map (λ p l. omega arith) m b, h)
    | inr e ↦ elim (Bool-cases (ltb k j)) [
      | inl l ↦
          let less : k < j = ground arith in
          rw (e, l) ((less, All-map (λ p q. omega arith) m b), (b, h))
      | inr l ↦
          let more : j < k = ground arith in
          rw (e, l) (insert-All (λ p. j < p.0) k v m more b, insert-Sorted k v m h)
    ]
  ]

  -- What stands in the list is what `lookup` finds.
  pub Sorted-lookup : (m : Map V) → Sorted m → All (λ p. lookup p.0 m ≡ some p.1) m
  unfolding lookup
  Sorted-lookup [] h = tt
  Sorted-lookup ((k, v) ∷ m) (b, h) =
      (ground arith, All-zip (λ p l q. ground arith) m b (Sorted-lookup m h))
