-- ===== src/Shared/Maps.antt =====
-- `BTreeMap` with numbers for keys: an association list in the order of its keys.
use Prim.Native.Nat.{ℕ}
use mathlib.Core.Path.{◌≡◌, refl}
use mathlib.Core.List.{List, [], ◌∷◌, ◌++◌}
use mathlib.Core.Option.{Option, none, some}
use native.Mathlib.Omega.{arith}
use pure_analyzer.Shared.Tests.{◌==◌, ltb, if◌then◌else◌}

abbrev pub Map {ℓ} : Type ℓ → Type ℓ
Map V = List (ℕ × V)

module _ {ℓ} {V : Type ℓ} where
  unfoldable pub lookup : ℕ → Map V → Option V
  lookup key [] = none
  lookup key ((at, value) ∷ rest) = if at == key then some value else lookup key rest

  unfoldable pub insert : ℕ → V → Map V → Map V
  insert key new [] = (key, new) ∷ []
  insert key new ((at, value) ∷ rest) =
      if key == at
      then (key, new) ∷ rest
      else if ltb key at
      then (key, new) ∷ (at, value) ∷ rest
      else (at, value) ∷ insert key new rest

  pub lookup-insert :
      (key wanted : ℕ) (new : V) (m : Map V)
      → lookup wanted (insert key new m) ≡ (if key == wanted then some new else lookup wanted m)
  unfolding lookup insert
  lookup-insert key wanted new [] = refl
  lookup-insert key wanted new ((at, value) ∷ rest) =
      ground (arith, lookup-insert key wanted new rest)

  abbrev some_or : List V → Option (List V) → List V
  some_or d none = d
  some_or d (some vs) = vs

-- A map of vectors, read and written as `entry(k).or_default()` does.
module _ {ℓ} {V : Type ℓ} where
  unfoldable pub entry : ℕ → Map (List V) → List V
  unfolding lookup
  entry k m = some_or [] (lookup k m)

  unfoldable pub push : ℕ → V → Map (List V) → Map (List V)
  unfolding entry
  push k v m = insert k (entry k m ++ v ∷ []) m

  pub entry-push :
      (k j : ℕ) (v : V) (m : Map (List V))
      → entry j (push k v m) ≡ (if k == j then entry j m ++ v ∷ [] else entry j m)
  unfolding push
  entry-push k j v m = ground (arith, lookup-insert k j (entry k m ++ v ∷ []) m)
