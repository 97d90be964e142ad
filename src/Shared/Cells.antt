-- ===== src/Shared/Cells.antt =====
-- Vectors read and written by index, where an index out of range reads a default and writes nothing.
use Prim.Native.Nat.{ℕ, zero, suc, ◌<◌}
use mathlib.Core.Path.{◌≡◌, refl, ap}
use mathlib.Core.Bool.{false}
use mathlib.Core.List.{List, [], ◌∷◌}
use native.Mathlib.Omega.{arith}
use pure_analyzer.Shared.Tests.{◌==◌}
use pure_analyzer.Shared.Lists.{length}
use pure_analyzer.Shared.Every.{All}

module _ {ℓ} {A : Type ℓ} where
  abbrev pub get_or : A → List A → ℕ → A
  get_or d [] i = d
  get_or d (x ∷ xs) zero = x
  get_or d (x ∷ xs) (suc i) = get_or d xs i

  abbrev pub modify : List A → ℕ → (A → A) → List A
  modify [] i f = []
  modify (x ∷ xs) zero f = f x ∷ xs
  modify (x ∷ xs) (suc i) f = x ∷ modify xs i f

  abbrev pub replicate : ℕ → A → List A
  replicate zero x = []
  replicate (suc n) x = x ∷ replicate n x

  pub length-replicate : (n : ℕ) (x : A) → length (replicate n x) ≡ n
  length-replicate zero x = refl
  length-replicate (suc n) x = ap suc (length-replicate n x)

  pub get_or-replicate : (n : ℕ) (x : A) (i : ℕ) → get_or x (replicate n x) i ≡ x
  get_or-replicate zero x i = refl
  get_or-replicate (suc n) x zero = refl
  get_or-replicate (suc n) x (suc i) = get_or-replicate n x i

  pub length-modify : (xs : List A) (i : ℕ) (f : A → A) → length (modify xs i f) ≡ length xs
  length-modify [] i f = refl
  length-modify (x ∷ xs) zero f = refl
  length-modify (x ∷ xs) (suc i) f = ap suc (length-modify xs i f)

  pub get_or-modify_self :
      (d : A) (xs : List A) (i : ℕ) (f : A → A)
      → i < length xs
      → get_or d (modify xs i f) i ≡ f (get_or d xs i)
  get_or-modify_self d [] i f h = absurd (omega arith)
  get_or-modify_self d (x ∷ xs) zero f h = refl
  get_or-modify_self d (x ∷ xs) (suc i) f h = get_or-modify_self d xs i f (omega arith)

  pub get_or-modify_other :
      (d : A) (xs : List A) (i j : ℕ) (f : A → A)
      → (i == j) ≡ false
      → get_or d (modify xs i f) j ≡ get_or d xs j
  get_or-modify_other d [] i j f h = refl
  get_or-modify_other d (x ∷ xs) zero zero f h = absurd (ground arith)
  get_or-modify_other d (x ∷ xs) zero (suc j) f h = refl
  get_or-modify_other d (x ∷ xs) (suc i) zero f h = refl
  get_or-modify_other d (x ∷ xs) (suc i) (suc j) f h = get_or-modify_other d xs i j f (ground arith)

  pub modify-All {κ} :
      (P : A → Type κ) (xs : List A) (i : ℕ) (f : A → A)
      → ((x : A) → P x → P (f x))
      → All P xs
      → All P (modify xs i f)
  modify-All P [] i f k h = tt
  modify-All P (x ∷ xs) zero f k (p, h) = (k x p, h)
  modify-All P (x ∷ xs) (suc i) f k (p, h) = (p, modify-All P xs i f k h)

  pub replicate-All {κ} : (P : A → Type κ) (n : ℕ) (x : A) → P x → All P (replicate n x)
  replicate-All P zero x p = tt
  replicate-All P (suc n) x p = (p, replicate-All P n x p)

  pub get_or-All {κ} :
      (P : A → Type κ) (d : A) (xs : List A) (i : ℕ) → P d → All P xs → P (get_or d xs i)
  get_or-All P d [] i p h = p
  get_or-All P d (x ∷ xs) zero p (q, h) = q
  get_or-All P d (x ∷ xs) (suc i) p (q, h) = get_or-All P d xs i p h
