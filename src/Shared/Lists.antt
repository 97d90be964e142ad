-- ===== src/Shared/Lists.antt =====
-- Lists measured and indexed by native numbers, under the library's names.
use Prim.Native.Char.{code}
use Prim.Native.String.{String}
use Prim.Native.Nat.{ℕ, zero, suc, ◌+◌, ◌-◌, ◌≤◌, ◌<◌}
use mathlib.Core.Path.{◌≡◌, refl, ap}
use mathlib.Core.Bool.{Bool, true, ◌&&◌}
use mathlib.Core.List.{List, [], ◌∷◌, ◌++◌}
use mathlib.Core.Option.{Option, none, some}
use native.Mathlib.Omega.{arith}

module _ {ℓ} {A : Type ℓ} where
  abbrev pub length : List A → ℕ
  length [] = 0
  length (x ∷ xs) = suc (length xs)

  abbrev pub get_elem? : List A → ℕ → Option A
  get_elem? [] i = none
  get_elem? (x ∷ xs) zero = some x
  get_elem? (x ∷ xs) (suc i) = get_elem? xs i

  pub length-append : (xs ys : List A) → length (xs ++ ys) ≡ length xs + length ys
  length-append [] ys = omega arith
  length-append (x ∷ xs) ys = omega (arith, length-append xs ys)

-- Whether `test` holds at each number below the bound.
unfoldable pub holds_below : (ℕ → Bool) → ℕ → Bool
holds_below test zero = true
holds_below test (suc bound) = test bound && holds_below test bound

pub of_holds_below :
    {i : ℕ} (test : ℕ → Bool) (bound : ℕ)
    → i < bound
    → holds_below test bound ≡ true
    → test i ≡ true
unfolding holds_below
of_holds_below test zero lt h = elim lt [ ]
of_holds_below {i} test (suc bound) lt h =
    grind (arith, λ (below : i < bound). of_holds_below test bound below)

-- The code points of a text: its bytes, if it is ASCII.
abbrev pub codes : String → List ℕ
codes String.[] = []
codes (String.◌∷◌ c s) = code c ∷ codes s

module _ {ℓ} {A : Type ℓ} where
  abbrev pub take : ℕ → List A → List A
  take zero xs = []
  take (suc n) [] = []
  take (suc n) (x ∷ xs) = x ∷ take n xs

  abbrev pub drop : ℕ → List A → List A
  drop zero xs = xs
  drop (suc n) [] = []
  drop (suc n) (x ∷ xs) = drop n xs

sub-zero : (n : ℕ) → n - 0 ≡ n
sub-zero n = omega arith

module _ {ℓ} {A : Type ℓ} where
  take-nil : (n : ℕ) → take {A = A} n [] ≡ []
  take-nil zero = refl
  take-nil (suc n) = refl

  drop-nil : (n : ℕ) → drop {A = A} n [] ≡ []
  drop-nil zero = refl
  drop-nil (suc n) = refl

-- Cutting a list at two places, the second further to the right.
module _ {ℓ} {A : Type ℓ} where
  pub take_between :
      (i j : ℕ) (xs : List A) → i ≤ j → take i xs ++ take (j - i) (drop i xs) ≡ take j xs
  take_between zero j xs h = rw (sub-zero j)
  take_between (suc i) zero xs h = absurd (omega arith)
  take_between (suc i) (suc j) [] h = rw (take-nil (suc j - suc i))
  take_between (suc i) (suc j) (x ∷ xs) h =
      let e : suc j - suc i ≡ j - i = omega arith in
      rw e (ap (λ ys. x ∷ ys) (take_between i j xs (omega arith)))

  pub drop_between : (i j : ℕ) (xs : List A) → i ≤ j → drop (j - i) (drop i xs) ≡ drop j xs
  drop_between zero j xs h = rw (sub-zero j)
  drop_between (suc i) zero xs h = absurd (omega arith)
  drop_between (suc i) (suc j) [] h = rw (drop-nil (suc j - suc i))
  drop_between (suc i) (suc j) (x ∷ xs) h =
      let e : suc j - suc i ≡ j - i = omega arith in rw e (drop_between i j xs (omega arith))

  pub take-take-append :
      (i j : ℕ) (xs ys : List A) → i ≤ j → j ≤ length xs → take i (take j xs ++ ys) ≡ take i xs
  take-take-append zero j xs ys h k = refl
  take-take-append (suc i) zero xs ys h k = absurd (omega arith)
  take-take-append (suc i) (suc j) [] ys h k = absurd (omega arith)
  take-take-append (suc i) (suc j) (x ∷ xs) ys h k =
      ap (λ zs. x ∷ zs) (take-take-append i j xs ys (omega arith) (omega arith))

  pub drop-take-append : (j : ℕ) (xs ys : List A) → j ≤ length xs → drop j (take j xs ++ ys) ≡ ys
  drop-take-append zero xs ys k = refl
  drop-take-append (suc j) [] ys k = absurd (omega arith)
  drop-take-append (suc j) (x ∷ xs) ys k = drop-take-append j xs ys (omega arith)

pub take-append-drop {ℓ} : {A : Type ℓ} (cut : ℕ) (l : List A) → l ≡ take cut l ++ drop cut l
take-append-drop zero l = refl
take-append-drop (suc cut) [] = refl
take-append-drop (suc cut) (a ∷ l) = ap (λ m. a ∷ m) (take-append-drop cut l)
