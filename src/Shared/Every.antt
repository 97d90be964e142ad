-- ===== src/Shared/Every.antt =====
-- A predicate of every element of a list, by recursion, and membership in what is appended.
use mathlib.Core.Path.{refl}
use mathlib.Core.List.{Memᴰ, List, [], ◌∷◌, ◌++◌}

abbrev pub All {ℓ κ} : {A : Type ℓ} → (A → Type κ) → List A → Type κ
All P [] = Unit
All P (x ∷ xs) = P x × All P xs

pub All-append {ℓ κ} :
    {A : Type ℓ} (P : A → Type κ) (xs ys : List A) → All P xs → All P ys → All P (xs ++ ys)
All-append P [] ys h k = k
All-append P (x ∷ xs) ys (p, h) k = (p, All-append P xs ys h k)

pub All-map {ℓ κ} :
    {A : Type ℓ} {P Q : A → Type κ} → ((x : A) → P x → Q x) → (xs : List A) → All P xs → All Q xs
All-map f [] h = tt
All-map f (x ∷ xs) (p, h) = (f x p, All-map f xs h)

pub All-zip {ℓ κ} :
    {A : Type ℓ} {P Q R : A → Type κ}
    → ((x : A) → P x → Q x → R x)
    → (xs : List A) → All P xs
    → All Q xs
    → All R xs
All-zip f [] h k = tt
All-zip f (x ∷ xs) (p, h) (q, k) = (f x p q, All-zip f xs h k)

module _ {ℓ} {A : Type ℓ} where
  pub mem_append_left : {x : A} (xs ys : List A) → Memᴰ x xs → Memᴰ x (xs ++ ys)
  mem_append_left [] ys m = elim m [ ]
  mem_append_left (y ∷ xs) ys (Memᴰ.head e) = Memᴰ.head e
  mem_append_left (y ∷ xs) ys (Memᴰ.tail m) = Memᴰ.tail (mem_append_left xs ys m)

  pub mem_append_last : (x : A) (xs : List A) → Memᴰ x (xs ++ x ∷ [])
  mem_append_last x [] = Memᴰ.head refl
  mem_append_last x (y ∷ xs) = Memᴰ.tail (mem_append_last x xs)
