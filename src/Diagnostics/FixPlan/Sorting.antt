-- ===== src/Diagnostics/FixPlan/Sorting.antt =====
-- Sorting edits that do not overlap puts them one behind the other.
use mathlib.Core.List.{Memᴰ}
use pure_analyzer.Shared.{◌≤◌, Bool, true, false, List, [], ◌∷◌, ◌≡◌, arith, Bool-cases, inl, inr}
use pure_analyzer.Shared.Every.{All, All-map}
use pure_analyzer.Diagnostics.Fix.{TextEdit}
use pure_analyzer.Diagnostics.FixPlan.Order.{insert_sorted, sort, span_lt, sort_edits}
use pure_analyzer.Diagnostics.FixPlan.Validate.{edits_overlap}

abbrev pub IsOrdered : TextEdit → Type 0
IsOrdered e = e.span.start ≤ e.span.end

-- `e` ends where `x` starts, or before.
abbrev pub Before : TextEdit → TextEdit → Type 0
Before e x = e.span.end ≤ x.span.start

abbrev pub Chained : List TextEdit → Type 0
Chained [] = Unit
Chained (e ∷ es) = All (Before e) es × Chained es

abbrev pub Apart : List TextEdit → Type 0
Apart [] = Unit
Apart (e ∷ es) = All (λ x. edits_overlap e x ≡ false) es × Apart es

insert_sorted-All :
    {A : Type 0} (P : A → Type 0) (lt : A → A → Bool) (x : A) (xs : List A)
    → P x
    → All P xs
    → All P (insert_sorted lt x xs)
unfolding insert_sorted
insert_sorted-All P lt x [] p h = (p, tt)
insert_sorted-All P lt x (y ∷ ys) p (q, h) = elim (Bool-cases (lt y x)) [
  | inl e ↦ rw e (q, insert_sorted-All P lt x ys p h)
  | inr e ↦ rw e (p, (q, h))
]

pub sort-All :
    {A : Type 0} (P : A → Type 0) (lt : A → A → Bool) (xs : List A) → All P xs → All P (sort lt xs)
unfolding sort
sort-All P lt [] h = tt
sort-All P lt (x ∷ xs) (p, h) = insert_sorted-All P lt x (sort lt xs) p (sort-All P lt xs h)

-- Sorting loses no element.
module _ {A : Type 0} where
  mem-insert_sorted :
      (lt : A → A → Bool) (z x : A) (ys : List A) → Memᴰ z (x ∷ ys) → Memᴰ z (insert_sorted lt x ys)
  unfolding insert_sorted
  mem-insert_sorted lt z x [] m = m
  mem-insert_sorted lt z x (y ∷ ys) m = elim (Bool-cases (lt y x)) [
    | inl e ↦ rw e (behind (mem-insert_sorted lt z x ys) m)
    | inr e ↦ rw e m
  ]
    where
      behind :
          (Memᴰ z (x ∷ ys) → Memᴰ z (insert_sorted lt x ys))
          → Memᴰ z (x ∷ y ∷ ys)
          → Memᴰ z (y ∷ insert_sorted lt x ys)
      behind into (Memᴰ.head e) = Memᴰ.tail (into (Memᴰ.head e))
      behind into (Memᴰ.tail (Memᴰ.head e)) = Memᴰ.head e
      behind into (Memᴰ.tail (Memᴰ.tail k)) = Memᴰ.tail (into (Memᴰ.tail k))

  pub mem-sort : (lt : A → A → Bool) (z : A) (xs : List A) → Memᴰ z xs → Memᴰ z (sort lt xs)
  unfolding sort
  mem-sort lt z [] m = elim m [ ]
  mem-sort lt z (x ∷ xs) (Memᴰ.head e) = mem-insert_sorted lt z x (sort lt xs) (Memᴰ.head e)
  mem-sort lt z (x ∷ xs) (Memᴰ.tail m) =
      mem-insert_sorted lt z x (sort lt xs) (Memᴰ.tail (mem-sort lt z xs m))

span_lt-Before :
    (y x : TextEdit)
    → IsOrdered x
    → IsOrdered y
    → edits_overlap x y ≡ false
    → span_lt y x ≡ true
    → Before y x
unfolding edits_overlap
span_lt-Before y x hx hy o h = ground arith

not-span_lt-Before :
    (y x : TextEdit)
    → IsOrdered x
    → IsOrdered y
    → edits_overlap x y ≡ false
    → span_lt y x ≡ false
    → Before x y
unfolding edits_overlap
not-span_lt-Before y x hx hy o h = ground arith

insert_sorted-Chained :
    (x : TextEdit) (es : List TextEdit)
    → IsOrdered x
    → All IsOrdered es
    → All (λ y. edits_overlap x y ≡ false) es
    → Chained es
    → Chained (insert_sorted span_lt x es)
unfolding insert_sorted
insert_sorted-Chained x [] hx hs o c = (tt, tt)
insert_sorted-Chained x (y ∷ es) hx (hy, hs) (oy, os) (b, c) = elim (Bool-cases (span_lt y x)) [
  | inl e ↦ rw e (
    insert_sorted-All (Before y) span_lt x es (span_lt-Before y x hx hy oy e) b,
    insert_sorted-Chained x es hx hs os c,
  )
  | inr e ↦
      let first : Before x y = not-span_lt-Before y x hx hy oy e in
      rw e ((first, All-map (λ z h. omega arith) es b), (b, c))
]

-- Edits that are not reversed, and of which no two overlap in the order they were accepted, stand one
-- behind the other after the stable sort by start and end.
pub sort_edits-Chained :
    (es : List TextEdit) → All IsOrdered es → Apart es → Chained (sort_edits es)
unfolding sort_edits sort
sort_edits-Chained [] hs a = tt
sort_edits-Chained (e ∷ es) (h, hs) (o, a) =
    insert_sorted-Chained e (sort span_lt es) h (sort-All IsOrdered span_lt es hs)
      (sort-All (λ x. edits_overlap e x ≡ false) span_lt es o) (sort_edits-Chained es hs a)
