-- ===== src/Lsp/Lines.antt =====
-- Texts cut at offsets and at newlines.
use pure_analyzer.Shared.{
  ℕ, zero, suc, ◌+◌, ◌-◌, ◌≤◌, true, false, not, Option, none, some, [], ◌∷◌, ◌++◌, ◌≡◌, refl, sym,
  ap, ◌∙◌, arith, ◌==◌, leb, if◌then◌else◌, Bool-cases, inl, inr,
}
use pure_analyzer.Lsp.Chars.{
  Chars, len_utf8, len_utf16, byte_len, behind, split_at, newlines, has_newline, last_line,
  first_line, farther, find_newline,
}

pub len_utf8-pos : (c : ℕ) → 1 ≤ len_utf8 c
unfolding len_utf8
len_utf8-pos c = ground arith

pub len_utf16-pos : (c : ℕ) → 1 ≤ len_utf16 c
unfolding len_utf16
len_utf16-pos c = ground arith

pub newline_utf8 : len_utf8 b'\n' ≡ 1
unfolding len_utf8
newline_utf8 = refl

split_at-suc :
    (c n o k : ℕ) (t : Chars)
    → len_utf8 c ≡ suc n
    → k ≡ n + o
    → split_at (c ∷ t) (suc k) ≡ behind c (split_at t o)
unfolding split_at
split_at-suc c n o k t e h =
    let rest : suc k - suc n ≡ o = omega arith in
    let within : leb (suc n) (suc k) ≡ true = ground (arith, h) in rw (e, within, rest) refl

split_at-cons : (c o : ℕ) (t : Chars) → split_at (c ∷ t) (len_utf8 c + o) ≡ behind c (split_at t o)
split_at-cons c o t = by_length (len_utf8 c) refl (len_utf8-pos c)
  where
    by_length :
        (n : ℕ)
        → len_utf8 c ≡ n
        → 1 ≤ n
        → split_at (c ∷ t) (len_utf8 c + o) ≡ behind c (split_at t o)
    by_length zero e h = absurd (omega arith)
    by_length (suc n) e h =
        let total : len_utf8 c + o ≡ suc (n + o) = omega (arith, e) in
        ap (split_at (c ∷ t)) total ∙ split_at-suc c n o (n + o) t e refl

-- A text cut at the length of its front.
pub split_at-append : (a b : Chars) → split_at (a ++ b) (byte_len a) ≡ some (a, b)
unfolding split_at
split_at-append [] b = refl
split_at-append (c ∷ a) b =
    split_at-cons c (byte_len a) (a ++ b) ∙ ap (behind c) (split_at-append a b)

abbrev cut : Chars → Chars → Option (Chars × Chars)
cut a b = some (a, b)

-- A cut leaves the text whole, at the offset asked for.
pub split_at-whole :
    (t : Chars) (o : ℕ) (a b : Chars) → split_at t o ≡ some (a, b) → (a ++ b ≡ t) × (byte_len a ≡ o)
unfolding split_at
split_at-whole t zero a b h =
    let front : [] ≡ a = cc in
    let back : t ≡ b = cc in (ap (λ u. u ++ b) (sym front) ∙ sym back, ap byte_len (sym front))
split_at-whole [] (suc o) a b h = absurd (cc)
split_at-whole (c ∷ t) (suc o) a b h = elim (Bool-cases (leb (len_utf8 c) (suc o))) [
  | inl e ↦
      by_rest (split_at t (suc o - len_utf8 c)) refl (rw e at h)
        (λ x y q. split_at-whole t (suc o - len_utf8 c) x y q) (ground arith)
  | inr e ↦ absurd (no (rw e at h))
]
  where
    no : none ≡ cut a b → ⊥
    no q = cc

    by_rest :
        (r : Option (Chars × Chars))
        → split_at t (suc o - len_utf8 c) ≡ r
        → behind c r ≡ some (a, b)
        → ((x y : Chars)
            → split_at t (suc o - len_utf8 c) ≡ some (x, y)
            → (x ++ y ≡ t) × (byte_len x ≡ suc o - len_utf8 c))
        → len_utf8 c ≤ suc o
        → (a ++ b ≡ c ∷ t) × (byte_len a ≡ suc o)
    by_rest none e q ih le = absurd (no q)
    by_rest (some (x, y)) e q ih le =
        let (whole, long) = ih x y e in
        let front : c ∷ x ≡ a = cc in
        let back : y ≡ b = cc in
        rw (sym front, sym back) (ap (λ u. c ∷ u) whole, omega (arith, long, le))

pub byte_len-append : (a b : Chars) → byte_len (a ++ b) ≡ byte_len a + byte_len b
byte_len-append [] b = omega arith
byte_len-append (c ∷ a) b = omega (arith, byte_len-append a b)

pub newlines-append : (a b : Chars) → newlines (a ++ b) ≡ newlines a + newlines b
newlines-append [] b = omega arith
newlines-append (c ∷ a) b = ground (arith, newlines-append a b)

-- No newline is counted exactly if there is none.
pub has_newline-newlines : (t : Chars) → has_newline t ≡ not (newlines t == 0)
has_newline-newlines [] = refl
has_newline-newlines (c ∷ t) = ground (arith, has_newline-newlines t)

pub last_line-clear : (b : Chars) → newlines b ≡ 0 → last_line b ≡ b
last_line-clear [] h = refl
last_line-clear (c ∷ b) h = ground (arith, has_newline-newlines b, h)

pub last_line-append :
    (a b : Chars)
    → newlines b ≡ 0
    → last_line (a ++ b) ≡ (if newlines a == 0 then a else last_line a) ++ b
last_line-append [] b h = last_line-clear b h
last_line-append (c ∷ a) b h = ground (
  arith,
  last_line-append a b h,
  has_newline-newlines (a ++ b),
  has_newline-newlines a,
  newlines-append a b,
  h,
)

abbrev pub found : ℕ → Chars → Option (ℕ × Chars)
found k t = some (k, t)

-- A newline that is found is the first.
pub find_newline-first :
    (t : Chars) (k : ℕ) (rest : Chars)
    → find_newline t ≡ some (k, rest)
    → (l : Chars) × (l ++ b'\n' ∷ rest ≡ t) × (byte_len l ≡ k) × (newlines l ≡ 0)
unfolding find_newline
find_newline-first [] k rest h = absurd (cc)
find_newline-first (c ∷ t) k rest h = elim (Bool-cases (c == b'\n')) [
  | inl e ↦
      let here : found 0 t ≡ found k rest = rw e at h in
      let same : c ≡ b'\n' = ground arith in
      let start : 0 ≡ k = cc in
      let after : t ≡ rest = cc in ([], rw (same, sym after) refl, start, refl)
  | inr e ↦ by_rest e (find_newline t) refl (rw e at h) (λ j u q. find_newline-first t j u q)
]
  where
    by_rest :
        (c == b'\n') ≡ false
        → (r : Option (ℕ × Chars)) → find_newline t ≡ r
        → farther (len_utf8 c) r ≡ some (k, rest)
        → ((j : ℕ) (u : Chars)
            → find_newline t ≡ some (j, u)
            → (l : Chars) × (l ++ b'\n' ∷ u ≡ t) × (byte_len l ≡ j) × (newlines l ≡ 0))
        → (l : Chars) × (l ++ b'\n' ∷ rest ≡ c ∷ t) × (byte_len l ≡ k) × (newlines l ≡ 0)
    by_rest n none e q ih = absurd (cc)
    by_rest n (some (j, u)) e q ih =
        let sum : len_utf8 c + j ≡ k = cc in
        let after : u ≡ rest = cc in
        let (l, whole, long, clear) = ih j u e in
        (c ∷ l, rw (sym after) (ap (λ v. c ∷ v) whole), rw long sum, rw n clear)

-- The first line before the newline that ends it.
pub first_line-append : (a b : Chars) → newlines a ≡ 0 → first_line (a ++ b) ≡ a ++ first_line b
first_line-append [] b h = refl
first_line-append (c ∷ a) b h = ground (arith, first_line-append a b)

pub first_line-prefix : (t : Chars) → (b : Chars) × (first_line t ++ b ≡ t)
first_line-prefix [] = ([], refl)
first_line-prefix (c ∷ t) = elim (Bool-cases (c == b'\n')) [
  | inl e ↦ (c ∷ t, rw e refl)
  | inr e ↦ let (b, whole) = first_line-prefix t in (b, rw e (ap (λ u. c ∷ u) whole))
]

pub newlines-first_line : (t : Chars) → newlines (first_line t) ≡ 0
newlines-first_line [] = refl
newlines-first_line (c ∷ t) = ground (arith, newlines-first_line t)
