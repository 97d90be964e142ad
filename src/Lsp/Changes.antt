-- ===== src/Lsp/Changes.antt =====
-- What a content change does to a text.
use pure_analyzer.Shared.{
  ℕ, ◌+◌, ◌-◌, ◌≤◌, Bool, true, false, Option, none, some, List, [], ◌∷◌, ◌++◌, ◌≡◌, ◌≢◌, refl, sym,
  ap, ◌∙◌, arith, ltb, if◌then◌else◌, Bool-cases, Option-cases, inl, inr,
}
use pure_analyzer.Lsp.Chars.{Chars, len_utf8, byte_len, split_at}
use pure_analyzer.Lsp.Document.{
  ProtocolPosition, ProtocolRange, ContentChange, utf16_length, utf16_position, byte_offset,
  Changed, changed, refused, panicked, fits, splice, splice_at, change_range, apply_change, go_on,
  apply_all,
}
use pure_analyzer.Lsp.Lines.{len_utf8-pos, split_at-append, byte_len-append}
use pure_analyzer.Lsp.Positions.{byte_offset-utf16_position}
use pure_analyzer.Lsp.Offsets.{byte_offset-front}

-- Of two fronts of a text the longer one begins with the other.
front_of_front :
    (a b c d : Chars)
    → a ++ b ≡ c ++ d
    → byte_len a ≤ byte_len c
    → (m : Chars) × (a ++ m ≡ c) × (m ++ d ≡ b)
front_of_front [] b c d h le = (c, refl, sym h)
front_of_front (x ∷ a) b [] d h le = absurd (omega (arith, le, len_utf8-pos x))
front_of_front (x ∷ a) b (y ∷ c) d h le =
    let first : x ≡ y = cc in
    let others : a ++ b ≡ c ++ d = cc in
    let same : len_utf8 x ≡ len_utf8 y = ap len_utf8 first in
    let (m, long, rest) = front_of_front a b c d others (omega (arith, le, same)) in
    (m, ap (λ u. x ∷ u) long ∙ ap (λ z. z ∷ c) first, rest)

splice-cut :
    (l : Option ℕ) (new a m b : Chars) (text : Chars)
    → a ++ (m ++ b) ≡ text
    → splice l new (split_at text (byte_len a)) (byte_len a + byte_len m - byte_len a)
      ≡ (if fits l (utf16_length m) then changed (a ++ (new ++ b)) else refused)
splice-cut l new a m b text h =
    let inner : byte_len a + byte_len m - byte_len a ≡ byte_len m = omega arith in
    rw (sym h, split_at-append a (m ++ b), inner, split_at-append m b) refl

-- A change of a range replaces exactly the text between the two positions: over a text in three parts,
-- the change of the range from the position behind the first to that behind the second puts its text
-- in the place of the second, unless it names another length in UTF-16 units.
pub apply_change-range :
    (a m b new : Chars) (start end : ProtocolPosition) (l : Option ℕ)
    → utf16_position (a ++ (m ++ b)) (byte_len a) ≡ some start
    → utf16_position (a ++ (m ++ b)) (byte_len a + byte_len m) ≡ some end
    → apply_change (a ++ (m ++ b)) (record {
      range = some (record { start = start; end = end });
      range_length = l;
      text = new;
    })
      ≡ (if fits l (utf16_length m) then changed (a ++ (new ++ b)) else refused)
unfolding apply_change
apply_change-range a m b new start end l h k =
    let text : Chars = a ++ (m ++ b) in
    let in_order : ltb (byte_len a + byte_len m) (byte_len a) ≡ false = ground arith in
    rw
      (
        byte_offset-utf16_position (a ++ (m ++ b)) (byte_len a) start h,
        byte_offset-utf16_position (a ++ (m ++ b)) (byte_len a + byte_len m) end k,
        in_order,
      )
      (splice-cut l new a m b (a ++ (m ++ b)) refl)

unpanicked : (b : Bool) (t : Chars) → (if b then changed t else refused) ≢ panicked
unpanicked true t h = cc
unpanicked false t h = cc

splice_at-ne-panicked :
    (c : ContentChange) (text : Chars) (p q : ProtocolPosition)
    → splice_at c text (byte_offset text p) (byte_offset text q) ≢ panicked
splice_at-ne-panicked c text p q h = elim (Option-cases (byte_offset text p)) [
  | inl e ↦ no (rw e at h)
  | inr (s, e) ↦ elim (Option-cases (byte_offset text q)) [
    | inl f ↦ no (rw (e, f) at h)
    | inr (o, f) ↦ elim (Bool-cases (ltb o s)) [
      | inl r ↦ no (rw (e, f, r) at h)
      | inr r ↦
          let (a, b, whole, long, line, character) = byte_offset-front text p s e in
          let (x, y, all, far, row, column) = byte_offset-front text q o f in
          let (m, joined, rest) =
            front_of_front a b x y (whole ∙ sym all) (ground (arith, long, far)) in
          let total : byte_len a + byte_len m ≡ o =
            sym (byte_len-append a m) ∙ ap byte_len joined ∙ far in
          let parts : a ++ (m ++ y) ≡ text = ap (λ u. a ++ u) rest ∙ whole in
          unpanicked (fits c.range_length (utf16_length m)) (a ++ (c.text ++ y)) (
            sym (splice-cut c.range_length c.text a m y text parts)
            ∙ ap (λ n. splice c.range_length c.text (split_at text (byte_len a)) (n - byte_len a))
                total
            ∙ ap (λ n. splice c.range_length c.text (split_at text n) (o - n)) long
            ∙ (rw (e, f, r) at h))
    ]
  ]
]
  where
    no : refused ≡ panicked → ⊥
    no w = cc

-- No content change panics: the slices lie on boundaries, whatever range the client sends.
apply_change-ne-panicked : (text : Chars) (c : ContentChange) → apply_change text c ≢ panicked
unfolding apply_change
apply_change-ne-panicked text c h = by_range c.range h
  where
    by_range : (r : Option ProtocolRange) → change_range c text r ≢ panicked
    by_range none e = unpanicked (fits c.range_length (utf16_length text)) c.text e
    by_range (some r) e = splice_at-ne-panicked c text r.start r.end e

-- No list of content changes panics.
pub apply_all-ne-panicked : (text : Chars) (cs : List ContentChange) → apply_all text cs ≢ panicked
unfolding apply_all
apply_all-ne-panicked text [] h = cc
apply_all-ne-panicked text (c ∷ cs) h =
    by_change (apply_change text c) refl h (λ next. apply_all-ne-panicked next cs)
  where
    by_change :
        (r : Changed)
        → apply_change text c ≡ r
        → go_on (λ next. apply_all next cs) r ≡ panicked
        → ((next : Chars) → apply_all next cs ≢ panicked)
        → ⊥
    by_change (changed next) e q ih = ih next q
    by_change refused e q ih = cc
    by_change panicked e q ih = apply_change-ne-panicked text c e
