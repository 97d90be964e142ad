-- ===== src/Purecard/Mask.antt =====
-- crates/pure-analyzer-purecard/src/mask.rs: `BitMask`. A `u64` is its 64 bits, the lowest first, so
-- that a shift by `bit` picks a position.
use pure_analyzer.Shared.{
  ℕ, suc, ◌+◌, ◌*◌, ◌/◌, ◌%◌, Bool, true, false, ◌&&◌, List, [], ◌∷◌, ◌++◌, map, ◌==◌, leb,
  if◌then◌else◌,
}
use pure_analyzer.Shared.Cells.{get_or, modify, replicate}
pub mod Bits
mod Tests

abbrev pub word_bits : ℕ
word_bits = 64

abbrev pub Word : Type 0
Word = List Bool

abbrev pub zero_word : Word
zero_word = replicate word_bits false

pub record BitMask : Type 0 where
  pub words : List Word
  pub len : ℕ

-- `usize::div_ceil`
abbrev pub div_ceil : ℕ → ℕ → ℕ
div_ceil n d = if n % d == 0 then n / d else n / d + 1

abbrev pub locate : ℕ → ℕ × ℕ
locate id = (id / word_bits, id % word_bits)

unfoldable pub with_len : ℕ → BitMask
with_len len = record { words = replicate (div_ceil len word_bits) zero_word; len = len }

abbrev pub is_empty : BitMask → Bool
is_empty m = m.len == 0

-- `self.words[word] |= 1 << bit` for `true`, `self.words[word] &= !(1 << bit)` for `false`.
abbrev pub write_bit : List Word → ℕ → Bool → List Word
write_bit words id b = let (word, bit) = locate id in modify words word (λ w. modify w bit (λ _. b))

unfoldable pub set : BitMask → ℕ → BitMask
set m id = if leb m.len id then m else record m { words = write_bit m.words id true }

unfoldable pub clear : BitMask → ℕ → BitMask
clear m id = if leb m.len id then m else record m { words = write_bit m.words id false }

-- `(self.words[word] >> bit) & 1 == 1`
abbrev pub read_bit : List Word → ℕ → Bool
read_bit words id = let (word, bit) = locate id in get_or false (get_or [] words word) bit

unfoldable pub test : BitMask → ℕ → Bool
test m id = if leb m.len id then false else read_bit m.words id

unfoldable pub clear_all : BitMask → BitMask
clear_all m = record m { words = map (λ _. zero_word) m.words }

-- `*word &= mask`
abbrev pub and_bits : Word → Word → Word
and_bits (a ∷ w) (b ∷ v) = (a && b) ∷ and_bits w v
and_bits _ _ = []

abbrev pub and_words : List Word → List Word → List Word
and_words (w ∷ ws) (v ∷ vs) = and_bits w v ∷ and_words ws vs
and_words ws _ = ws

unfoldable pub intersect : BitMask → BitMask → BitMask
intersect m other = record m { words = and_words m.words other.words }

abbrev pub copy_words : List Word → List Word → List Word
copy_words (w ∷ ws) (v ∷ vs) = v ∷ copy_words ws vs
copy_words ws _ = ws

unfoldable pub copy_from : BitMask → BitMask → BitMask
copy_from m other = record m { words = copy_words m.words other.words }

-- `filter_map` over the bits of one word, from the bit number `base` on.
abbrev pub ones_of_word : ℕ → Word → List ℕ
ones_of_word base [] = []
ones_of_word base (b ∷ w) =
    if b then base ∷ ones_of_word (suc base) w else ones_of_word (suc base) w

abbrev pub ones_of_words : ℕ → List Word → List ℕ
ones_of_words word [] = []
ones_of_words word (w ∷ ws) = ones_of_word (word * word_bits) w ++ ones_of_words (suc word) ws

unfoldable pub iter_ones : BitMask → List ℕ
iter_ones m = ones_of_words 0 m.words
