-- ===== src/Purecard/Mask/Bits.antt =====
-- What each operation on a mask does to each bit.
use pure_analyzer.Shared.{
  ℕ, zero, suc, ◌/◌, ◌%◌, ◌<◌, Bool, true, false, not, ◌&&◌, List, [], ◌∷◌, ◌≡◌, refl, sym, ap, ◌∙◌,
  arith, ◌==◌, leb, if◌then◌else◌, Bool-cases, inl, inr, length,
}
use pure_analyzer.Shared.Every.{All}
use pure_analyzer.Shared.Cells.{
  get_or, modify, replicate, length-replicate, get_or-replicate, length-modify, get_or-modify_self,
  get_or-modify_other, modify-All, replicate-All,
}
use pure_analyzer.Purecard.Mask.{
  BitMask, Word, zero_word, word_bits, div_ceil, write_bit, read_bit, with_len, set, clear, test,
  and_bits, and_words, intersect, copy_words, copy_from,
}

abbrev pub IsWord : Word → Type 0
IsWord w = length w ≡ 64

pub record IsMask (m : BitMask) : Type 0 where
  pub sized : length m.words ≡ div_ceil m.len word_bits
  pub full : All IsWord m.words

-- The word of an id in range is there.
locate-lt : (m : BitMask) (id : ℕ) → IsMask m → id < m.len → id / 64 < length m.words
locate-lt m id v h = ground (arith, v.sized)

word_write :
    (w : Word) (i j : ℕ) (b : Bool)
    → i < length w
    → get_or false (modify w i (λ _. b)) j ≡ (if i == j then b else get_or false w j)
word_write w i j b h = elim (Bool-cases (i == j)) [
  | inl e ↦
      let same : j ≡ i = ground arith in
      rw (same, get_or-modify_self false w i (λ _. b) h) (ground arith)
  | inr e ↦ rw (e, get_or-modify_other false w i j (λ _. b) e) refl
]

-- One word of a mask.
word_at : (ws : List Word) (k : ℕ) → All IsWord ws → k < length ws → IsWord (get_or [] ws k)
word_at [] k full h = absurd (omega arith)
word_at (w ∷ ws) zero full h = full.0
word_at (w ∷ ws) (suc k) full h = word_at ws k full.1 (omega arith)

read_bit-write_bit :
    (ws : List Word) (i j : ℕ) (b : Bool)
    → All IsWord ws
    → i / 64 < length ws
    → read_bit (write_bit ws i b) j ≡ (if i == j then b else read_bit ws j)
read_bit-write_bit ws i j b full lt = elim (Bool-cases (i / 64 == j / 64)) [
  | inl same ↦
      let e : j / 64 ≡ i / 64 = ground arith in
      let w = get_or [] ws (i / 64) in
      let long : length w ≡ 64 = word_at ws (i / 64) full lt in
      let low : i % 64 < length w = omega arith in
      rw (e, get_or-modify_self [] ws (i / 64) (λ w. modify w (i % 64) (λ _. b)) lt)
        (word_write w (i % 64) (j % 64) b low ∙ ground arith)
  | inr other ↦
      let e : (i == j) ≡ false = ground arith in
      rw (e, get_or-modify_other [] ws (i / 64) (j / 64) (λ w. modify w (i % 64) (λ _. b)) other)
        refl
]

-- `set` marks its id, if it is in range, and leaves every other as it was.
pub test-set :
    (m : BitMask) (i j : ℕ)
    → IsMask m
    → test (set m i) j ≡ (if not (leb m.len i) && i == j then true else test m j)
unfolding test set
test-set m i j v = elim (Bool-cases (leb m.len i)) [
  | inl out ↦ rw out refl
  | inr inside ↦
      let lt = locate-lt m i v (ground arith) in
      rw (inside, read_bit-write_bit m.words i j true v.full lt) (ground arith)
]

-- `clear` takes its id away and leaves every other as it was.
pub test-clear :
    (m : BitMask) (i j : ℕ) → IsMask m → test (clear m i) j ≡ (if i == j then false else test m j)
unfolding test clear
test-clear m i j v = elim (Bool-cases (leb m.len i)) [
  | inl out ↦ rw out (ground arith)
  | inr inside ↦
      let lt = locate-lt m i v (ground arith) in
      rw (inside, read_bit-write_bit m.words i j false v.full lt) (ground arith)
]

write_bit-full : (ws : List Word) (i : ℕ) (b : Bool) → All IsWord ws → All IsWord (write_bit ws i b)
write_bit-full ws i b full =
    modify-All IsWord ws (i / 64) (λ w. modify w (i % 64) (λ _. b))
      (λ w h. length-modify w (i % 64) (λ _. b) ∙ h) full

pub set-IsMask : (m : BitMask) (i : ℕ) → IsMask m → IsMask (set m i)
unfolding set
set-IsMask m i v = elim (Bool-cases (leb m.len i)) [
  | inl out ↦ rw out v
  | inr inside ↦ rw inside (record {
    sized = length-modify m.words (i / 64) _ ∙ v.sized;
    full = write_bit-full m.words i true v.full;
  })
]

pub clear-IsMask : (m : BitMask) (i : ℕ) → IsMask m → IsMask (clear m i)
unfolding clear
clear-IsMask m i v = elim (Bool-cases (leb m.len i)) [
  | inl out ↦ rw out v
  | inr inside ↦ rw inside (record {
    sized = length-modify m.words (i / 64) _ ∙ v.sized;
    full = write_bit-full m.words i false v.full;
  })
]

zero_word-IsWord : IsWord zero_word
zero_word-IsWord = refl

pub with_len-IsMask : (n : ℕ) → IsMask (with_len n)
unfolding with_len
with_len-IsMask n = record {
  sized = length-replicate (div_ceil n 64) zero_word;
  full = replicate-All IsWord (div_ceil n 64) zero_word zero_word-IsWord;
}

no_bit : (n k i : ℕ) → get_or false (get_or [] (replicate n zero_word) k) i ≡ false
no_bit zero k i = refl
no_bit (suc n) zero i = get_or-replicate 64 false i
no_bit (suc n) (suc k) i = no_bit n k i

-- A new mask holds no id.
pub test-with_len : (n j : ℕ) → test (with_len n) j ≡ false
unfolding test with_len
test-with_len n j = elim (Bool-cases (leb n j)) [
  | inl out ↦ rw out refl
  | inr inside ↦ rw (inside, no_bit (div_ceil n 64) (j / 64) (j % 64)) refl
]

copy_words-eq : (ws vs : List Word) → length ws ≡ length vs → copy_words ws vs ≡ vs
copy_words-eq [] [] h = refl
copy_words-eq [] (v ∷ vs) h = absurd (omega arith)
copy_words-eq (w ∷ ws) [] h = absurd (omega arith)
copy_words-eq (w ∷ ws) (v ∷ vs) h = ap (λ us. v ∷ us) (copy_words-eq ws vs (omega arith))

-- Between masks of one length, `copy_from` makes a copy.
pub copy_from-eq :
    (m other : BitMask) → IsMask m → IsMask other → m.len ≡ other.len → copy_from m other ≡ other
unfolding copy_from
copy_from-eq m other v w h =
    let same : length m.words ≡ length other.words =
      v.sized ∙ ap (λ n. div_ceil n 64) h ∙ sym w.sized in
    rw (copy_words-eq m.words other.words same, h) refl

and_bits_lem :
    (w v : Word) (i : ℕ)
    → length w ≡ length v
    → get_or false (and_bits w v) i ≡ (get_or false w i && get_or false v i)
and_bits_lem [] v i h = refl
and_bits_lem (a ∷ w) [] i h = absurd (omega arith)
and_bits_lem (a ∷ w) (b ∷ v) zero h = refl
and_bits_lem (a ∷ w) (b ∷ v) (suc i) h = and_bits_lem w v i (omega arith)

and_words_lem :
    (ws vs : List Word) (k i : ℕ)
    → All IsWord ws
    → All IsWord vs
    → length ws ≡ length vs
    → get_or false (get_or [] (and_words ws vs) k) i
      ≡ (get_or false (get_or [] ws k) i && get_or false (get_or [] vs k) i)
and_words_lem [] [] k i f g h = refl
and_words_lem [] (v ∷ vs) k i f g h = absurd (omega arith)
and_words_lem (w ∷ ws) [] k i f g h = absurd (omega arith)
and_words_lem (w ∷ ws) (v ∷ vs) zero i f g h = and_bits_lem w v i (f.0 ∙ sym g.0)
and_words_lem (w ∷ ws) (v ∷ vs) (suc k) i f g h = and_words_lem ws vs k i f.1 g.1 (omega arith)

-- Between masks of one length, `intersect` keeps exactly the ids that both hold.
pub test-intersect :
    (m other : BitMask) (j : ℕ)
    → IsMask m
    → IsMask other
    → m.len ≡ other.len
    → test (intersect m other) j ≡ (test m j && test other j)
unfolding test intersect
test-intersect m other j v w h =
    let same : length m.words ≡ length other.words =
      v.sized ∙ ap (λ n. div_ceil n 64) h ∙ sym w.sized in
    rw (and_words_lem m.words other.words (j / 64) (j % 64) v.full w.full same, ← h) (ground arith)
