-- ===== src/Purecard/Session/Masks.antt =====
-- The mask of a step, token by token.
use pure_analyzer.Shared.{
  ℕ, ◌<◌, Bool, true, false, ◌&&◌, ◌||◌, List, [], ◌∷◌, ◌≡◌, refl, ap, ◌∙◌, arith, ◌==◌, ltb,
  if◌then◌else◌, Bool-cases, inl, inr,
}
use pure_analyzer.Purecard.Mask.{BitMask, with_len, set, clear, test}
use pure_analyzer.Purecard.Mask.Bits.{
  IsMask, test-set, set-IsMask, test-clear, clear-IsMask, with_len-IsMask, test-with_len,
}
use pure_analyzer.Purecard.Vocab.{Vocab}
use pure_analyzer.Purecard.Grammar.Pda.{Probe}
use pure_analyzer.Purecard.Compiled.{Cached, token, count, mask_len, partition, nothing_cached}
use pure_analyzer.Purecard.Compiled.Lookup.{
  contains, survives, set-len, partition-IsMask, partition-len, partition-test, partition-contains,
}
use pure_analyzer.Purecard.Session.{
  Cursor, cursor_admits, stack_top_present, set_admitted, reprobed, with_eos,
}

admit : Cursor → Vocab → ℕ → BitMask → BitMask
admit c v id m = if cursor_admits c (token v id) then set m id else m

admit-IsMask : (c : Cursor) (v : Vocab) (id : ℕ) (m : BitMask) → IsMask m → IsMask (admit c v id m)
unfolding admit
admit-IsMask c v id m w = elim (Bool-cases (cursor_admits c (token v id))) [
  | inl e ↦ rw e (set-IsMask m id w)
  | inr e ↦ rw e w
]

admit-len : (c : Cursor) (v : Vocab) (id : ℕ) (m : BitMask) → (admit c v id m).len ≡ m.len
unfolding admit
admit-len c v id m = elim (Bool-cases (cursor_admits c (token v id))) [
  | inl e ↦ rw e (set-len m id)
  | inr e ↦ rw e refl
]

admit-test :
    (c : Cursor) (v : Vocab) (id j : ℕ) (m : BitMask)
    → IsMask m
    → j < m.len
    → test (admit c v id m) j ≡ ((id == j && cursor_admits c (token v j)) || test m j)
unfolding admit
admit-test c v id j m w lt = elim (Bool-cases (id == j)) [
  | inl same ↦
      let eq : id ≡ j = ground arith in
      elim (Bool-cases (cursor_admits c (token v j))) [
        | inl e ↦ rw (eq, e, test-set m j j w) (ground arith)
        | inr e ↦ rw (eq, e) (ground arith)
      ]
  | inr other ↦ elim (Bool-cases (cursor_admits c (token v id))) [
    | inl e ↦ rw (e, other, test-set m id j w) (ground arith)
    | inr e ↦ rw (e, other) refl
  ]
]

set_admitted-IsMask :
    (c : Cursor) (v : Vocab) (ids : List ℕ) (m : BitMask)
    → IsMask m
    → IsMask (set_admitted c v ids m)
unfolding set_admitted admit
set_admitted-IsMask c v [] m w = w
set_admitted-IsMask c v (id ∷ ids) m w =
    set_admitted-IsMask c v ids (admit c v id m) (admit-IsMask c v id m w)

set_admitted-len :
    (c : Cursor) (v : Vocab) (ids : List ℕ) (m : BitMask) → (set_admitted c v ids m).len ≡ m.len
unfolding set_admitted admit
set_admitted-len c v [] m = refl
set_admitted-len c v (id ∷ ids) m = set_admitted-len c v ids (admit c v id m) ∙ admit-len c v id m

-- The token is one of the re-probed, and the live configuration admits it, or it was in the mask.
set_admitted-test :
    (c : Cursor) (v : Vocab) (ids : List ℕ) (j : ℕ) (m : BitMask)
    → IsMask m
    → j < m.len
    → test (set_admitted c v ids m) j
      ≡ ((contains ids j && cursor_admits c (token v j)) || test m j)
unfolding set_admitted contains admit
set_admitted-test c v [] j m w lt = refl
set_admitted-test c v (id ∷ ids) j m w lt =
    set_admitted-test c v ids j (admit c v id m) (admit-IsMask c v id m w)
      (rw (admit-len c v id m) lt)
    ∙ ap (λ t. (contains ids j && cursor_admits c (token v j)) || t) (admit-test c v id j m w lt)
    ∙ ground arith

-- What the base probe of each token tells of the live configuration.
pub record Speaks (c : Cursor) (v : Vocab) (verdict : ℕ → Probe) : Type 0 where
  pub independent :
      (id : ℕ)
      → (verdict id).consulted_ambient ≡ false
      → cursor_admits c (token v id) ≡ (verdict id).alive
  pub idle :
      (id : ℕ)
      → stack_top_present c ≡ false
      → (verdict id).consulted_ambient ≡ true
      → cursor_admits c (token v id) ≡ false

abbrev pub partitioned : Vocab → (ℕ → Probe) → Cached
partitioned v verdict = partition verdict 0 (count v) (nothing_cached (mask_len v))

pub partitioned-IsMask : (v : Vocab) (verdict : ℕ → Probe) → IsMask (partitioned v verdict).indep
partitioned-IsMask v verdict =
    partition-IsMask verdict 0 (count v) (nothing_cached (mask_len v))
      (with_len-IsMask (mask_len v))

pub partitioned-len :
    (v : Vocab) (verdict : ℕ → Probe) → (partitioned v verdict).indep.len ≡ mask_len v
unfolding with_len
partitioned-len v verdict = partition-len verdict 0 (count v) (nothing_cached (mask_len v))

partitioned-test :
    (v : Vocab) (verdict : ℕ → Probe) (j : ℕ)
    → test (partitioned v verdict).indep j ≡ (ltb j (count v) && survives (verdict j))
unfolding with_len
partitioned-test v verdict j =
    partition-test verdict 0 (count v) j (nothing_cached (mask_len v))
      (with_len-IsMask (mask_len v)) (omega arith)
    ∙ ground (arith, test-with_len (mask_len v) j)

partitioned-contains :
    (v : Vocab) (verdict : ℕ → Probe) (j : ℕ)
    → contains (partitioned v verdict).deferred j
      ≡ (ltb j (count v) && (verdict j).consulted_ambient)
unfolding contains
partitioned-contains v verdict j =
    partition-contains verdict 0 (count v) j (nothing_cached (mask_len v)) ∙ ground arith

-- A token's bit, once the deferred ones are probed again.
pub reprobed-test :
    (c : Cursor) (v : Vocab) (verdict : ℕ → Probe) (j : ℕ)
    → Speaks c v verdict
    → j < count v
    → test (reprobed c v (partitioned v verdict).deferred (partitioned v verdict).indep) j
      ≡ cursor_admits c (token v j)
reprobed-test c v verdict j s lt = elim (Bool-cases (stack_top_present c)) [
  | inl e ↦ rw e (
      set_admitted-test c v p.deferred j p.indep (partitioned-IsMask v verdict)
        (rw (partitioned-len v verdict) (omega arith))
      ∙ rw (partitioned-contains v verdict j, partitioned-test v verdict j, inside)
          (elim (Bool-cases (verdict j).consulted_ambient) [
            | inl a ↦ rw a (ground arith)
            | inr a ↦ rw (a, s.independent j a) (ground arith)
          ]))
  | inr e ↦
      rw (e, partitioned-test v verdict j, inside)
        (elim (Bool-cases (verdict j).consulted_ambient) [
          | inl a ↦ rw (a, s.idle j e a) refl
          | inr a ↦ rw (a, s.independent j a) refl
        ])
]
  where
    p : Cached
    p = partitioned v verdict

    inside : ltb j (count v) ≡ true
    inside = ground arith

-- A token that the base probe calls alive, with no need of the stack, is kept whatever is re-probed.
pub reprobed-survives :
    (c : Cursor) (v : Vocab) (verdict : ℕ → Probe) (j : ℕ)
    → j < count v
    → survives (verdict j) ≡ true
    → test (reprobed c v (partitioned v verdict).deferred (partitioned v verdict).indep) j ≡ true
reprobed-survives c v verdict j lt h = elim (Bool-cases (stack_top_present c)) [
  | inl e ↦ rw e (
      set_admitted-test c v p.deferred j p.indep (partitioned-IsMask v verdict)
        (rw (partitioned-len v verdict) (omega arith))
      ∙ rw (partitioned-test v verdict j, inside, h) (ground arith))
  | inr e ↦ rw (e, partitioned-test v verdict j, inside, h) refl
]
  where
    p : Cached
    p = partitioned v verdict

    inside : ltb j (count v) ≡ true
    inside = ground arith

pub reprobed-IsMask :
    (c : Cursor) (v : Vocab) (ids : List ℕ) (m : BitMask) → IsMask m → IsMask (reprobed c v ids m)
reprobed-IsMask c v ids m w = elim (Bool-cases (stack_top_present c)) [
  | inl e ↦ rw e (set_admitted-IsMask c v ids m w)
  | inr e ↦ rw e w
]

pub reprobed-len :
    (c : Cursor) (v : Vocab) (ids : List ℕ) (m : BitMask) → (reprobed c v ids m).len ≡ m.len
reprobed-len c v ids m = elim (Bool-cases (stack_top_present c)) [
  | inl e ↦ rw e (set_admitted-len c v ids m)
  | inr e ↦ rw e refl
]

pub with_eos-test :
    (b : Bool) (eos j : ℕ) (m : BitMask)
    → IsMask m
    → eos < m.len
    → test (with_eos b eos m) j ≡ (if eos == j then b else test m j)
with_eos-test true eos j m w lt = test-set m eos j w ∙ ground arith
with_eos-test false eos j m w lt = test-clear m eos j w

pub with_eos-IsMask : (b : Bool) (eos : ℕ) (m : BitMask) → IsMask m → IsMask (with_eos b eos m)
with_eos-IsMask true eos m w = set-IsMask m eos w
with_eos-IsMask false eos m w = clear-IsMask m eos w

pub with_eos-len : (b : Bool) (eos : ℕ) (m : BitMask) → (with_eos b eos m).len ≡ m.len
unfolding clear
with_eos-len true eos m = set-len m eos
with_eos-len false eos m = ground arith
