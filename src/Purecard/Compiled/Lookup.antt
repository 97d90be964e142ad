-- ===== src/Purecard/Compiled/Lookup.antt =====
-- What the loop over the vocabulary records of each token.
use pure_analyzer.Shared.{
  ℕ, zero, suc, ◌+◌, ◌≤◌, ◌<◌, Bool, true, false, not, ◌&&◌, ◌||◌, List, [], ◌∷◌, ◌++◌, ◌≡◌, refl,
  ap, ◌∙◌, arith, ◌==◌, leb, ltb, Bool-cases, inl, inr,
}
use pure_analyzer.Purecard.Mask.{BitMask, set, test}
use pure_analyzer.Purecard.Mask.Bits.{IsMask, test-set, set-IsMask}
use pure_analyzer.Purecard.Grammar.Pda.{Probe}
use pure_analyzer.Purecard.Compiled.{Cached, place, partition}

unfoldable pub contains : List ℕ → ℕ → Bool
contains [] j = false
contains (i ∷ is) j = i == j || contains is j

pub contains-append :
    (is : List ℕ) (i j : ℕ) → contains (is ++ i ∷ []) j ≡ (contains is j || i == j)
unfolding contains
contains-append [] i j = ground arith
contains-append (k ∷ is) i j = ground (arith, contains-append is i j)

abbrev pub in_range : ℕ → ℕ → ℕ → Bool
in_range id rounds j = leb id j && ltb j (id + rounds)

abbrev pub survives : Probe → Bool
survives p = not p.consulted_ambient && p.alive

pub set-len : (m : BitMask) (i : ℕ) → (set m i).len ≡ m.len
unfolding set
set-len m i = ground arith

place-IsMask : (id : ℕ) (p : Probe) (c : Cached) → IsMask c.indep → IsMask (place id p c).indep
place-IsMask id p c v = elim (Bool-cases p.consulted_ambient) [
  | inl e ↦ rw e v
  | inr e ↦ elim (Bool-cases p.alive) [
    | inl a ↦ rw (e, a) (set-IsMask c.indep id v)
    | inr a ↦ rw (e, a) v
  ]
]

place-len : (id : ℕ) (p : Probe) (c : Cached) → (place id p c).indep.len ≡ c.indep.len
place-len id p c = ground (arith, set-len c.indep id)

place-test :
    (id j : ℕ) (p : Probe) (c : Cached)
    → IsMask c.indep
    → id < c.indep.len
    → test (place id p c).indep j ≡ ((id == j && survives p) || test c.indep j)
place-test id j p c v lt = ground (arith, test-set c.indep id j v)

place-contains :
    (id j : ℕ) (p : Probe) (c : Cached)
    → contains (place id p c).deferred j
      ≡ ((id == j && p.consulted_ambient) || contains c.deferred j)
place-contains id j p c = ground (arith, contains-append c.deferred id j)

-- A range that begins one earlier.
range_from :
    (at : ℕ → Bool) (id rounds j : ℕ) (t : Bool)
    → ((in_range (suc id) rounds j && at j) || ((id == j && at id) || t))
      ≡ ((in_range id (suc rounds) j && at j) || t)
range_from at id rounds j t = elim (Bool-cases (id == j)) [
  | inl e ↦
      let same : id ≡ j = ground arith in
      let out : leb (suc id) j ≡ false = ground arith in
      let low : leb id j ≡ true = ground arith in
      let high : ltb j (id + suc rounds) ≡ true = ground arith in rw (out, low, high, e, same) refl
  | inr e ↦
      let low : leb (suc id) j ≡ leb id j = ground arith in
      let high : ltb j (suc id + rounds) ≡ ltb j (id + suc rounds) = ground arith in
      rw (low, high, e) refl
]

module _ (verdict : ℕ → Probe) where
  pub partition-IsMask :
      (id rounds : ℕ) (c : Cached) → IsMask c.indep → IsMask (partition verdict id rounds c).indep
  unfolding partition
  partition-IsMask id zero c v = v
  partition-IsMask id (suc rounds) c v =
      partition-IsMask (suc id) rounds (place id (verdict id) c) (place-IsMask id (verdict id) c v)

  pub partition-len :
      (id rounds : ℕ) (c : Cached) → (partition verdict id rounds c).indep.len ≡ c.indep.len
  unfolding partition
  partition-len id zero c = refl
  partition-len id (suc rounds) c =
      partition-len (suc id) rounds (place id (verdict id) c) ∙ place-len id (verdict id) c

  pub partition-test :
      (id rounds j : ℕ) (c : Cached)
      → IsMask c.indep
      → id + rounds ≤ c.indep.len
      → test (partition verdict id rounds c).indep j
        ≡ ((in_range id rounds j && survives (verdict j)) || test c.indep j)
  unfolding partition
  partition-test id zero j c v h = ground arith
  partition-test id (suc rounds) j c v h =
      partition-test (suc id) rounds j (place id (verdict id) c) (place-IsMask id (verdict id) c v)
        (rw (place-len id (verdict id) c) (omega arith))
      ∙ ap (λ t. (in_range (suc id) rounds j && survives (verdict j)) || t)
          (place-test id j (verdict id) c v (omega arith))
      ∙ range_from (λ i. survives (verdict i)) id rounds j (test c.indep j)

  pub partition-contains :
      (id rounds j : ℕ) (c : Cached)
      → contains (partition verdict id rounds c).deferred j
        ≡ ((in_range id rounds j && (verdict j).consulted_ambient) || contains c.deferred j)
  unfolding partition
  partition-contains id zero j c = ground arith
  partition-contains id (suc rounds) j c =
      partition-contains (suc id) rounds j (place id (verdict id) c)
      ∙ ap (λ t. (in_range (suc id) rounds j && (verdict j).consulted_ambient) || t)
          (place-contains id j (verdict id) c)
      ∙ range_from (λ i. (verdict i).consulted_ambient) id rounds j (contains c.deferred j)
