-- ===== src/Purecard/Mask/Tests.antt =====
-- Masks of one and of two words.
use pure_analyzer.Shared.{true, not, ◌&&◌, ◌≡◌, refl, ◌==◌, leb, if◌then◌else◌, [], ◌∷◌}
use pure_analyzer.Purecard.Mask.{BitMask, with_len, set, test, intersect, iter_ones}
use pure_analyzer.Purecard.Mask.Bits.{with_len-IsMask, set-IsMask, test-set, test-intersect}

abbrev two_words : BitMask
two_words = set (set (with_len 70) 65) 3

ones_of_two_words : iter_ones two_words ≡ 3 ∷ 65 ∷ []
unfolding iter_ones set with_len
ones_of_two_words = refl

test-set_example :
    test (set two_words 64) 65
    ≡ (if not (leb two_words.len 64) && 64 == 65 then true else test two_words 65)
test-set_example =
    test-set two_words 64 65
      (set-IsMask (set (with_len 70) 65) 3 (set-IsMask (with_len 70) 65 (with_len-IsMask 70)))

test-intersect_example :
    test (intersect (set (with_len 70) 65) (set (with_len 70) 3)) 65
    ≡ (test (set (with_len 70) 65) 65 && test (set (with_len 70) 3) 65)
unfolding set with_len
test-intersect_example =
    test-intersect (set (with_len 70) 65) (set (with_len 70) 3) 65
      (set-IsMask (with_len 70) 65 (with_len-IsMask 70))
      (set-IsMask (with_len 70) 3 (with_len-IsMask 70)) refl
