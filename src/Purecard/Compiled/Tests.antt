-- ===== src/Purecard/Compiled/Tests.antt =====
-- A cache that is filled once.
use pure_analyzer.Shared.{[], ◌∷◌, ◌≡◌, refl}
use pure_analyzer.Purecard.Vocab.{Vocab}
use pure_analyzer.Purecard.Grammar.State.{start}
use pure_analyzer.Purecard.Compiled.{compile, cached, build_fixed, mask_len}
use pure_analyzer.Purecard.Compiled.Cache.{IsCached, compile-IsCached, cached-IsCached}

abbrev vocab : Vocab
vocab = record { tokens = (b'|' ∷ []) ∷ (b')' ∷ []) ∷ [] }

cached-IsCached_example :
    ((cached (compile vocab) start).0 ≡ build_fixed start vocab (mask_len vocab))
    × IsCached (cached (compile vocab) start).1
unfolding compile
cached-IsCached_example = cached-IsCached (compile vocab) start refl (compile-IsCached vocab)
