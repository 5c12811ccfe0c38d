-- ===== src/Tests/Harvesting.antt =====
-- Witnesses on the corpus (api/internal/harvest/corpus.go).
use sentilyzer.Prelude.{ℕ, ◌≡◌, ◌↔◌, refl, arith, List, map, Str}
use sentilyzer.Prelude.Text.{codes, is_space, join, to_lower}
use sentilyzer.Harvest.Corpus.{normalize, fields, content_sha256}
use sentilyzer.Harvest.Corpus.Normal.{AllWords, letters, concat_words, normalize_lem}
use sentilyzer.Tests.{lower}

lower_twice : (c : ℕ) → lower (lower c) ≡ lower c
lower_twice c = ground arith

lower_keeps_space : (c : ℕ) → is_space (lower c) ≡ is_space c
unfolding is_space
lower_keeps_space c = ground arith

abbrev praise : Str
praise = codes " Go  is GOOD "

abbrev praised : Str
praised = codes "go is good"

normalize_lem_example :
    (normalize lower praise ≡ normalize lower praised
      ↔ map (to_lower lower) (fields praise) ≡ map (to_lower lower) (fields praised))
    × (normalize lower praise ≡ join (codes " ") (map (to_lower lower) (fields praise)))
    × AllWords (fields praise)
    × (concat_words (fields praise) ≡ letters praise)
    × ((ws : List Str) → AllWords ws → fields (join (codes " ") ws) ≡ ws)
    × (content_sha256 lower (λ s. s) (normalize lower praise)
        ≡ content_sha256 lower (λ s. s) praise)
normalize_lem_example =
    normalize_lem lower lower_twice refl lower_keeps_space (λ s. s) praise praised
