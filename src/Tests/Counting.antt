-- ===== src/Tests/Counting.antt =====
-- Witnesses on the aggregator (api/internal/domain/domain.go) and on the CSV exports
-- (api/internal/server/export.go).
use sentilyzer.Prelude.{◌∷◌, [], arith, List, ◌≡◌, ℕ, some, str_instance}
use sentilyzer.Prelude.Text.{codes}
use sentilyzer.Prelude.Maps.{lookup}
use sentilyzer.Domain.{
  Score, DocumentResult, positive, neutral, aggregate, add_all, new_aggregator, sentiment_str,
}
use sentilyzer.Domain.Tally.{aggregate_counts, aggregate-modal_label}
use sentilyzer.Tests.{whole, score}

abbrev ups : List (Score ℕ)
ups = score positive 9 ∷ score neutral 5 ∷ score positive 7 ∷ []

aggregate_counts_example :
    let out = aggregate whole (add_all whole (new_aggregator whole) ups) in
    (out.sample_size ≡ 3) × (lookup (sentiment_str positive) out.label_counts ≡ some 2)
aggregate_counts_example = aggregate_counts whole ups positive (omega arith)

aggregate-modal_label_example :
    (aggregate whole (add_all whole (new_aggregator whole) ups)).modal_label ≡ positive
aggregate-modal_label_example =
    aggregate-modal_label whole (score positive 9) (score neutral 5 ∷ score positive 7 ∷ [])
      (omega arith)

abbrev results : List (DocumentResult ℕ)
results = record { id = codes "a"; overall = score positive 9; aspects = []; analyzed_at = 1 } ∷ []
