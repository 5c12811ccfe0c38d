-- ===== src/Server/Export/Columns.antt =====
-- The shape of the CSV exports (api/internal/server/export.go).
use sentilyzer.Prelude.{ℕ, suc, ◌+◌, ◌≡◌, refl, List, [], ◌∷◌, map, length, Str, arith, length-map}
use sentilyzer.Domain.{DocumentResult, SourcedDocumentResult}
use sentilyzer.Server.Export.{
  text_csv_header, topic_csv_header, score_columns, text_rows, topic_row, text_csv, topic_csv,
}

-- Every row has so many columns.
abbrev pub AllLength : ℕ → List (List Str) → Type 0
AllLength n [] = Unit
AllLength n (row ∷ rows) = (length row ≡ n) × AllLength n rows

module _ {F : Type 0} (zero32 : F) (show : F → Str) (rfc3339 : ℕ → Str) where
  text_rows-AllLength :
      (i : ℕ) (rs : List (DocumentResult F)) → AllLength 7 (text_rows zero32 show rfc3339 i rs)
  unfolding text_rows score_columns
  text_rows-AllLength i [] = tt
  text_rows-AllLength i (r ∷ rs) = (refl, text_rows-AllLength (suc i) rs)

  topic_rows-AllLength :
      (rs : List (SourcedDocumentResult F)) → AllLength 10 (map (topic_row zero32 show rfc3339) rs)
  unfolding topic_row score_columns
  topic_rows-AllLength [] = tt
  topic_rows-AllLength (r ∷ rs) = (refl, topic_rows-AllLength rs)

  length-text_rows :
      (i : ℕ) (rs : List (DocumentResult F))
      → length (text_rows zero32 show rfc3339 i rs) ≡ length rs
  unfolding text_rows
  length-text_rows i [] = refl
  length-text_rows i (r ∷ rs) = omega (arith, length-text_rows (suc i) rs)

  -- An export has its header and one row for each result, and every row has the columns of the
  -- header.
  pub text_csv-AllLength :
      (texts : List (DocumentResult F)) (docs : List (SourcedDocumentResult F))
      → AllLength (length text_csv_header) (text_csv zero32 show rfc3339 texts)
        × (length (text_csv zero32 show rfc3339 texts) ≡ 1 + length texts)
        × AllLength (length topic_csv_header) (topic_csv zero32 show rfc3339 docs)
        × (length (topic_csv zero32 show rfc3339 docs) ≡ 1 + length docs)
  unfolding text_csv topic_csv
  text_csv-AllLength texts docs = (
    (refl, text_rows-AllLength 0 texts),
    omega (arith, length-text_rows 0 texts),
    (refl, topic_rows-AllLength docs),
    omega (arith, length-map docs (topic_row zero32 show rfc3339)),
  )
