-- ===== src/Server/Export.antt =====
-- api/internal/server/export.go: the rows of the CSV exports. strconv.FormatFloat at 32 bits is the
-- parameter `show`, and the RFC 3339 format of an instant is `rfc3339`.
pub mod Columns
use sentilyzer.Prelude.{
  ℕ, suc, ◌==◌, List, [], ◌∷◌, ◌++◌, map, length, Str, str_instance, Option, none, some,
  if◌then◌else◌, ◌≡◌, refl, ap,
}
use sentilyzer.Prelude.Text.{codes, itoa}
use sentilyzer.Prelude.Maps.{lookup}
use sentilyzer.Domain.{Score, DocumentResult, SourcedDocumentResult, sentiment_str, all_sentiments}

abbrev pub text_csv_header : List Str
text_csv_header =
    codes "index"
    ∷ codes "label"
    ∷ codes "confidence"
    ∷ codes "polarity"
    ∷ codes "p_negative"
    ∷ codes "p_neutral"
    ∷ codes "p_positive"
    ∷ []

abbrev pub topic_csv_header : List Str
topic_csv_header =
    codes "platform"
    ∷ codes "doc_id"
    ∷ codes "created_at"
    ∷ codes "label"
    ∷ codes "confidence"
    ∷ codes "polarity"
    ∷ codes "p_negative"
    ∷ codes "p_neutral"
    ∷ codes "p_positive"
    ∷ codes "text"
    ∷ []

module _ {F : Type 0} (zero32 : F) (show : F → Str) (rfc3339 : ℕ → Str) where
  unfoldable pub score_columns : Score F → List Str
  score_columns s =
      sentiment_str s.label
      ∷ show s.confidence
      ∷ show s.polarity
      ∷ map
          (λ label.
            show
              (elim (lookup (sentiment_str label) s.probabilities) [ none ↦ zero32 | some p ↦ p ]))
          all_sentiments

  unfoldable pub text_rows : ℕ → List (DocumentResult F) → List (List Str)
  unfolding score_columns
  text_rows i [] = []
  text_rows i (r ∷ rs) = (itoa i ∷ score_columns r.overall) ∷ text_rows (suc i) rs

  -- `created` is blank at the zero time.
  unfoldable pub topic_row : SourcedDocumentResult F → List Str
  unfolding score_columns
  topic_row r =
      let at = r.document.posted_at in
      r.document.platform
      ∷ r.document.document.id
      ∷ (if at == 0 then [] else rfc3339 at)
      ∷ (score_columns r.result.overall ++ r.document.document.text ∷ [])

  -- the header row, always, and the rows
  unfoldable pub text_csv : List (DocumentResult F) → List (List Str)
  unfolding text_rows
  text_csv rs = text_csv_header ∷ text_rows 0 rs

  unfoldable pub topic_csv : List (SourcedDocumentResult F) → List (List Str)
  unfolding topic_row
  topic_csv rs = topic_csv_header ∷ map topic_row rs
