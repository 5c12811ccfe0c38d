-- ===== src/Server/Rest/Shown.antt =====
-- What a reply shows, by format (api/internal/server/rest.go).
use sentilyzer.Prelude.{
  ℕ, ◌≡◌, ◌≢◌, refl, sym, ap, ◌∙◌, Bool, true, false, some, inl, inr, Bool-cases, Str, str_eq,
  str_eq_iff, if◌then◌else◌,
}
use sentilyzer.Errors.{GoError, message}
use sentilyzer.Domain.{SourcedAnalysis}
use sentilyzer.Service.Text.{AnalyzeTextResponse}
use sentilyzer.Server.Negotiate.{mime_json, mime_csv, mime_ndjson, content_type}
use sentilyzer.Server.Export.{text_csv, topic_csv}
use sentilyzer.Server.Status.{http_status_for}
use sentilyzer.Server.Rest.{
  HttpReply, Body, csv, text_lines, text_payload, topic_lines, topic_payload, error,
  write_payload_as, write_error, write_text, write_topic, as_topic_envelope,
}

-- Status 200, the content type of the format, and the body for CSV, for NDJSON or for any other format.
pub record Shown {F : Type 0} (format : Str) (csv_body lines_body other_body : Body F)
    (r : HttpReply F) : Type 0 where
  pub status : r.status ≡ 200
  pub content_type : r.content_type ≡ content_type format
  pub csv : format ≡ mime_csv → r.body ≡ csv_body
  pub lines : format ≡ mime_ndjson → r.body ≡ lines_body
  pub other : format ≢ mime_csv → format ≢ mime_ndjson → r.body ≡ other_body

-- The status of the error, its text, and JSON for a format that no error is written in.
pub record ShowsError {F : Type 0} (format : Str) (err : GoError) (r : HttpReply F) : Type 0 where
  pub status : r.status ≡ http_status_for (some err)
  pub body : r.body ≡ error (message err) (http_status_for (some err))
  pub as_json : format ≡ mime_csv → r.content_type ≡ content_type mime_json
  pub as_asked : format ≢ mime_csv → r.content_type ≡ content_type format

not_both : mime_csv ≢ mime_ndjson
unfolding str_eq
not_both e = let same : false ≡ true = (str_eq_iff mime_csv mime_ndjson).1 e in cc

is_other : {s t : Str} → str_eq s t ≡ false → s ≢ t
is_other {s} {t} h e = let same = (str_eq_iff s t).1 e in cc

module _ {F : Type 0} where
  -- The reply that a handler makes of its three bodies.
  abbrev reply_by : Str → Bool → Bool → Body F → Body F → Body F → HttpReply F
  reply_by format is_csv is_lines c l o =
      if is_csv
      then record { status = 200; content_type = content_type mime_csv; body = c }
      else if is_lines
      then record { status = 200; content_type = content_type mime_ndjson; body = l }
      else record {
        status = 200;
        content_type = content_type (if is_csv then mime_json else format);
        body = o;
      }

  reply_by-Shown :
      (format : Str) (is_csv is_lines : Bool) (c l o : Body F)
      → str_eq format mime_csv ≡ is_csv
      → str_eq format mime_ndjson ≡ is_lines
      → Shown format c l o (reply_by format is_csv is_lines c l o)
  reply_by-Shown format true is_lines c l o h k =
      let here : format ≡ mime_csv = (str_eq_iff format mime_csv).0 h in
      record {
        status = refl;
        content_type = ap content_type (sym here);
        csv = λ e. refl;
        lines = λ e. absurd (not_both (sym here ∙ e));
        other = λ n m. absurd (n here);
      }
  reply_by-Shown format false true c l o h k =
      let here : format ≡ mime_ndjson = (str_eq_iff format mime_ndjson).0 k in
      record {
        status = refl;
        content_type = ap content_type (sym here);
        csv = λ e. absurd (is_other h e);
        lines = λ e. refl;
        other = λ n m. absurd (m here);
      }
  reply_by-Shown format false false c l o h k = record {
    status = refl;
    content_type = refl;
    csv = λ e. absurd (is_other h e);
    lines = λ e. absurd (is_other k e);
    other = λ n m. refl;
  }

  pub write_error-ShowsError :
      (format : Str) (err : GoError) → ShowsError {F = F} format err (write_error format err)
  unfolding write_error write_payload_as
  write_error-ShowsError format err = record {
    status = refl;
    body = refl;
    as_json = λ e. rw ((str_eq_iff format mime_csv).1 e) refl;
    as_asked = λ n. elim (Bool-cases (str_eq format mime_csv)) [
      | inl same ↦ absurd (n ((str_eq_iff format mime_csv).0 same))
      | inr other ↦ rw other refl
    ];
  }

  module _ (zero32 : F) (show : F → Str) (rfc3339 : ℕ → Str) where
    abbrev pub ShowsText : Str → AnalyzeTextResponse F → HttpReply F → Type 0
    ShowsText format resp =
        Shown format (csv (text_csv zero32 show rfc3339 resp.results)) (text_lines resp.results)
          (text_payload resp)

    -- The breakdowns are there as maps, in the analysis, and as pairs.
    abbrev pub ShowsTopic : Str → SourcedAnalysis F → HttpReply F → Type 0
    ShowsTopic format a =
        Shown format (csv (topic_csv zero32 show rfc3339 a.results))
          (topic_lines a.results a.aggregate)
          (topic_payload
            (record { analysis = a; by_platform_xml = a.by_platform; by_aspect_xml = a.by_aspect }))

    pub write_text-ShowsText :
        (format : Str) (resp : AnalyzeTextResponse F)
        → ShowsText format resp (write_text zero32 show rfc3339 format resp)
    unfolding write_text write_payload_as
    write_text-ShowsText format resp =
        reply_by-Shown format (str_eq format mime_csv) (str_eq format mime_ndjson) _ _ _ refl refl

    pub write_topic-ShowsTopic :
        (format : Str) (a : SourcedAnalysis F)
        → ShowsTopic format a (write_topic zero32 show rfc3339 format a)
    unfolding write_topic write_payload_as as_topic_envelope
    write_topic-ShowsTopic format a =
        reply_by-Shown format (str_eq format mime_csv) (str_eq format mime_ndjson) _ _ _ refl refl
