-- ===== src/Server/Rest.antt =====
-- api/internal/server/rest.go: the handlers, from the decoded request to the reply. The JSON and XML
-- codecs, mime.ParseMediaType and the parsers of package strconv are parameters: a reply holds the
-- value that is encoded. `format` is the negotiated format.
pub mod Shown
use sentilyzer.Prelude.{
  ℕ, Bool, not, List, [], ◌∷◌, Option, none, some, Str, str_eq, length, ◌==◌, if◌then◌else◌,
}
use sentilyzer.Prelude.Int.{ℤ, pos}
use sentilyzer.Prelude.Text.{codes, is_empty, trim_space}
use sentilyzer.Errors.{
  GoError, wrap, wrap_two, sentinel, invalid_request, topic_required, yaml_request_body, message,
  Result, done, fail,
}
use sentilyzer.Outcome.{Outcome}
use sentilyzer.Domain.{
  Document, DocumentResult, SourcedDocumentResult, SourcedAnalysis, Aggregate, HealthInfo,
  PlatformInfo,
}
use sentilyzer.Connectors.{Credentials}
use sentilyzer.Service.Request.{AnalyzeTopicRequest}
use sentilyzer.Service.Text.{AnalyzeTextRequest, AnalyzeTextResponse}
use sentilyzer.Server.Negotiate.{
  mime_json, mime_xml, mime_yaml, mime_csv, mime_ndjson, canonical_media, split, content_type,
}
use sentilyzer.Server.Status.{http_status_for}
use sentilyzer.Server.Export.{text_csv, topic_csv}

pub record AnalyzeTextDto : Type 0 where
  pub documents : List Document
  pub include_aspects : Bool

pub record AnalyzeTopicDto : Type 0 where
  pub topic : Str
  pub platforms : List Str
  pub limit_per_platform : ℤ
  pub aspects : List Str
  pub language : Str
  pub since_seconds : ℤ
  pub location : Str

-- the fields of asTopicEnvelope that are encoded, with the maps for JSON and as pairs for XML
pub record TopicEnvelope (F : Type 0) : Type 0 where
  pub analysis : SourcedAnalysis F
  pub by_platform_xml : List (Str × Aggregate F)
  pub by_aspect_xml : List (Str × Aggregate F)

-- what is encoded into the body
pub data Body (F : Type 0) : Type 0 where
  text_payload : AnalyzeTextResponse F → Body F
  topic_payload : TopicEnvelope F → Body F
  csv : List (List Str) → Body F
  text_lines : List (DocumentResult F) → Body F
  topic_lines : List (SourcedDocumentResult F) → Aggregate F → Body F
  health : HealthInfo → Body F
  platforms : List PlatformInfo → Body F
  error : Str → ℕ → Body F
  plain : Str → Body F

pub record HttpReply (F : Type 0) : Type 0 where
  pub status : ℕ
  pub content_type : Str
  pub body : Body F

-- the order of Go's map iteration is the order of the association list here
unfoldable pub as_topic_envelope : {F : Type 0} → SourcedAnalysis F → TopicEnvelope F
as_topic_envelope a = record {
  analysis = a;
  by_platform_xml = a.by_platform;
  by_aspect_xml = a.by_aspect;
}

-- a CSV client gets JSON here
unfoldable pub write_payload_as : {F : Type 0} → Str → ℕ → Body F → HttpReply F
unfolding content_type
write_payload_as format status body = record {
  status = status;
  content_type = content_type (if str_eq format mime_csv then mime_json else format);
  body = body;
}

unfoldable pub write_error : {F : Type 0} → Str → GoError → HttpReply F
write_error format err =
    let status = http_status_for (some err) in
    write_payload_as format status (error (message err) status)

unfoldable pub trim_parts : List Str → List Str
trim_parts [] = []
trim_parts (p ∷ ps) =
    let rest = trim_parts ps in if is_empty (trim_space p) then rest else trim_space p ∷ rest

unfoldable pub split_and_trim : Str → List Str
unfolding split trim_parts
split_and_trim s = trim_parts (split b',' s)

-- fmt.Errorf("%w: %w", service.ErrInvalidRequest, err)
unfoldable pub invalid : {A : Type 0} → Result A → Result A
invalid (done a) = done a
invalid (fail err) = fail (wrap_two (sentinel invalid_request) err)

-- `xml` and `json` are what the two decoders make of the body
unfoldable pub decode_request : {A : Type 0} → (ℕ → ℕ) → Str → Result A → Result A → Result A
unfolding invalid canonical_media
decode_request lower media xml json =
    let m = canonical_media lower media in
    if str_eq m mime_xml
    then invalid xml
    else if str_eq m mime_yaml
    then fail (sentinel yaml_request_body)
    else invalid json

-- a parameter that is a number, or 0
unfoldable pub number_or_zero : (Str → Option ℤ) → Str → ℤ
number_or_zero parse v = if is_empty v then pos 0 else elim (parse v) [ none ↦ pos 0 | some n ↦ n ]

unfoldable pub names_in : Str → List Str
unfolding split_and_trim
names_in v = if is_empty v then [] else split_and_trim v

-- the body of a GET, from the query parameters
unfoldable pub topic_of_query : (Str → Option ℤ) → (Str → Option ℤ) → (Str → Str) → AnalyzeTopicDto
unfolding names_in number_or_zero
topic_of_query atoi parse_int get = record {
  topic = get (codes "topic");
  platforms = names_in (get (codes "platforms"));
  limit_per_platform = number_or_zero atoi (get (codes "limit"));
  aspects = names_in (get (codes "aspects"));
  language = get (codes "language");
  since_seconds = number_or_zero parse_int (get (codes "since_seconds"));
  location = get (codes "location");
}

unfoldable pub topic_request : AnalyzeTopicDto → Credentials → AnalyzeTopicRequest
topic_request dto creds = record {
  topic = dto.topic;
  platforms = dto.platforms;
  limit_per_platform = dto.limit_per_platform;
  aspects = dto.aspects;
  language = dto.language;
  since_seconds = dto.since_seconds;
  location = dto.location;
  creds = creds;
}

module _ {F : Type 0} (zero32 : F) (show : F → Str) (rfc3339 : ℕ → Str) where
  unfoldable pub write_text : Str → AnalyzeTextResponse F → HttpReply F
  write_text format resp =
      if str_eq format mime_csv
      then record {
        status = 200;
        content_type = content_type mime_csv;
        body = csv (text_csv zero32 show rfc3339 resp.results);
      }
      else if str_eq format mime_ndjson
      then record {
        status = 200;
        content_type = content_type mime_ndjson;
        body = text_lines resp.results;
      }
      else write_payload_as format 200 (text_payload resp)

  unfoldable pub write_topic : Str → SourcedAnalysis F → HttpReply F
  write_topic format a =
      if str_eq format mime_csv
      then record {
        status = 200;
        content_type = content_type mime_csv;
        body = csv (topic_csv zero32 show rfc3339 a.results);
      }
      else if str_eq format mime_ndjson
      then record {
        status = 200;
        content_type = content_type mime_ndjson;
        body = topic_lines a.results a.aggregate;
      }
      else write_payload_as format 200 (topic_payload (as_topic_envelope a))

  -- `service` is Service.AnalyzeText
  unfoldable pub handle_analyze_text :
      (AnalyzeTextRequest → Result (AnalyzeTextResponse F))
      → Str
      → Result AnalyzeTextDto
      → HttpReply F
  handle_analyze_text service format (fail err) = write_error format err
  handle_analyze_text service format (done body) =
      let req : AnalyzeTextRequest = record {
        documents = body.documents;
        include_aspects = body.include_aspects;
      } in
      if length body.documents == 0
      then write_error format
          (wrap [] (sentinel invalid_request) (codes ": documents must not be empty"))
      else elim (service req) [
        | fail err ↦ write_error format err
        | done resp ↦ write_text format resp
      ]

  module _ {S : Type 0} (service : AnalyzeTopicRequest → S → Outcome (SourcedAnalysis F) × S) where
    -- The reply, unless the service panics; `service` is Service.AnalyzeTopic.
    unfoldable pub run_topic : Str → Credentials → AnalyzeTopicDto → S → Option (HttpReply F) × S
    run_topic format creds body s =
        let r = service (topic_request body creds) s in
        if is_empty body.topic then (some (write_error format (sentinel topic_required)), s) else (
          elim r.0 [
            | Outcome.done a ↦ some (write_topic format a)
            | Outcome.fail err ↦ some (write_error format err)
            | Outcome.panic ↦ none
          ],
          r.1,
        )

    unfoldable pub handle_analyze_topic :
        Str → Credentials → Result AnalyzeTopicDto → S → Option (HttpReply F) × S
    handle_analyze_topic format creds (fail err) s = (some (write_error format err), s)
    handle_analyze_topic format creds (done body) s = run_topic format creds body s

  -- `version` is that of the server
  unfoldable pub handle_health : Str → Str → HealthInfo → HttpReply F
  handle_health version format info =
      write_payload_as format 200 (health (record info { version = version }))

  unfoldable pub handle_list_platforms : Str → List PlatformInfo → HttpReply F
  handle_list_platforms format infos = write_payload_as format 200 (platforms infos)

  unfoldable pub handle_readyz : HealthInfo → HttpReply F
  handle_readyz info =
      let as_text = codes "text/plain; charset=utf-8" in
      if not info.ml_reachable
      then record {
        status = 503;
        content_type = as_text;
        body = plain (codes "not ready: ml worker unreachable\n");
      }
      else record { status = 200; content_type = as_text; body = plain (codes "ready\n") }
