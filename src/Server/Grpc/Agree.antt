-- ===== src/Server/Grpc/Agree.antt =====
-- REST and gRPC on the same request (api/internal/server/rest.go, grpc.go).
use sentilyzer.Prelude.{ℕ, ◌≡◌, refl, Bool, true, false, [], Option, none, some, Str, if◌then◌else◌}
use sentilyzer.Prelude.Text.{codes, is_empty}
use sentilyzer.Errors.{
  GoError, sentinel, topic_required, invalid_request, status, message, wrap, Result, done, fail,
}
use sentilyzer.Outcome
use sentilyzer.Outcome.{Outcome}
use sentilyzer.Domain.{SourcedAnalysis}
use sentilyzer.Connectors.{Credentials}
use sentilyzer.Service.Request.{AnalyzeTopicRequest}
use sentilyzer.Service.Text.{AnalyzeTextResponse}
use sentilyzer.Server.Status.{grpc_code_for}
use sentilyzer.Server.Rest.{
  AnalyzeTopicDto, HttpReply, write_error, write_topic, topic_request, run_topic,
}
use sentilyzer.Server.Rest.Shown.{
  ShowsError, ShowsText, ShowsTopic, write_error-ShowsError, write_topic-ShowsTopic,
}
use sentilyzer.Server.Grpc.{
  PbTextResponse, PbTopicRequest, PbTopicResponse, topic_response, pb_topic_request, status_error,
  grpc_analyze_topic,
}
use sentilyzer.Server.Grpc.Carried.{read_text, read_topic, topic_kept}

-- The body of a REST request as a message, and as what the service is to be asked.
abbrev pub as_message : AnalyzeTopicDto → PbTopicRequest
as_message body = record {
  topic = body.topic;
  platforms = body.platforms;
  limit_per_platform = body.limit_per_platform;
  aspects = body.aspects;
  language = body.language;
  since_seconds = body.since_seconds;
  location = body.location;
}

abbrev pub as_asked : AnalyzeTopicDto → Credentials → AnalyzeTopicRequest
as_asked body creds = record {
  topic = body.topic;
  platforms = body.platforms;
  limit_per_platform = body.limit_per_platform;
  aspects = body.aspects;
  language = body.language;
  since_seconds = body.since_seconds;
  location = body.location;
  creds = creds;
}

module _ {F : Type 0} (zero32 : F) (show : F → Str) (rfc3339 : ℕ → Str) where
  -- Both answer with the outcome of the service: its analysis, which the message reads back to and the reply shows; its
  -- error, with the text and the status in either protocol; or a panic under both.
  abbrev pub TopicAgree :
      Str
      → Outcome (SourcedAnalysis F)
      → Option (HttpReply F)
      → Outcome (PbTopicResponse F)
      → Type 0
  TopicAgree format (Outcome.done a) rest grpc =
      ((reply : HttpReply F) × (rest ≡ some reply) × ShowsTopic zero32 show rfc3339 format a reply)
      × ((m : PbTopicResponse F) × (grpc ≡ Outcome.done m) × (read_topic zero32 m ≡ a))
  TopicAgree format (Outcome.fail err) rest grpc =
      ((reply : HttpReply F) × (rest ≡ some reply) × ShowsError format err reply)
      × (grpc ≡ Outcome.fail (status (grpc_code_for (some err)) (message err)))
  TopicAgree format Outcome.panic rest grpc = (rest ≡ none) × (grpc ≡ Outcome.panic)

  -- What either makes of the outcome of the service.
  abbrev http_of : Str → Outcome (SourcedAnalysis F) → Option (HttpReply F)
  http_of format (Outcome.done a) = some (write_topic zero32 show rfc3339 format a)
  http_of format (Outcome.fail err) = some (write_error format err)
  http_of format Outcome.panic = none

  abbrev grpc_of : Outcome (SourcedAnalysis F) → Outcome (PbTopicResponse F)
  grpc_of (Outcome.done a) = Outcome.done (topic_response a)
  grpc_of (Outcome.fail err) = Outcome.lift (status_error err)
  grpc_of Outcome.panic = Outcome.panic

  outcome_agrees :
      (format : Str) (o : Outcome (SourcedAnalysis F))
      → TopicAgree format o (http_of format o) (grpc_of o)
  unfolding status_error
  outcome_agrees format (Outcome.done a) = (
    (_, refl, write_topic-ShowsTopic zero32 show rfc3339 format a),
    (_, refl, topic_kept zero32 a),
  )
  outcome_agrees format (Outcome.fail err) = ((_, refl, write_error-ShowsError format err), refl)
  outcome_agrees format Outcome.panic = (refl, refl)

  abbrev guarded :
      {S : Type 0} → Str → S → Outcome (SourcedAnalysis F) × S → Bool → Option (HttpReply F) × S
  guarded format s r blank =
      if blank
      then (some (write_error format (sentinel topic_required)), s)
      else (http_of format r.0, r.1)

  both_agree :
      {S : Type 0} (format : Str) (s : S) (r : Outcome (SourcedAnalysis F) × S) (blank : Bool)
      → (blank ≡ true → r ≡ (Outcome.fail (sentinel topic_required), s))
      → TopicAgree format r.0 (guarded format s r blank).0 (grpc_of r.0)
        × ((guarded format s r blank).1 ≡ r.1)
  both_agree format s r false h = (outcome_agrees format r.0, refl)
  both_agree format s r true h =
      rw (h refl) (outcome_agrees format (Outcome.fail (sentinel topic_required)), refl)

  module _ {S : Type 0} (service : AnalyzeTopicRequest → S → Outcome (SourcedAnalysis F) × S)
      (refuses : (req : AnalyzeTopicRequest) (s : S)
        → is_empty req.topic ≡ true
        → service req s ≡ (Outcome.fail (sentinel topic_required), s)) where
    -- For a service that refuses an empty topic with ErrTopicRequired and no change of state: REST and gRPC both answer with
    -- its outcome on the fields of the request, and leave the state that it leaves.
    pub run_topic-grpc_analyze_topic :
        (format : Str) (creds : Credentials) (body : AnalyzeTopicDto) (s : S)
        → let o = service (as_asked body creds) s in
          let rest = run_topic zero32 show rfc3339 service format creds body s in
          let grpc = grpc_analyze_topic service creds (as_message body) s in
          TopicAgree format o.0 rest.0 grpc.0 × (rest.1 ≡ o.1) × (grpc.1 ≡ o.1)
    unfolding run_topic grpc_analyze_topic topic_request pb_topic_request
    run_topic-grpc_analyze_topic format creds body s =
        let asked = as_asked body creds in
        let both =
          both_agree format s (service asked s) (is_empty body.topic) (λ b. refuses asked s b) in
        (both.0, both.1, refl)

abbrev pub no_documents : GoError
no_documents = wrap [] (sentinel invalid_request) (codes ": documents must not be empty")

module _ {F : Type 0} (zero32 : F) where
  -- The message reads back to the response of the service, or the status has its error.
  abbrev pub Carries : Result (AnalyzeTextResponse F) → Result (PbTextResponse F) → Type 0
  Carries (done resp) grpc = (m : PbTextResponse F) × (grpc ≡ done m) × (read_text zero32 m ≡ resp)
  Carries (fail err) grpc = grpc ≡ fail (status (grpc_code_for (some err)) (message err))

  -- The reply shows the response of the service, or its error.
  abbrev pub Shows :
      (F → Str) → (ℕ → Str) → Str → Result (AnalyzeTextResponse F) → HttpReply F → Type 0
  Shows show rfc3339 format (done resp) rest = ShowsText zero32 show rfc3339 format resp rest
  Shows show rfc3339 format (fail err) rest = ShowsError format err rest
