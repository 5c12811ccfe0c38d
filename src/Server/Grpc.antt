-- ===== src/Server/Grpc.antt =====
-- api/internal/server/grpc.go: the handlers and the conversions to the messages of
-- api/gen/go/sentilyzer/v1. A timestamp stands for the instant that timestamppb.New is given, and a
-- message that is there for its pointer.
pub mod Carried
pub mod Agree
pub mod Served
use sentilyzer.Prelude.{ℕ, Bool, List, [], ◌∷◌, map, Option, some, Str}
use sentilyzer.Prelude.Int.{ℤ}
use sentilyzer.Prelude.Maps.{Map}
use sentilyzer.Errors.{GoError, status, message, Result, done, fail}
use sentilyzer.Outcome
use sentilyzer.Outcome.{Outcome}
use sentilyzer.Domain.{
  Document, Score, AspectScore, DocumentResult, SourcedDocument, SourcedDocumentResult,
  SourcedAnalysis, Aggregate, Warning, HealthInfo, PlatformInfo,
}
use sentilyzer.Connectors.{Credentials}
use sentilyzer.Inference.Client.{PbScore, PbAspectScore, domain_label_to_proto}
use sentilyzer.Service.Request.{AnalyzeTopicRequest}
use sentilyzer.Service.Text.{AnalyzeTextRequest, AnalyzeTextResponse}
use sentilyzer.Server.Status.{grpc_code_for}

pub record PbDocument : Type 0 where
  pub id : Str
  pub text : Str
  pub language : Str
  pub aspects : List Str
  pub metadata : Map Str Str

pub record PbDocumentResult (F : Type 0) : Type 0 where
  pub id : Str
  pub overall : Option (PbScore F)
  pub aspects : List (PbAspectScore F)
  pub analyzed_at : ℕ

pub record PbSourcedDocument : Type 0 where
  pub document : PbDocument
  pub platform : Str
  pub source_url : Str
  pub author : Str
  pub posted_at : ℕ

pub record PbSourcedDocumentResult (F : Type 0) : Type 0 where
  pub document : PbSourcedDocument
  pub result : PbDocumentResult F

pub record PbAggregate (F : Type 0) : Type 0 where
  pub mean_polarity : F
  pub label_counts : Map Str ℕ
  pub modal_label : ℕ
  pub sample_size : ℕ

pub record PbWarning : Type 0 where
  pub platform : Str
  pub message : Str

pub record PbPlatformInfo : Type 0 where
  pub id : Str
  pub display_name : Str
  pub enabled : Bool
  pub disabled_reason : Str

pub record PbTextRequest : Type 0 where
  pub documents : List PbDocument
  pub include_aspects : Bool

pub record PbTextResponse (F : Type 0) : Type 0 where
  pub results : List (PbDocumentResult F)
  pub aggregate : PbAggregate F

pub record PbTopicRequest : Type 0 where
  pub topic : Str
  pub platforms : List Str
  pub limit_per_platform : ℤ
  pub aspects : List Str
  pub language : Str
  pub since_seconds : ℤ
  pub location : Str

pub record PbTopicResponse (F : Type 0) : Type 0 where
  pub topic : Str
  pub results : List (PbSourcedDocumentResult F)
  pub aggregate : PbAggregate F
  pub by_platform : Map Str (PbAggregate F)
  pub by_aspect : Map Str (PbAggregate F)
  pub partial : Bool
  pub warnings : List PbWarning

pub record PbHealth : Type 0 where
  pub healthy : Bool
  pub ml_reachable : Bool
  pub version : Str

unfoldable pub document_of_proto : PbDocument → Document
document_of_proto d = record {
  id = d.id;
  text = d.text;
  language = d.language;
  aspects = d.aspects;
  metadata = d.metadata;
}

module _ {F : Type 0} where
  unfoldable pub score_to_proto : Score F → Option (PbScore F)
  unfolding domain_label_to_proto
  score_to_proto s = some (record {
    label = domain_label_to_proto s.label;
    confidence = s.confidence;
    polarity = s.polarity;
    probabilities = s.probabilities;
  })

  unfoldable pub aspect_to_proto : AspectScore F → PbAspectScore F
  unfolding score_to_proto
  aspect_to_proto a = record { aspect = a.aspect; score = score_to_proto a.score }

  unfoldable pub doc_result_to_proto : DocumentResult F → PbDocumentResult F
  unfolding score_to_proto aspect_to_proto
  doc_result_to_proto r = record {
    id = r.id;
    overall = score_to_proto r.overall;
    aspects = map aspect_to_proto r.aspects;
    analyzed_at = r.analyzed_at;
  }

  abbrev pub doc_results_to_proto : List (DocumentResult F) → List (PbDocumentResult F)
  doc_results_to_proto = map doc_result_to_proto

  unfoldable pub sourced_result_to_proto : SourcedDocumentResult F → PbSourcedDocumentResult F
  unfolding doc_result_to_proto
  sourced_result_to_proto r = record {
    document = record {
      document = record {
        id = r.document.document.id;
        text = r.document.document.text;
        language = r.document.document.language;
        aspects = r.document.document.aspects;
        metadata = r.document.document.metadata;
      };
      platform = r.document.platform;
      source_url = r.document.url;
      author = r.document.author;
      posted_at = r.document.posted_at;
    };
    result = doc_result_to_proto r.result;
  }

  abbrev pub sourced_results_to_proto :
      List (SourcedDocumentResult F) → List (PbSourcedDocumentResult F)
  sourced_results_to_proto = map sourced_result_to_proto

  unfoldable pub aggregate_to_proto : Aggregate F → PbAggregate F
  unfolding domain_label_to_proto
  aggregate_to_proto a = record {
    mean_polarity = a.mean_polarity;
    label_counts = a.label_counts;
    modal_label = domain_label_to_proto a.modal_label;
    sample_size = a.sample_size;
  }

  unfoldable pub aggregate_map_to_proto : Map Str (Aggregate F) → Map Str (PbAggregate F)
  unfolding aggregate_to_proto
  aggregate_map_to_proto m = map (λ e. (e.0, aggregate_to_proto e.1)) m

-- nil and an empty slice are the same list
unfoldable pub warnings_to_proto : List Warning → List PbWarning
warnings_to_proto ws =
    map (λ (w : Warning). record { platform = w.platform; message = w.message }) ws

-- status.Error(grpcCodeFor(err), err.Error())
unfoldable pub status_error : {A : Type 0} → GoError → Result A
status_error err = fail (status (grpc_code_for (some err)) (message err))

unfoldable pub topic_response : {F : Type 0} → SourcedAnalysis F → PbTopicResponse F
unfolding aggregate_map_to_proto aggregate_to_proto warnings_to_proto sourced_result_to_proto
topic_response a = record {
  topic = a.topic;
  results = sourced_results_to_proto a.results;
  aggregate = aggregate_to_proto a.aggregate;
  by_platform = aggregate_map_to_proto a.by_platform;
  by_aspect = aggregate_map_to_proto a.by_aspect;
  partial = a.partial;
  warnings = warnings_to_proto a.warnings;
}

unfoldable pub pb_topic_request : PbTopicRequest → Credentials → AnalyzeTopicRequest
pb_topic_request req creds = record {
  topic = req.topic;
  platforms = req.platforms;
  limit_per_platform = req.limit_per_platform;
  aspects = req.aspects;
  language = req.language;
  since_seconds = req.since_seconds;
  location = req.location;
  creds = creds;
}

-- `service` is Service.AnalyzeText
unfoldable pub grpc_analyze_text :
    {F : Type 0}
    → (AnalyzeTextRequest → Result (AnalyzeTextResponse F))
    → PbTextRequest
    → Result (PbTextResponse F)
grpc_analyze_text service req =
    let asked : AnalyzeTextRequest = record {
      documents = map document_of_proto req.documents;
      include_aspects = req.include_aspects;
    } in
    elim (service asked) [
      | fail err ↦ status_error err
      | done resp ↦ done (record {
        results = doc_results_to_proto resp.results;
        aggregate = aggregate_to_proto resp.aggregate;
      })
    ]

-- `service` is Service.AnalyzeTopic
unfoldable pub grpc_analyze_topic :
    {F S : Type 0}
    → (AnalyzeTopicRequest → S → Outcome (SourcedAnalysis F) × S)
    → Credentials
    → PbTopicRequest
    → S
    → Outcome (PbTopicResponse F) × S
grpc_analyze_topic service creds req s =
    let r = service (pb_topic_request req creds) s in
    (
      elim r.0 [
        | Outcome.done a ↦ Outcome.done (topic_response a)
        | Outcome.fail err ↦ Outcome.lift (status_error err)
        | Outcome.panic ↦ Outcome.panic
      ],
      r.1,
    )

unfoldable pub grpc_list_platforms : List PlatformInfo → List PbPlatformInfo
grpc_list_platforms infos =
    map
      (λ (p : PlatformInfo). record {
        id = p.id;
        display_name = p.display_name;
        enabled = p.enabled;
        disabled_reason = p.disabled_reason;
      })
      infos

unfoldable pub grpc_health : Str → HealthInfo → PbHealth
grpc_health version info = record {
  healthy = info.healthy;
  ml_reachable = info.ml_reachable;
  version = version;
}
