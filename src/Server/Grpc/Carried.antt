-- ===== src/Server/Grpc/Carried.antt =====
-- What an answer says in either protocol (api/internal/server/rest.go, grpc.go): the messages read back
-- as a client reads them, and the replies by format.
use sentilyzer.Prelude.{◌≡◌, refl, ap, ◌∙◌, List, [], ◌∷◌, map, Str}
use sentilyzer.Prelude.Maps.{Map}
use sentilyzer.Domain.{
  Document, Score, AspectScore, DocumentResult, SourcedDocumentResult, SourcedAnalysis, Aggregate,
  Warning,
}
use sentilyzer.Inference.Client.{PbAspectScore, proto_to_score, proto_label_to_domain}
use sentilyzer.Inference.Labels.{proto_label_to_domain-domain_label_to_proto}
use sentilyzer.Service.Text.{AnalyzeTextResponse}
use sentilyzer.Server.Grpc.{
  PbDocument, PbDocumentResult, PbSourcedDocumentResult, PbAggregate, PbWarning, PbTextResponse,
  PbTopicResponse, document_of_proto, score_to_proto, aspect_to_proto, doc_result_to_proto,
  doc_results_to_proto, sourced_result_to_proto, aggregate_to_proto, aggregate_map_to_proto,
  warnings_to_proto, topic_response,
}

-- A document as a client puts it into a message.
abbrev pub as_pb_document : Document → PbDocument
as_pb_document d = record {
  id = d.id;
  text = d.text;
  language = d.language;
  aspects = d.aspects;
  metadata = d.metadata;
}

map-inverse :
    {A B : Type 0} (f : A → B) (g : B → A) (xs : List A)
    → ((x : A) → g (f x) ≡ x)
    → map g (map f xs) ≡ xs
map-inverse f g [] h = refl
map-inverse f g (x ∷ xs) h = rw (h x, map-inverse f g xs h) refl

pub documents_kept : (docs : List Document) → map document_of_proto (map as_pb_document docs) ≡ docs
unfolding document_of_proto
documents_kept docs = map-inverse as_pb_document document_of_proto docs (λ d. refl)

module _ {F : Type 0} (zero32 : F) where
  -- The messages, read back.
  abbrev pub read_aspect : PbAspectScore F → AspectScore F
  read_aspect a = record { aspect = a.aspect; score = proto_to_score zero32 a.score }

  abbrev pub read_result : PbDocumentResult F → DocumentResult F
  read_result r = record {
    id = r.id;
    overall = proto_to_score zero32 r.overall;
    aspects = map read_aspect r.aspects;
    analyzed_at = r.analyzed_at;
  }

  abbrev pub read_sourced : PbSourcedDocumentResult F → SourcedDocumentResult F
  read_sourced r = record {
    document = record {
      document = record {
        id = r.document.document.id;
        text = r.document.document.text;
        language = r.document.document.language;
        aspects = r.document.document.aspects;
        metadata = r.document.document.metadata;
      };
      platform = r.document.platform;
      url = r.document.source_url;
      author = r.document.author;
      posted_at = r.document.posted_at;
    };
    result = read_result r.result;
  }

  abbrev pub read_aggregate : PbAggregate F → Aggregate F
  read_aggregate a = record {
    mean_polarity = a.mean_polarity;
    label_counts = a.label_counts;
    modal_label = proto_label_to_domain a.modal_label;
    sample_size = a.sample_size;
  }

  abbrev pub read_named : Str × PbAggregate F → Str × Aggregate F
  read_named e = (e.0, read_aggregate e.1)

  abbrev pub read_warning : PbWarning → Warning
  read_warning w = record { platform = w.platform; message = w.message }

  abbrev pub read_text : PbTextResponse F → AnalyzeTextResponse F
  read_text m = record {
    results = map read_result m.results;
    aggregate = read_aggregate m.aggregate;
  }

  abbrev pub read_topic : PbTopicResponse F → SourcedAnalysis F
  read_topic m = record {
    topic = m.topic;
    results = map read_sourced m.results;
    aggregate = read_aggregate m.aggregate;
    by_platform = map read_named m.by_platform;
    by_aspect = map read_named m.by_aspect;
    partial = m.partial;
    warnings = map read_warning m.warnings;
  }

  -- A score survives its message.
  score_kept : (s : Score F) → proto_to_score zero32 (score_to_proto s) ≡ s
  unfolding score_to_proto proto_to_score
  score_kept s =
      ap (λ l. record s { label = l }) (proto_label_to_domain-domain_label_to_proto.0 s.label)

  aspect_kept : (a : AspectScore F) → read_aspect (aspect_to_proto a) ≡ a
  unfolding aspect_to_proto
  aspect_kept a = ap (λ s. record a { score = s }) (score_kept a.score)

  result_kept : (r : DocumentResult F) → read_result (doc_result_to_proto r) ≡ r
  unfolding doc_result_to_proto
  result_kept r =
      ap (λ s. record r { overall = s; aspects = map read_aspect (map aspect_to_proto r.aspects) })
        (score_kept r.overall)
      ∙ ap (λ as'. record r { aspects = as' })
          (map-inverse aspect_to_proto read_aspect r.aspects aspect_kept)

  sourced_kept : (r : SourcedDocumentResult F) → read_sourced (sourced_result_to_proto r) ≡ r
  unfolding sourced_result_to_proto
  sourced_kept r = ap (λ x. record r { result = x }) (result_kept r.result)

  aggregate_kept : (a : Aggregate F) → read_aggregate (aggregate_to_proto a) ≡ a
  unfolding aggregate_to_proto
  aggregate_kept a =
      ap (λ l. record a { modal_label = l })
        (proto_label_to_domain-domain_label_to_proto.0 a.modal_label)

  named_kept : (m : Map Str (Aggregate F)) → map read_named (aggregate_map_to_proto m) ≡ m
  unfolding aggregate_map_to_proto
  named_kept m =
      map-inverse (λ (e : Str × Aggregate F). (e.0, aggregate_to_proto e.1)) read_named m
        (λ e. ap (λ a. (e.0, a)) (aggregate_kept e.1))

  pub results_kept : (rs : List (DocumentResult F)) → map read_result (doc_results_to_proto rs) ≡ rs
  results_kept rs = map-inverse doc_result_to_proto read_result rs result_kept

  pub text_kept :
      (resp : AnalyzeTextResponse F)
      → read_text (record {
        results = doc_results_to_proto resp.results;
        aggregate = aggregate_to_proto resp.aggregate;
      })
        ≡ resp
  text_kept resp =
      ap
        (λ rs. record {
          results = rs;
          aggregate = read_aggregate (aggregate_to_proto resp.aggregate);
        })
        (results_kept resp.results)
      ∙ ap (λ a. record resp { aggregate = a }) (aggregate_kept resp.aggregate)

  warnings_kept : (ws : List Warning) → map read_warning (warnings_to_proto ws) ≡ ws
  unfolding warnings_to_proto
  warnings_kept ws =
      map-inverse (λ (w : Warning). record { platform = w.platform; message = w.message })
        read_warning ws (λ w. refl)

  pub topic_kept : (a : SourcedAnalysis F) → read_topic (topic_response a) ≡ a
  unfolding topic_response
  topic_kept a =
      rw
        (
          map-inverse sourced_result_to_proto read_sourced a.results sourced_kept,
          aggregate_kept a.aggregate,
          named_kept a.by_platform,
          named_kept a.by_aspect,
          warnings_kept a.warnings,
        )
        refl
