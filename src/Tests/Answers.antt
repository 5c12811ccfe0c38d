-- ===== src/Tests/Answers.antt =====
-- Witnesses on AnalyzeText and AnalyzeTopic (api/internal/service/service.go).
use sentilyzer.Prelude.{
  str_eq, ◌∷◌, [], arith, List, ◌≡◌, ◌≢◌, refl, ℕ, Str, true, false, map, none, ◌+◌,
}
use sentilyzer.Prelude.Int
use sentilyzer.Prelude.Int.{pos}
use sentilyzer.Prelude.Text.{codes, is_empty, trim_space, drop_while, is_space, str_lt}
use sentilyzer.Errors
use sentilyzer.Errors.{sentinel, topic_required}
use sentilyzer.Outcome.{Outcome, done, Safe}
use sentilyzer.Domain.{Document, SourcedAnalysis, aggregate, add_all, new_aggregator}
use sentilyzer.Cache.{Entry, TtlCache, get, expiry_of}
use sentilyzer.Connectors.{no_credentials, list, usable}
use sentilyzer.Service.Select.{select_platforms}
use sentilyzer.Service.Fanout.{fanout}
use sentilyzer.Prelude.Maps.{lookup}
use sentilyzer.Service.Request.{AnalyzeTopicRequest, build_cache_key}
use sentilyzer.Service.Text.{AnalyzeTextRequest, analyze_text, grpc_client}
use sentilyzer.Service.Text.Aligned.{asked_of, result_of, analyze_text-eq-map}
use sentilyzer.Service.Topic.{
  Environment, Service, analyze_topic, empty_analysis, gather, default_limit, analyze_docs,
}
use sentilyzer.Service.Topic.Cached.{key_of, analyze_topic-partial, analyze_topic_again}
use sentilyzer.Service.Topic.Safe.{grpc_client-Aligned, analyze_topic-Safe}
use sentilyzer.Tests.{
  whole, lower, news, broken, local, local_score, local_row, honest, ample, ample-IsLru,
}

abbrev doc : Str → List Str → Document
doc body aspects = record {
  id = body;
  text = body;
  language = [];
  aspects = aspects;
  metadata = [];
}

abbrev texts : AnalyzeTextRequest
texts = record {
  documents = doc (codes "fine") [] ∷ doc (codes "bad") (codes "price" ∷ []) ∷ [];
  include_aspects = true;
}

analyze_text-eq-map_example :
    analyze_text whole local 9 texts
    ≡ Errors.done (record {
      results = map (result_of whole 9 local_score (asked_of local_row texts)) texts.documents;
      aggregate = aggregate whole (
          add_all whole (new_aggregator whole) (map local_score (codes "fine" ∷ codes "bad" ∷ [])));
    })
analyze_text-eq-map_example =
    analyze_text-eq-map whole local local_score local_row (λ t. refl) (λ t. refl) 9 texts

abbrev request : Str → AnalyzeTopicRequest
request topic = record {
  topic = topic;
  platforms = [];
  limit_per_platform = Int.pos 5;
  aspects = codes "price" ∷ [];
  language = [];
  since_seconds = Int.pos 0;
  location = [];
  creds = no_credentials;
}

abbrev pub hash : Str → Str
hash s = s

abbrev pub Site : Type 0
Site = Service whole hash lower (ample (Entry (SourcedAnalysis ℕ)))

abbrev pub site : Site
site = record {
  connectors = (codes "news", news) ∷ [];
  cache = record { ttl = pos 60; lru = [] };
  timeout = Int.pos 0;
}

-- One of the two connectors fails.
abbrev shaky : Site
shaky = record site { connectors = (codes "news", news) ∷ (codes "broken", broken) ∷ [] }

abbrev pub now : ℕ → Environment whole
now t = record {
  client = local;
  schedule = 1 ∷ 0 ∷ [];
  timeout_text = λ n. codes "3s";
  at_get = t;
  at_analysis = t + 1;
  at_set = t + 2;
}

abbrev run :
    Site
    → Environment whole
    → AnalyzeTopicRequest
    → Outcome (SourcedAnalysis ℕ) × TtlCache (ample (Entry (SourcedAnalysis ℕ)))
run = analyze_topic whole hash lower (ample (Entry (SourcedAnalysis ℕ)))

analyze_topic-Safe_example :
    Safe (run shaky (record (now 5) { client = grpc_client 0 honest 2 }) (request (codes "go"))).0
analyze_topic-Safe_example =
    analyze_topic-Safe whole hash lower (ample (Entry (SourcedAnalysis ℕ))) shaky
      (record (now 5) { client = grpc_client 0 honest 2 }) (request (codes "go"))
      (grpc_client-Aligned 0 honest 2)

-- What a run returned.
abbrev value_of : Outcome (SourcedAnalysis ℕ) → SourcedAnalysis ℕ
value_of (done out) = out
value_of _ = empty_analysis whole (request []) []

abbrev whole_out : SourcedAnalysis ℕ
whole_out = value_of (run site (now 5) (request (codes "go"))).0

ran : (run site (now 5) (request (codes "go"))).0 ≡ done whole_out
unfolding analyze_topic trim_space drop_while is_space get lookup gather select_platforms
    default_limit list usable fanout analyze_docs str_eq
ran = refl

-- The same request later: in other case and with spaces around, on a site without connectors.
abbrev again : AnalyzeTopicRequest
again = request (codes " GO ")

abbrev bare : Site
bare = record site { connectors = []; cache = (run site (now 5) (request (codes "go"))).1 }

missed :
    (get
      (ample (Entry (SourcedAnalysis ℕ)))
      site.cache
      5
      (key_of whole hash lower (ample (Entry (SourcedAnalysis ℕ))) (request (codes "go")))).0
    ≡ none
unfolding get lookup
missed = refl

complete : whole_out.partial ≡ false
unfolding analyze_topic trim_space drop_while is_space get lookup gather select_platforms
    default_limit list usable fanout analyze_docs str_eq
complete = refl

has_results : whole_out.results ≢ []
unfolding analyze_topic trim_space drop_while is_space get lookup gather select_platforms
    default_limit list usable fanout analyze_docs str_eq
has_results = λ p. ground arith

same_key :
    key_of whole hash lower (ample (Entry (SourcedAnalysis ℕ))) again
    ≡ key_of whole hash lower (ample (Entry (SourcedAnalysis ℕ))) (request (codes "go"))
unfolding build_cache_key trim_space drop_while is_space default_limit
same_key = refl

not_blank : is_empty (trim_space (codes " GO ")) ≡ false
unfolding trim_space drop_while is_space
not_blank = refl

analyze_topic_again_example : (run bare (now 60) again).0 ≡ done whole_out
unfolding expiry_of
analyze_topic_again_example =
    analyze_topic_again whole hash lower (ample (Entry (SourcedAnalysis ℕ)))
      (ample-IsLru (Entry (SourcedAnalysis ℕ))) site bare (now 5) (now 60) (request (codes "go"))
      again whole_out missed ran complete has_results refl same_key not_blank (omega arith)

abbrev partial_out : SourcedAnalysis ℕ
partial_out = value_of (run shaky (now 5) (request (codes "go"))).0

ran_partly : (run shaky (now 5) (request (codes "go"))).0 ≡ done partial_out
unfolding analyze_topic trim_space drop_while is_space get lookup gather select_platforms
    default_limit list usable fanout analyze_docs str_eq str_lt
ran_partly = refl

incomplete : partial_out.partial ≡ true
unfolding analyze_topic trim_space drop_while is_space get lookup gather select_platforms
    default_limit list usable fanout analyze_docs str_eq str_lt
incomplete = refl

analyze_topic-partial_example :
    (run shaky (now 5) (request (codes "go"))).1
    ≡ (get
        (ample (Entry (SourcedAnalysis ℕ)))
        shaky.cache
        5
        (key_of whole hash lower (ample (Entry (SourcedAnalysis ℕ))) (request (codes "go")))).1
analyze_topic-partial_example =
    analyze_topic-partial whole hash lower (ample (Entry (SourcedAnalysis ℕ))) shaky (now 5)
      (request (codes "go")) ran_partly incomplete
