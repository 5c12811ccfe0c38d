-- ===== src/Tests/Surfaces.antt =====
-- Witnesses on the REST and gRPC handlers (api/internal/server/rest.go, grpc.go).
use sentilyzer.Prelude.{ℕ, ◌≡◌, [], ◌∷◌}
use sentilyzer.Prelude.Int.{pos}
use sentilyzer.Prelude.Text.{codes, itoa}
use sentilyzer.Errors
use sentilyzer.Domain.{SourcedAnalysis, Document}
use sentilyzer.Cache.{Entry}
use sentilyzer.Connectors.{no_credentials}
use sentilyzer.Server.Negotiate.{mime_xml}
use sentilyzer.Server.Rest.{AnalyzeTopicDto, run_topic}
use sentilyzer.Server.Grpc.{grpc_analyze_topic}
use sentilyzer.Server.Grpc.Agree.{TopicAgree, as_asked, as_message}
use sentilyzer.Server.Grpc.Served.{served, run_topic-served}
use sentilyzer.Tests.{whole, lower, ample}
use sentilyzer.Tests.Answers.{hash, site, now}

abbrev body : AnalyzeTopicDto
body = record {
  topic = codes "go";
  platforms = [];
  limit_per_platform = pos 5;
  aspects = codes "price" ∷ [];
  language = [];
  since_seconds = pos 0;
  location = [];
}

run_topic-served_example :
    let service = served whole hash lower (ample (Entry (SourcedAnalysis ℕ))) site (now 5) in
    let o = service (as_asked body no_credentials) site.cache in
    let rest = run_topic 0 itoa itoa service mime_xml no_credentials body site.cache in
    let grpc = grpc_analyze_topic service no_credentials (as_message body) site.cache in
    TopicAgree 0 itoa itoa mime_xml o.0 rest.0 grpc.0 × (rest.1 ≡ o.1) × (grpc.1 ≡ o.1)
run_topic-served_example =
    run_topic-served whole hash lower (ample (Entry (SourcedAnalysis ℕ))) itoa itoa site (now 5)
      mime_xml no_credentials body site.cache

abbrev fine : Document
fine = record {
  id = codes "1";
  text = codes "fine";
  language = [];
  aspects = codes "price" ∷ [];
  metadata = [];
}
