-- ===== src/Server/Grpc/Served.antt =====
-- REST and gRPC in front of the service (api/internal/server/rest.go, grpc.go,
-- api/internal/service/service.go).
use sentilyzer.Prelude.{ℕ, ◌≡◌, refl, true, [], ◌∷◌, Str}
use sentilyzer.Prelude.Text.{is_empty, trim_space, trim_func, drop_while}
use sentilyzer.Outcome.{Outcome}
use sentilyzer.Domain.{Floats, SourcedAnalysis}
use sentilyzer.Cache.{Entry, Lru, TtlCache}
use sentilyzer.Connectors.{Credentials}
use sentilyzer.Service.Request.{AnalyzeTopicRequest}
use sentilyzer.Service.Topic.{Service, Environment, analyze_topic}
use sentilyzer.Service.Topic.Cached.{analyze_topic_blank}
use sentilyzer.Server.Rest.{AnalyzeTopicDto, run_topic}
use sentilyzer.Server.Grpc.{grpc_analyze_topic}
use sentilyzer.Server.Grpc.Agree.{TopicAgree, as_asked, as_message, run_topic-grpc_analyze_topic}

trim_space-is_empty : (topic : Str) → is_empty topic ≡ true → is_empty (trim_space topic) ≡ true
unfolding trim_space trim_func drop_while
trim_space-is_empty [] h = refl
trim_space-is_empty (c ∷ s) h = cc

module _ (fl : Floats) (hash : Str → Str) (lower : ℕ → ℕ)
    (l : Lru Str (Entry (SourcedAnalysis fl.F32))) where
  open fl use {F32, zero32}

  -- AnalyzeTopic as what the surfaces call; its state is the cache.
  abbrev pub served :
      Service fl hash lower l
      → Environment fl
      → AnalyzeTopicRequest
      → TtlCache l
      → Outcome (SourcedAnalysis F32) × TtlCache l
  served s env req cache = analyze_topic fl hash lower l (record s { cache = cache }) env req

  -- REST and gRPC, asked for the same fields, both answer with the outcome of AnalyzeTopic on these fields, and both leave
  -- the cache that it leaves: with an analysis, the message reads back to it field by field, and the reply has status
  -- 200, the content type of the format and the rows of CSV, the lines of NDJSON or else the whole analysis; with an
  -- error, both have its text and its status in their protocol; and a panic is one under both.
  pub run_topic-served :
      (show : F32 → Str) (rfc3339 : ℕ → Str) (s : Service fl hash lower l) (env : Environment fl)
      (format : Str) (creds : Credentials) (body : AnalyzeTopicDto) (cache : TtlCache l)
      → let o = served s env (as_asked body creds) cache in
        let rest = run_topic zero32 show rfc3339 (served s env) format creds body cache in
        let grpc = grpc_analyze_topic (served s env) creds (as_message body) cache in
        TopicAgree zero32 show rfc3339 format o.0 rest.0 grpc.0 × (rest.1 ≡ o.1) × (grpc.1 ≡ o.1)
  run_topic-served show rfc3339 s env format creds body cache =
      run_topic-grpc_analyze_topic zero32 show rfc3339 (served s env)
        (λ asked c h.
          analyze_topic_blank fl hash lower l (record s { cache = c }) env asked
            (trim_space-is_empty asked.topic h))
        format creds body cache
