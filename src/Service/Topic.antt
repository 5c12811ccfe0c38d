-- ===== src/Service/Topic.antt =====
-- AnalyzeTopic, ListPlatforms and Health of api/internal/service/service.go. One call meets an
-- `Environment`: the inference client, the order in which the goroutines of `fanout` finish, and
-- the clock's values. The result comes with the cache that the call leaves.
pub mod Cached
pub mod Safe
use sentilyzer.Prelude.{
  ℕ, suc, ◌+◌, ◌-◌, ◌==◌, ltb, Bool, true, false, not, List, [], ◌∷◌, ◌++◌, map, length, replicate,
  Str, if◌then◌else◌, Option, none, some, str_instance,
}
use sentilyzer.Prelude.Text.{codes, is_empty, trim_space}
use sentilyzer.Prelude.Int.{ℤ, pos, is_positive}
use sentilyzer.Prelude.Maps.{Map, lookup, insert}
use sentilyzer.Errors.{sentinel, topic_required, no_platforms, Result}
use sentilyzer.Outcome.{Outcome, done, fail, panic, lift, ◌>>=◌}
use sentilyzer.Domain.{
  Floats, Score, AspectScore, Aggregate, Aggregator, new_aggregator, add, aggregate, unspecified,
  SourcedDocument, DocumentResult, SourcedDocumentResult, SourcedAnalysis, Warning, HealthInfo,
  PlatformInfo, sort_platforms,
}
use sentilyzer.Cache
use sentilyzer.Cache.{Entry, Lru, TtlCache}
use sentilyzer.Connectors.{Registry, Connector, Query, info}
use sentilyzer.Inference.Batch.{AspectInput}
use sentilyzer.Service.Request.{AnalyzeTopicRequest, build_cache_key}
use sentilyzer.Service.Select.{select_platforms}
use sentilyzer.Service.Fanout.{fanout}
use sentilyzer.Service.Dedupe.{dedupe_by_id}
use sentilyzer.Service.Text.{Client, prefix_error}

-- DefaultConnectorTimeout, in nanoseconds
abbrev pub default_connector_timeout : ℕ
default_connector_timeout = 3_000_000_000

-- `if req.LimitPerPlatform <= 0 { req.LimitPerPlatform = 20 }`
unfoldable pub default_limit : AnalyzeTopicRequest → AnalyzeTopicRequest
default_limit req =
    if is_positive req.limit_per_platform then req else record req { limit_per_platform = pos 20 }

unfoldable pub query_of : AnalyzeTopicRequest → Query
query_of req = record {
  topic = req.topic;
  limit = req.limit_per_platform;
  language = req.language;
  since_seconds = req.since_seconds;
  location = req.location;
  creds = req.creds;
}

module _ (fl : Floats) where
  open fl use {F32, zero32}

  -- `if _, ok := m[k]; !ok { m[k] = NewAggregator() }; m[k].Add(s)`
  unfoldable pub add_at : Str → Score F32 → Map Str (Aggregator fl) → Map Str (Aggregator fl)
  add_at k s m = insert k (add fl (elim (lookup k m) [ none ↦ new_aggregator fl | some a ↦ a ]) s) m

  unfoldable pub add_aspects :
      List (AspectScore F32) → Map Str (Aggregator fl) → Map Str (Aggregator fl)
  unfolding add_at
  add_aspects [] m = m
  add_aspects (a ∷ rest) m = add_aspects rest (add_at a.aspect a.score m)

  pub record Totals : Type 0 where
    pub overall : Aggregator fl
    pub by_platform : Map Str (Aggregator fl)
    pub by_aspect : Map Str (Aggregator fl)

  abbrev pub no_totals : Totals
  no_totals = record { overall = new_aggregator fl; by_platform = []; by_aspect = [] }

  -- The loop over the documents. `scores[i]` and `aspectsByDoc[i]` panic out of range.
  unfoldable pub tally_docs :
      ℕ
      → List SourcedDocument
      → List (Score F32)
      → List (List (AspectScore F32))
      → Totals
      → Outcome (List (SourcedDocumentResult F32) × Totals)
  unfolding add_at add_aspects
  tally_docs now [] ss rows t = done ([], t)
  tally_docs now (d ∷ ds) [] rows t = panic
  tally_docs now (d ∷ ds) (s ∷ ss) [] t = panic
  tally_docs now (d ∷ ds) (s ∷ ss) (row ∷ rows) t = do
    (rs, t') ← tally_docs now ds ss rows (record {
      overall = add fl t.overall s;
      by_platform = add_at d.platform s t.by_platform;
      by_aspect = add_aspects row t.by_aspect;
    })
    done (
      record {
        document = d;
        result = record { id = d.document.id; overall = s; aspects = row; analyzed_at = now };
      }
          ∷ rs,
      t',
    )

  unfoldable pub aggregate_map : Map Str (Aggregator fl) → Map Str (Aggregate F32)
  aggregate_map m = map (λ e. (e.0, aggregate fl e.1)) m

  -- `aspectsByDoc`; a batch with more rows than documents is written out of range
  unfoldable pub topic_aspects :
      Client F32 → List Str → List SourcedDocument → Outcome (List (List (AspectScore F32)))
  unfolding prefix_error
  topic_aspects client aspects docs =
      let n = length docs in
      let asked : Outcome (List (List (AspectScore F32))) = (do
        batch ← lift (
            prefix_error (codes "classify aspects: ") (
              client.classify_aspects
                (map (λ d. record { text = d.document.text; aspects = aspects }) docs)))
        (if ltb n (length batch)
            then panic
            else done (batch ++ replicate (n - length batch) []))) in
      if length aspects == 0 then done (replicate n []) else asked

  -- From the documents found to the analysis, when there is a document.
  unfoldable pub analyze_docs :
      Client F32
      → ℕ
      → AnalyzeTopicRequest
      → List SourcedDocument
      → List Warning
      → Outcome (SourcedAnalysis F32)
  unfolding topic_aspects tally_docs aggregate_map dedupe_by_id prefix_error
  analyze_docs client now req found warnings = do
    let docs = dedupe_by_id found
    scores ←
        lift (prefix_error (codes "classify: ") (client.classify (map (λ d. d.document.text) docs)))
    rows ← topic_aspects client req.aspects docs
    (results, t) ← tally_docs now docs scores rows no_totals
    done (record {
      topic = req.topic;
      results = results;
      aggregate = aggregate fl t.overall;
      by_platform = aggregate_map t.by_platform;
      by_aspect = aggregate_map t.by_aspect;
      partial = not (length warnings == 0);
      warnings = warnings;
    })

  unfoldable pub empty_analysis : AnalyzeTopicRequest → List Warning → SourcedAnalysis F32
  empty_analysis req warnings = record {
    topic = req.topic;
    results = [];
    aggregate = record {
      mean_polarity = zero32;
      label_counts = [];
      modal_label = unspecified;
      sample_size = 0;
    };
    by_platform = [];
    by_aspect = [];
    partial = not (length warnings == 0);
    warnings = warnings;
  }

  pub record Environment : Type 0 where
    pub client : Client F32
    pub schedule : List ℕ
    pub timeout_text : ℕ → Str
    pub at_get : ℕ
    pub at_analysis : ℕ
    pub at_set : ℕ

  module _ (hash : Str → Str) (lower : ℕ → ℕ) (l : Lru Str (Entry (SourcedAnalysis F32))) where
    pub record Service : Type 0 where
      pub connectors : Registry
      pub cache : TtlCache l
      pub timeout : ℤ

    unfoldable pub connector_timeout : Service → ℕ
    connector_timeout s = elim s.timeout [
      | pos n ↦ if ltb 0 n then n else default_connector_timeout
      | _ ↦ default_connector_timeout
    ]

    -- The analysis of what the platforms returned; `true` if there were documents.
    unfoldable pub analyze_found :
        Environment
        → AnalyzeTopicRequest
        → List SourcedDocument × List Warning
        → Outcome (SourcedAnalysis F32 × Bool)
    unfolding empty_analysis
    analyze_found env req (docs, warnings) =
        let analysed : Outcome (SourcedAnalysis F32 × Bool) = (do
          out ← analyze_docs env.client env.at_analysis req docs warnings
          done (out, true)) in
        if length docs == 0 then done (empty_analysis req warnings, false) else analysed

    -- The selected platforms, searched and analysed.
    unfoldable pub gather :
        Service → Environment → AnalyzeTopicRequest → Outcome (SourcedAnalysis F32 × Bool)
    unfolding analyze_found
    gather s env req =
        let platforms = select_platforms lower s.connectors req.platforms req.creds in
        let timeout = connector_timeout s in
        let found : Outcome (SourcedAnalysis F32 × Bool) = (do
          out ←
              lift (fanout timeout (env.timeout_text timeout) env.schedule platforms (query_of req))
          analyze_found env req out) in
        if length platforms == 0 then fail (sentinel no_platforms) else found

    -- Only a complete analysis of documents is stored.
    unfoldable pub store :
        Environment
        → Str
        → TtlCache l
        → Outcome (SourcedAnalysis F32 × Bool)
        → Outcome (SourcedAnalysis F32) × TtlCache l
    store env key cache (done (out, analysed)) = (
      done out,
      if analysed
          then (if out.partial then cache else Cache.set l cache env.at_set key out)
          else cache,
    )
    store env key cache (fail err) = (fail err, cache)
    store env key cache panic = (panic, cache)

    unfoldable pub analyze_topic :
        Service → Environment → AnalyzeTopicRequest → Outcome (SourcedAnalysis F32) × TtlCache l
    unfolding store
    analyze_topic s env asked =
        let req = default_limit asked in
        let key = build_cache_key hash lower req in
        let got = Cache.get l s.cache env.at_get key in
        let missed = store env key got.1 (gather s env req) in
        if is_empty (trim_space asked.topic)
        then (fail (sentinel topic_required), s.cache)
        else elim got.0 [ some hit ↦ (done hit, got.1) | none ↦ missed ]

    unfoldable pub list_platforms : Service → List PlatformInfo
    unfolding info sort_platforms
    list_platforms s = sort_platforms (info s.connectors)

    unfoldable pub health : Service → Environment → HealthInfo
    health s env = record {
      healthy = true;
      ml_reachable = elim env.client.ready [ Result.done r ↦ r.ready | Result.fail err ↦ false ];
      version = [];
    }
