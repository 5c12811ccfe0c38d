-- ===== src/Service/Topic/Cached.antt =====
-- When AnalyzeTopic answers from the cache, and what it stores
-- (api/internal/service/service.go).
use sentilyzer.Prelude.{
  length, List, ◌==◌, ℕ, ◌≡◌, ◌≢◌, [], Bool, true, false, none, Str, arith, inl, inr, Bool-cases,
}
use sentilyzer.Prelude.Text.{is_empty, trim_space}
use sentilyzer.Errors.{sentinel, topic_required}
use sentilyzer.Outcome
use sentilyzer.Outcome.{Outcome, done, fail, panic, lift}
use sentilyzer.Domain.{Floats, SourcedAnalysis, SourcedDocument, Warning}
use sentilyzer.Cache
use sentilyzer.Cache.{Entry, Lru, IsLru, TtlCache}
use sentilyzer.Cache.Expiry
use sentilyzer.Cache.{expiry_of}
use sentilyzer.Cache.Expiry.{ttl-get, Until, is_after-Until}
use sentilyzer.Service.Select.{select_platforms}
use sentilyzer.Service.Fanout.{fanout}
use sentilyzer.Service.Request.{AnalyzeTopicRequest, build_cache_key}
use sentilyzer.Service.Topic.{
  Environment, Service, analyze_found, analyze_docs, gather, store, analyze_topic, default_limit,
  connector_timeout, query_of,
}

module _ (fl : Floats) (hash : Str → Str) (lower : ℕ → ℕ)
    (l : Lru Str (Entry (SourcedAnalysis fl.F32))) where
  abbrev pub key_of : AnalyzeTopicRequest → Str
  key_of req = build_cache_key hash lower (default_limit req)

  -- A call whose topic is empty or blank is refused, and leaves the cache alone.
  pub analyze_topic_blank :
      (s : Service fl hash lower l) (env : Environment fl) (req : AnalyzeTopicRequest)
      → is_empty (trim_space req.topic) ≡ true
      → analyze_topic fl hash lower l s env req ≡ (fail (sentinel topic_required), s.cache)
  unfolding analyze_topic
  analyze_topic_blank s env req h = rw h

  -- A call that answers with a partial analysis stores nothing: it leaves the cache as the lookup of
  -- its key left it.
  pub analyze_topic-partial :
      (s : Service fl hash lower l) (env : Environment fl) (req : AnalyzeTopicRequest)
      {out : SourcedAnalysis fl.F32}
      → (analyze_topic fl hash lower l s env req).0 ≡ done out
      → out.partial ≡ true
      → (analyze_topic fl hash lower l s env req).1
        ≡ (Cache.get l s.cache env.at_get (key_of req)).1
  unfolding analyze_topic store
  analyze_topic-partial s env req h p = let key = key_of req in ground arith

  results-analyze_found :
      (env : Environment fl) (req : AnalyzeTopicRequest) (docs : List SourcedDocument)
      (ws : List Warning) {out : SourcedAnalysis fl.F32}
      → analyze_found fl hash lower l env req (docs, ws) ≡ done (out, false)
      → out.results ≡ []
  unfolding analyze_found
  results-analyze_found env req docs ws {out} h = elim (Bool-cases (length docs == 0)) [
    | inl none' ↦ ground (arith, none')
    | inr some' ↦
        let (out', same, end) =
          Outcome.>>=-eq-done (analyze_docs fl env.client env.at_analysis req docs ws)
            (λ o. done (o, true)) (rw some' at h) in
        absurd (cc end)
  ]

  -- An analysis that comes from no document has no results.
  results-gather :
      (s : Service fl hash lower l) (env : Environment fl) (req : AnalyzeTopicRequest)
      {out : SourcedAnalysis fl.F32}
      → gather fl hash lower l s env req ≡ done (out, false)
      → out.results ≡ []
  unfolding gather
  results-gather s env req h =
      let platforms = select_platforms lower s.connectors req.platforms req.creds in
      let timeout = connector_timeout fl hash lower l s in
      let asked = fanout timeout (env.timeout_text timeout) env.schedule platforms (query_of req) in
      elim (Bool-cases (length platforms == 0)) [
        | inl none' ↦ absurd (ground (arith, none'))
        | inr some' ↦
            let ((docs, ws), same, end) =
              Outcome.>>=-eq-done (lift asked) (analyze_found fl hash lower l env req)
                (rw some' at h) in
            results-analyze_found env req docs ws end
      ]

  -- What a call that missed leaves in the cache.
  store-kept :
      (env : Environment fl) (key : Str) (cache : TtlCache l)
      (found : Outcome (SourcedAnalysis fl.F32 × Bool)) {out : SourcedAnalysis fl.F32}
      → (store fl hash lower l env key cache found).0 ≡ done out
      → out.partial ≡ false
      → (found ≢ done (out, false))
      → (store fl hash lower l env key cache found).1 ≡ Cache.set l cache env.at_set key out
  unfolding store
  store-kept env key cache (done (o, true)) h whole fresh = ground arith
  store-kept env key cache (done (o, false)) h whole fresh = absurd (ground arith)
  store-kept env key cache (fail e) h whole fresh = cc
  store-kept env key cache panic h whole fresh = cc

  -- A complete analysis with results that was not in the cache is stored: on the cache that the call
  -- leaves, and until the time to live after it was set has passed, the next request with the same
  -- key and a topic that is not blank is answered with it, whatever the connectors and the inference
  -- client are by then.
  pub analyze_topic_again :
      (laws : IsLru l) (s s' : Service fl hash lower l) (env env' : Environment fl)
      (req req' : AnalyzeTopicRequest) (out : SourcedAnalysis fl.F32)
      → (Cache.get l s.cache env.at_get (key_of req)).0 ≡ none
      → (analyze_topic fl hash lower l s env req).0 ≡ done out
      → out.partial ≡ false
      → out.results ≢ []
      → s'.cache ≡ (analyze_topic fl hash lower l s env req).1
      → key_of req' ≡ key_of req
      → is_empty (trim_space req'.topic) ≡ false
      → Until env'.at_get (expiry_of env.at_set s.cache.ttl)
      → (analyze_topic fl hash lower l s' env' req').0 ≡ done out
  unfolding analyze_topic store
  analyze_topic_again laws s s' env env' req req' out miss first whole some' after key topic fresh =
      let old = Cache.get l s.cache env.at_get (key_of req) in
      let found = gather fl hash lower l s env (default_limit req) in
      let kept : s'.cache ≡ Cache.set l old.1 env.at_set (key_of req) out = ground (
        arith,
        store-kept env (key_of req) old.1 found {out = out},
        results-gather s env (default_limit req) {out = out},
      ) in
      let alive = is_after-Until env'.at_get (expiry_of env.at_set s.cache.ttl) fresh in
      let served = Cache.Expiry.get-set_self l laws old.1 env.at_set env'.at_get (key_of req) out in
      ground (arith, kept, served, alive, ttl-get l s.cache env.at_get (key_of req), key)
