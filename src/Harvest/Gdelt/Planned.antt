-- ===== src/Harvest/Gdelt/Planned.antt =====
-- One pass over the queries (api/internal/harvest/gdelt.go, Run): what is written and what is counted.
use sentilyzer.Prelude.{ℕ, suc, List, [], ◌∷◌, Option, Str}
use sentilyzer.Prelude.Int.{ℤ}
use sentilyzer.Errors.{GoError, Result, done, fail}
use sentilyzer.Harvest.Sink.{Sink}
use sentilyzer.Harvest.Batch.{Harvester, chain}
use sentilyzer.Harvest.Batch.Follows.{
  Plan, Follows, Obeys, ending_with, with_item, with_failure, unless_stopped, store_all,
  found-Obeys, unless_ended-Obeys, return-Obeys, failed-Obeys,
}
use sentilyzer.Harvest.Gdelt.{
  Article, ArtListQuery, ArtListReply, default_queries, gdelt_document, write_articles,
  harvest_query, fetch, run_queries, run,
}

module _ (hash : Str → Str) (rfc3339 : ℕ → Str) (parse_seen : Str → Option ℕ) (platform : Str) where
  abbrev pub with_articles : List Article → Plan → Plan
  with_articles [] p = p
  with_articles (a ∷ articles) p =
      with_item (gdelt_document hash rfc3339 parse_seen platform a) (with_articles articles p)

  abbrev pub with_answer : Result (List Article) → Plan → Plan
  with_answer (fail err) p = with_failure p
  with_answer (done articles) p = with_articles articles p

  -- `answers` is what is read for a query at its turn.
  abbrev pub plan_queries :
      (ℕ → Option GoError) → (ℕ → Str → Result (List Article)) → ℕ → List Str → Plan
  plan_queries wait answers turn [] = ending_with (done tt)
  plan_queries wait answers turn (topic ∷ topics) =
      unless_stopped (wait turn)
        (with_answer (answers turn topic) (plan_queries wait answers (suc turn) topics))

  module _ {S : Type 0} (sink : Sink S) where
    articles-Obeys :
        (articles : List Article) (p : Plan) (k : Harvester S → Result (Unit {0}) × Harvester S)
        → Obeys sink k p
        → Obeys sink
            (λ h. chain (write_articles hash rfc3339 parse_seen platform sink articles h) k)
            (with_articles articles p)
    unfolding write_articles
    articles-Obeys [] p k obeys h = obeys h
    articles-Obeys (a ∷ articles) p k obeys h =
        found-Obeys sink (gdelt_document hash rfc3339 parse_seen platform a)
          (with_articles articles p)
          (λ g. write_articles hash rfc3339 parse_seen platform sink articles g) k
          (articles-Obeys articles p k obeys) h

    answer-Obeys :
        (answer : Result (List Article)) (p : Plan)
        (k : Harvester S → Result (Unit {0}) × Harvester S)
        → Obeys sink k p
        → Obeys sink
            (λ h. chain (harvest_query hash rfc3339 parse_seen platform sink answer h) k)
            (with_answer answer p)
    unfolding harvest_query
    answer-Obeys (fail e) p k obeys h = failed-Obeys sink p k obeys h
    answer-Obeys (done articles) p k obeys h = articles-Obeys articles p k obeys h

    module _ (wait : ℕ → Option GoError) (parse_url : Str → Option GoError)
        (exchange : ℕ → ArtListQuery → Result ArtListReply) (base : Str) (timespan : ℤ) where
      abbrev pub answers : ℕ → Str → Result (List Article)
      answers turn topic = fetch parse_url exchange base timespan turn topic

      run_queries-Obeys :
          (turn : ℕ) (topics : List Str)
          → Obeys sink
              (run_queries hash rfc3339 parse_seen platform sink wait parse_url exchange base
                timespan turn topics)
              (plan_queries wait answers turn topics)
      unfolding run_queries
      run_queries-Obeys turn [] h = return-Obeys sink (done tt) h
      run_queries-Obeys turn (topic ∷ topics) h =
          let rest = plan_queries wait answers (suc turn) topics in
          let next = λ (g : Harvester S).
            run_queries hash rfc3339 parse_seen platform sink wait parse_url exchange base timespan
              (suc turn) topics g in
          unless_ended-Obeys sink (wait turn) (with_answer (answers turn topic) rest)
            (λ g.
              chain (harvest_query hash rfc3339 parse_seen platform sink (answers turn topic) g)
                next)
            (answer-Obeys (answers turn topic) rest next (run_queries-Obeys (suc turn) topics)) h

      -- The queries of a run, which are the default queries if none are given.
      abbrev pub topics_of : List Str → List Str
      topics_of [] = default_queries
      topics_of (topic ∷ topics) = topic ∷ topics

      -- A run over the queries leaves the writer as writing the documents of all the answers one after the other up to
      -- the first error does, and `docs` counts these writes, one that failed included. It returns the error of that
      -- write; if there is none, it ends with the error of the context or without an error, and has counted the
      -- articles with a blank title and the queries without an answer, which are passed over.
      pub gdelt_run-Follows :
          (topics : List Str) (h : Harvester S)
          → let p = plan_queries wait answers 0 (topics_of topics) in
            Follows
              (run hash rfc3339 parse_seen platform sink wait parse_url exchange base timespan
                topics h)
              h
              (store_all sink p.docs h.writer)
              p
      unfolding run
      gdelt_run-Follows [] h = run_queries-Obeys 0 default_queries h
      gdelt_run-Follows (topic ∷ topics) h = run_queries-Obeys 0 (topic ∷ topics) h
