-- ===== src/Harvest/Gdelt.antt =====
-- api/internal/harvest/gdelt.go. SHA-256 in hexadecimal (`hash`), the format of a time, time.Parse on the
-- layout of GDELT, url.Parse, the HTTP exchange with the JSON decoder, and the context with the ticks
-- are parameters.
use sentilyzer.Prelude.{
  ℕ, suc, ◌/◌, ◌==◌, Bool, List, [], ◌∷◌, ◌++◌, Option, none, some, Str, if◌then◌else◌,
}
use sentilyzer.Prelude.Int.{ℤ, pos, negsuc}
use sentilyzer.Prelude.Text.{codes, is_empty, trim_space}
pub mod Planned
use sentilyzer.Errors.{GoError, text, Result, done, fail}
use sentilyzer.Connectors.Gdelt.{quoted}
use sentilyzer.Connectors.Gdelt.Timespan.{gdelt_timespan}
use sentilyzer.Harvest.Corpus.{Document}
use sentilyzer.Harvest.Sink.{Sink}
use sentilyzer.Harvest.Bluesky.{count}
use sentilyzer.Harvest.Rss.{doc_hash}
use sentilyzer.Harvest.Batch.{Harvester, chain, write_found, unless_ended}

abbrev pub default_queries : List Str
default_queries =
    codes "economy"
    ∷ codes "inflation"
    ∷ codes "housing market"
    ∷ codes "stock market"
    ∷ codes "consumer spending"
    ∷ codes "artificial intelligence"
    ∷ codes "energy prices"
    ∷ codes "healthcare"
    ∷ []

pub record Article : Type 0 where
  pub url : Str
  pub title : Str
  pub seen_date : Str
  pub domain : Str

-- The parameters that are set, and the URL that they are set on.
pub record ArtListQuery : Type 0 where
  pub url : Str
  pub query : Str
  pub mode : Str
  pub format : Str
  pub max_records : ℕ
  pub timespan : Str

-- The status, and what the decoder makes of the body.
pub record ArtListReply : Type 0 where
  pub status : ℕ
  pub articles : Result (List Article)

-- in seconds, of a duration in nanoseconds; 24h if it is not set
unfoldable pub lookback : ℤ → ℤ
lookback (negsuc n) = pos 86_400
lookback (pos n) = if n == 0 then pos 86_400 else pos (n / 1_000_000_000)

unfoldable pub art_list_query : Str → ℤ → Str → ArtListQuery
unfolding quoted gdelt_timespan lookback
art_list_query base timespan topic = record {
  url =
      (if is_empty base then codes "https://api.gdeltproject.org" else base)
      ++ codes "/api/v2/doc/doc";
  query = quoted topic;
  mode = codes "ArtList";
  format = codes "json";
  max_records = 250;
  timespan = gdelt_timespan (lookback timespan);
}

-- What is read of an answer: a status other than 200 and a body that is not JSON are failures.
unfoldable pub read_answer : Result ArtListReply → Result (List Article)
read_answer (fail err) = fail err
read_answer (done reply) =
    if reply.status == 200 then reply.articles else fail (text (codes "status"))

-- What a query gives at its turn; `parse_url` gives the error of url.Parse.
module _ (parse_url : Str → Option GoError) (exchange : ℕ → ArtListQuery → Result ArtListReply)
    (base : Str) (timespan : ℤ) where
  unfoldable pub fetch : ℕ → Str → Result (List Article)
  unfolding art_list_query read_answer
  fetch turn topic =
      let q = art_list_query base timespan topic in
      elim (parse_url q.url) [ some err ↦ fail err | none ↦ read_answer (exchange turn q) ]

module _ (hash : Str → Str) (rfc3339 : ℕ → Str) (parse_seen : Str → Option ℕ) (platform : Str) where
  unfoldable pub gdelt_document : Article → Option Document
  unfolding doc_hash
  gdelt_document a =
      let title = trim_space a.title in
      if is_empty title
      then none
      else some (record {
        platform = platform;
        doc_id = doc_hash hash a.url;
        author_did = [];
        author = a.domain;
        text = title;
        langs = [];
        created_at = elim (parse_seen a.seen_date) [ none ↦ [] | some t ↦ rfc3339 t ];
        harvested_at = [];
        content_sha = [];
        hash_version = 0;
      })

  module _ {S : Type 0} (sink : Sink S) where
    -- the loop over the articles
    unfoldable pub write_articles : List Article → Harvester S → Result (Unit {0}) × Harvester S
    unfolding gdelt_document write_found
    write_articles [] h = (done tt, h)
    write_articles (a ∷ articles) h =
        write_found sink (gdelt_document a) (λ g. write_articles articles g) h

    -- harvestQuery, from what is read of the answer
    unfoldable pub harvest_query :
        Result (List Article) → Harvester S → Result (Unit {0}) × Harvester S
    unfolding write_articles count
    harvest_query (fail err) h = (done tt, record h { failed = count h.failed })
    harvest_query (done articles) h = write_articles articles h

    -- `wait` is the error of the context if it ends before the tick of a turn.
    module _ (wait : ℕ → Option GoError) (parse_url : Str → Option GoError)
        (exchange : ℕ → ArtListQuery → Result ArtListReply) (base : Str) (timespan : ℤ) where
      unfoldable pub run_queries : ℕ → List Str → Harvester S → Result (Unit {0}) × Harvester S
      unfolding fetch harvest_query
      run_queries turn [] h = (done tt, h)
      run_queries turn (topic ∷ topics) h =
          unless_ended (wait turn)
            (λ g.
              chain (harvest_query (fetch parse_url exchange base timespan turn topic) g)
                (λ g'. run_queries (suc turn) topics g'))
            h

      unfoldable pub run : List Str → Harvester S → Result (Unit {0}) × Harvester S
      unfolding run_queries
      run [] h = run_queries 0 default_queries h
      run (topic ∷ topics) h = run_queries 0 (topic ∷ topics) h
