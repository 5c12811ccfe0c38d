-- ===== src/Harvest/Rss.antt =====
-- api/internal/harvest/rss.go. SHA-256 in hexadecimal (`hash`), html.UnescapeString, the format of a time,
-- the parser of feeds, which fetches them, and the context are parameters.
use sentilyzer.Prelude.{ℕ, suc, List, [], ◌∷◌, ◌++◌, Option, none, some, Str, take, if◌then◌else◌}
use sentilyzer.Prelude.Text.{codes, is_empty, trim_space}
pub mod Counted
use sentilyzer.Errors.{GoError, Result, done, fail}
use sentilyzer.Connectors.Strip.{strip_html}
use sentilyzer.Harvest.Corpus.{Document}
use sentilyzer.Harvest.Sink.{Sink}
use sentilyzer.Harvest.Bluesky.{count}
use sentilyzer.Harvest.Batch.{Harvester, chain, write_found, unless_ended}

abbrev pub default_feeds : List Str
default_feeds =
    codes "https://feeds.bbci.co.uk/news/business/rss.xml"
    ∷ codes "https://feeds.npr.org/1006/rss.xml"
    ∷ codes "https://hnrss.org/frontpage"
    ∷ []

-- The fields that are read of an item of gofeed.
pub record Item : Type 0 where
  pub title : Str
  pub description : Str
  pub guid : Str
  pub link : Str
  pub published : Option ℕ

pub record Feed : Type 0 where
  pub title : Str
  pub items : List (Option Item)

-- the first eight bytes in hexadecimal
unfoldable pub doc_hash : (Str → Str) → Str → Str
doc_hash hash s = take 16 (hash s)

unfoldable pub rss_strip_html : (Str → Str) → Str → Str
unfolding strip_html
rss_strip_html unescape s = strip_html unescape s

unfoldable pub rss_text : Str → Str → Str
rss_text title summary =
    if is_empty summary
    then title
    else if is_empty title
    then summary
    else title ++ codes "\n" ++ summary

module _ (hash unescape : Str → Str) (rfc3339 : ℕ → Str) (platform : Str) where
  unfoldable pub rss_document : Str → Item → Option Document
  unfolding doc_hash rss_strip_html rss_text
  rss_document feed_title item =
      let text = rss_text (trim_space item.title) (rss_strip_html unescape item.description) in
      if is_empty text
      then none
      else some (record {
        platform = platform;
        doc_id = if is_empty item.guid then doc_hash hash item.link else item.guid;
        author_did = [];
        author = feed_title;
        text = text;
        langs = [];
        created_at = elim item.published [ none ↦ [] | some t ↦ rfc3339 t ];
        harvested_at = [];
        content_sha = [];
        hash_version = 0;
      })

  module _ {S : Type 0} (sink : Sink S) where
    -- the loop over the items of a feed
    unfoldable pub write_items :
        Str → List (Option Item) → Harvester S → Result (Unit {0}) × Harvester S
    unfolding rss_document write_found
    write_items feed_title [] h = (done tt, h)
    write_items feed_title (none ∷ items) h = write_items feed_title items h
    write_items feed_title (some item ∷ items) h =
        write_found sink (rss_document feed_title item) (λ g. write_items feed_title items g) h

    -- what the parser gives of a feed, and `k`, the rest of the loop
    unfoldable pub read_feed :
        Result Feed
        → (Harvester S → Result (Unit {0}) × Harvester S)
        → Harvester S
        → Result (Unit {0}) × Harvester S
    unfolding write_items count
    read_feed (fail err) k h = k (record h { failed = count h.failed })
    read_feed (done feed) k h = chain (write_items feed.title feed.items h) k

    -- What the context and the parser answer at the turn of each feed.
    module _ (ctx_err : ℕ → Option GoError) (parse_url : ℕ → Str → Result Feed) where
      unfoldable pub run_feeds : ℕ → List Str → Harvester S → Result (Unit {0}) × Harvester S
      unfolding read_feed
      run_feeds turn [] h = (done tt, h)
      run_feeds turn (url ∷ urls) h =
          unless_ended (ctx_err turn)
            (read_feed (parse_url turn url) (λ g. run_feeds (suc turn) urls g)) h

      unfoldable pub run : List Str → Harvester S → Result (Unit {0}) × Harvester S
      unfolding run_feeds
      run [] h = run_feeds 0 default_feeds h
      run (url ∷ urls) h = run_feeds 0 (url ∷ urls) h
