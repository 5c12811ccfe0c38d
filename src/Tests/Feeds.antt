-- ===== src/Tests/Feeds.antt =====
-- Witnesses on the batch harvesters of api/internal/harvest/rss.go and gdelt.go.
use sentilyzer.Prelude.{ℕ, suc, zero, List, [], ◌∷◌, ◌++◌, none, some, Str}
use sentilyzer.Prelude.Text.{codes, itoa, trim_space, trim_func, drop_while, is_space}
use sentilyzer.Prelude.Int.{pos}
use sentilyzer.Errors.{text, Result, done, fail}
use sentilyzer.Harvest.Corpus.{Document}
use sentilyzer.Harvest.Sink.{Sink}
use sentilyzer.Harvest.Bluesky.{count}
use sentilyzer.Harvest.Batch.{Harvester, write_found, write_counted}
use sentilyzer.Harvest.Batch.Follows.{Follows}
use sentilyzer.Harvest.Rss.{
  Item, Feed, run, run_feeds, read_feed, write_items, rss_document, rss_text, rss_strip_html,
  doc_hash,
}
use sentilyzer.Harvest.Rss.Counted.{run-Follows}
use sentilyzer.Harvest.Gdelt
use sentilyzer.Harvest.Gdelt.Planned.{gdelt_run-Follows}

-- A writer that has room for some documents.
record Shelf : Type 0 where
  ids : List Str
  room : ℕ

abbrev put : Document → ℕ → Shelf → Result (Unit {0}) × Shelf
put d zero s = (fail (text (codes "no space left")), s)
put d (suc n) s = (done tt, record { ids = s.ids ++ d.doc_id ∷ []; room = n })

abbrev shelf : Sink Shelf
shelf = record { write_document = λ d s. put d s.room s; write_tombstone = λ t s. (done tt, s) }

abbrev plain : Str → Str
plain s = s

abbrev entry : Str → Str → Item
entry title guid = record {
  title = title;
  description = [];
  guid = guid;
  link = codes "l";
  published = none;
}

-- The third item has no text.
abbrev news : Feed
news = record {
  title = codes "News";
  items =
      some (entry (codes "a") (codes "1"))
      ∷ none
      ∷ some (entry [] (codes "2"))
      ∷ some (entry (codes "b") [])
      ∷ [];
}

-- The first feed that is fetched is down.
abbrev answer : ℕ → Str → Result Feed
answer zero url = fail (text (codes "timeout"))
answer (suc n) url = done news

abbrev fresh : ℕ → Harvester Shelf
fresh n = record { writer = record { ids = []; room = n }; docs = 0; skipped = 0; failed = 0 }

abbrev row : Str → Str → Document
row id title = record {
  platform = codes "rss";
  doc_id = id;
  author_did = [];
  author = codes "News";
  text = title;
  langs = [];
  created_at = [];
  harvested_at = [];
  content_sha = [];
  hash_version = 0;
}

-- The first feed fails, and the other has two documents and an item without text.
run-Follows_example :
    Follows
      (
        done tt,
        record {
          writer = record { ids = codes "1" ∷ codes "l" ∷ []; room = 1 };
          docs = 2;
          skipped = 1;
          failed = 1;
        },
      )
      (fresh 3)
      (record {
        result = done tt;
        calls = 2;
        writer = record { ids = codes "1" ∷ codes "l" ∷ []; room = 1 };
      })
      (record {
        docs = row (codes "1") (codes "a") ∷ row (codes "l") (codes "b") ∷ [];
        blanks = 1;
        failures = 1;
        ending = done tt;
      })
unfolding run run_feeds read_feed write_items write_found write_counted count rss_document rss_text
    rss_strip_html doc_hash trim_space trim_func drop_while is_space
run-Follows_example =
    run-Follows plain plain (λ t. itoa t) (codes "rss") shelf (λ n. none) answer
      (codes "down" ∷ codes "up" ∷ []) (fresh 3)

abbrev article : Str → Str → Gdelt.Article
article title url = record { url = url; title = title; seen_date = []; domain = codes "d" }

-- The first exchange is answered with a status of 429.
abbrev exchange : ℕ → Gdelt.ArtListQuery → Result Gdelt.ArtListReply
exchange zero q = done (record { status = 429; articles = done [] })
exchange (suc n) q = done (record {
  status = 200;
  articles = done (
      article (codes " a") (codes "1")
      ∷ article (codes " ") (codes "2")
      ∷ article (codes "b") (codes "3")
      ∷ []);
})

abbrev headline : Str → Str → Document
headline id title = record {
  platform = codes "gdelt";
  doc_id = id;
  author_did = [];
  author = codes "d";
  text = title;
  langs = [];
  created_at = [];
  harvested_at = [];
  content_sha = [];
  hash_version = 0;
}

-- The second of two writes finds no room.
gdelt_run-Follows_example :
    Follows
      (
        fail (text (codes "no space left")),
        record {
          writer = record { ids = codes "1" ∷ []; room = 0 };
          docs = 2;
          skipped = 1;
          failed = 1;
        },
      )
      (fresh 1)
      (record {
        result = fail (text (codes "no space left"));
        calls = 2;
        writer = record { ids = codes "1" ∷ []; room = 0 };
      })
      (record {
        docs = headline (codes "1") (codes "a") ∷ headline (codes "3") (codes "b") ∷ [];
        blanks = 1;
        failures = 1;
        ending = done tt;
      })
unfolding Gdelt.run Gdelt.run_queries Gdelt.fetch Gdelt.harvest_query Gdelt.write_articles
    Gdelt.gdelt_document Gdelt.read_answer Gdelt.art_list_query write_found write_counted count
    doc_hash trim_space trim_func drop_while is_space
gdelt_run-Follows_example =
    gdelt_run-Follows plain (λ t. itoa t) (λ s. none) (codes "gdelt") shelf (λ n. none) (λ u. none)
      exchange [] (pos 0) (codes "economy" ∷ codes "energy" ∷ []) (fresh 1)
