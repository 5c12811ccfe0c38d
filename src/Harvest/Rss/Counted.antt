-- ===== src/Harvest/Rss/Counted.antt =====
-- One pass over the feeds (api/internal/harvest/rss.go, Run): what is written and what is counted.
use sentilyzer.Prelude.{ℕ, suc, List, [], ◌∷◌, Option, none, some, Str}
use sentilyzer.Errors.{GoError, Result, done, fail}
use sentilyzer.Harvest.Sink.{Sink}
use sentilyzer.Harvest.Bluesky.{count}
use sentilyzer.Harvest.Batch.{Harvester, chain}
use sentilyzer.Harvest.Batch.Follows.{
  Plan, Follows, Obeys, ending_with, with_item, with_failure, unless_stopped, store_all,
  found-Obeys, unless_ended-Obeys, return-Obeys, failed-Obeys,
}
use sentilyzer.Harvest.Rss.{
  Item, Feed, default_feeds, rss_document, write_items, read_feed, run_feeds, run,
}

module _ (hash unescape : Str → Str) (rfc3339 : ℕ → Str) (platform : Str) where
  abbrev pub with_items : Str → List (Option Item) → Plan → Plan
  with_items title [] p = p
  with_items title (none ∷ items) p = with_items title items p
  with_items title (some item ∷ items) p =
      with_item (rss_document hash unescape rfc3339 platform title item) (with_items title items p)

  abbrev pub with_feed : Result Feed → Plan → Plan
  with_feed (fail err) p = with_failure p
  with_feed (done feed) p = with_items feed.title feed.items p

  abbrev pub plan : (ℕ → Option GoError) → (ℕ → Str → Result Feed) → ℕ → List Str → Plan
  plan ctx_err parse_url turn [] = ending_with (done tt)
  plan ctx_err parse_url turn (url ∷ urls) =
      unless_stopped (ctx_err turn)
        (with_feed (parse_url turn url) (plan ctx_err parse_url (suc turn) urls))

  module _ {S : Type 0} (sink : Sink S) where
    items-Obeys :
        (title : Str) (items : List (Option Item)) (p : Plan)
        (k : Harvester S → Result (Unit {0}) × Harvester S)
        → Obeys sink k p
        → Obeys sink
            (λ h. chain (write_items hash unescape rfc3339 platform sink title items h) k)
            (with_items title items p)
    unfolding write_items
    items-Obeys title [] p k obeys h = obeys h
    items-Obeys title (none ∷ items) p k obeys h = items-Obeys title items p k obeys h
    items-Obeys title (some item ∷ items) p k obeys h =
        found-Obeys sink (rss_document hash unescape rfc3339 platform title item)
          (with_items title items p)
          (λ g. write_items hash unescape rfc3339 platform sink title items g) k
          (items-Obeys title items p k obeys) h

    feed-Obeys :
        (feed : Result Feed) (p : Plan) (k : Harvester S → Result (Unit {0}) × Harvester S)
        → Obeys sink k p
        → Obeys sink (read_feed hash unescape rfc3339 platform sink feed k) (with_feed feed p)
    unfolding read_feed count
    feed-Obeys (done feed) p k obeys h = items-Obeys feed.title feed.items p k obeys h
    feed-Obeys (fail e) p k obeys h = failed-Obeys sink p k obeys h

    module _ (ctx_err : ℕ → Option GoError) (parse_url : ℕ → Str → Result Feed) where
      run_feeds-Obeys :
          (turn : ℕ) (urls : List Str)
          → Obeys sink
              (run_feeds hash unescape rfc3339 platform sink ctx_err parse_url turn urls)
              (plan ctx_err parse_url turn urls)
      unfolding run_feeds
      run_feeds-Obeys turn [] h = return-Obeys sink (done tt) h
      run_feeds-Obeys turn (url ∷ urls) h =
          let rest = plan ctx_err parse_url (suc turn) urls in
          let next =
            run_feeds hash unescape rfc3339 platform sink ctx_err parse_url (suc turn) urls in
          let read = read_feed hash unescape rfc3339 platform sink (parse_url turn url) next in
          unless_ended-Obeys sink (ctx_err turn) (with_feed (parse_url turn url) rest) read
            (feed-Obeys (parse_url turn url) rest next (run_feeds-Obeys (suc turn) urls)) h

      -- The feeds of a run, which are the default feeds if none are given.
      abbrev pub or_default : List Str → List Str
      or_default [] = default_feeds
      or_default (url ∷ urls) = url ∷ urls

      -- A run over the feeds, which fetches and writes in turn, leaves the writer as writing the documents of all the
      -- feeds one after the other up to the first error does, and `docs` counts these writes, one that failed
      -- included. It returns the error of that write; if there is none, it ends with the error of the context or
      -- without an error, and has counted the items that hold no text and the feeds that failed, which are passed
      -- over.
      pub run-Follows :
          (urls : List Str) (h : Harvester S)
          → let p = plan ctx_err parse_url 0 (or_default urls) in
            Follows
              (run hash unescape rfc3339 platform sink ctx_err parse_url urls h)
              h
              (store_all sink p.docs h.writer)
              p
      unfolding run
      run-Follows [] h = run_feeds-Obeys 0 default_feeds h
      run-Follows (url ∷ urls) h = run_feeds-Obeys 0 (url ∷ urls) h
