-- ===== src/Harvest/Batch.antt =====
-- What the two batch harvesters share, RSSHarvester and GDELTHarvester (api/internal/harvest/rss.go, gdelt.go):
-- the counters, the write of a document with what follows it, and the test of the context.
use sentilyzer.Prelude.{ℕ, Option, none, some}
pub mod Follows
use sentilyzer.Errors.{GoError, Result, done, fail}
use sentilyzer.Harvest.Corpus.{Document}
use sentilyzer.Harvest.Sink.{Sink}
use sentilyzer.Harvest.Bluesky.{count}

-- The state of the writer, and the counters.
pub record Harvester (S : Type 0) : Type 0 where
  pub writer : S
  pub docs : ℕ
  pub skipped : ℕ
  pub failed : ℕ

-- `k` is the code after a call that may return an error.
abbrev pub chain :
    {S : Type 0}
    → Result (Unit {0}) × Harvester S
    → (Harvester S → Result (Unit {0}) × Harvester S)
    → Result (Unit {0}) × Harvester S
chain (done u, h) k = k h
chain (fail err, h) k = (fail err, h)

module _ {S : Type 0} where
  -- `if ctx.Err() != nil`
  abbrev pub unless_ended :
      Option GoError
      → (Harvester S → Result (Unit {0}) × Harvester S)
      → Harvester S
      → Result (Unit {0}) × Harvester S
  unless_ended (some err) k h = (fail err, h)
  unless_ended none k h = k h

module _ {S : Type 0} (sink : Sink S) where
  -- `h.docs++` and the write
  unfoldable pub write_counted : Document → Harvester S → Result (Unit {0}) × Harvester S
  unfolding count
  write_counted doc h =
      let r = sink.write_document doc h.writer in
      (r.0, record h { writer = r.1; docs = count h.docs })

  -- an item that is not nil, and `k`, the rest of the loop
  unfoldable pub write_found :
      Option Document
      → (Harvester S → Result (Unit {0}) × Harvester S)
      → Harvester S
      → Result (Unit {0}) × Harvester S
  unfolding write_counted count
  write_found none k h = k (record h { skipped = count h.skipped })
  write_found (some doc) k h = chain (write_counted doc h) k
