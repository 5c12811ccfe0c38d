-- ===== src/Harvest.antt =====
-- api/internal/harvest: the corpus writer (corpus.go), the Bluesky harvester (bluesky.go,
-- jetstream.go) and the batch harvesters (rss.go, gdelt.go).
pub mod Corpus
pub mod Sink
pub mod Storage
pub mod Writer
pub mod Jetstream
pub mod Bluesky
pub mod Cursor
pub mod Batch
pub mod Rss
pub mod Gdelt
