-- ===== src/Tests/Archive.antt =====
-- Witnesses on the corpus writer and the Bluesky harvester (api/internal/harvest/corpus.go, bluesky.go,
-- jetstream.go).
use sentilyzer.Prelude.{
  ℕ, ◌≡◌, ◌≢◌, refl, inr, true, false, List, [], ◌∷◌, Option, none, some, Str, str_eq, str_eq_iff,
}
use sentilyzer.Prelude.Int.{pos}
use sentilyzer.Prelude.Text.{codes, itoa, itoa_loop}
use sentilyzer.Errors.{text, Result, done, fail}
use sentilyzer.Harvest.Corpus.{Document, stamp}
use sentilyzer.Harvest.Sink.{Row, Tombstone, Scope, stamp_tombstone, IsSink}
use sentilyzer.Harvest.Writer.{
  Writer, PartFile, write_document, write_tombstone, clock, close_part, part_dir, new_part, part,
}
use sentilyzer.Harvest.Writer.Kept.{Ready}
use sentilyzer.Harvest.Writer.Landing.{WrittenRow, write_rows}
use sentilyzer.Harvest.Writer.Refines.{writer_sink, InFiles, writer_sink-IsSink}
use sentilyzer.Harvest.Writer.Stuck.{AllFail, write_document_stuck}
use sentilyzer.Harvest.Jetstream.{Event, Post, Subscription, read_frames}
use sentilyzer.Harvest.Bluesky.{BlueskyFilter, BlueskyHarvester, handle}
use sentilyzer.Harvest.Bluesky.Streamed.{Streamed, read_frames-Streamed}
use sentilyzer.Harvest.Bluesky.Reconnect.{Attempt}
use sentilyzer.Tests.{lower}
use sentilyzer.Tests.Memory.{Memory, memory, look, memory-IsDisk}

abbrev root : Str
root = codes "corpus"

abbrev blue : Str
blue = codes "bluesky"

abbrev plain : Str → Str
plain s = s

abbrev row : Document
row = record {
  platform = blue;
  doc_id = codes "did:a/1";
  author_did = codes "did:a";
  author = [];
  text = codes "so good";
  langs = [];
  created_at = [];
  harvested_at = [];
  content_sha = [];
  hash_version = 0;
}

abbrev revoked : Tombstone
revoked = record {
  platform = blue;
  scope = Scope.doc;
  doc_id = codes "did:a/1";
  author_did = codes "did:a";
  deleted_at = [];
}

abbrev new_writer : Writer Memory
new_writer = record {
  disk = record { files = []; clock = 7; full = false };
  docs = none;
  tomb = none;
}

write_rows_example :
    WrittenRow memory look memory-IsDisk root blue
      (codes "documents")
      new_writer
      (λ at. Row.document (stamp lower plain at row))
      (write_document memory root blue lower plain row new_writer)
    × WrittenRow memory look memory-IsDisk root blue
        (codes "tombstones")
        new_writer
        (λ at. Row.tombstone (stamp_tombstone at revoked))
        (write_tombstone memory root blue revoked new_writer)
write_rows_example =
    write_rows memory look memory-IsDisk root blue lower plain row revoked new_writer (tt, tt)

writer_sink-IsSink_example :
    IsSink lower plain
      (writer_sink memory look memory-IsDisk root blue lower plain)
      (InFiles memory look memory-IsDisk root blue lower plain)
      (Ready memory look memory-IsDisk root blue)
writer_sink-IsSink_example = writer_sink-IsSink memory look memory-IsDisk root blue lower plain

-- A part of the day 6, on the day 7, and no room.
abbrev yesterday : PartFile
yesterday = record { date = codes "6"; f = 0 }

abbrev old_file : Str
old_file = codes "corpus/documents/dt=6/platform=bluesky/part-6.jsonl.gz"

abbrev full_writer : Writer Memory
full_writer = record {
  disk = record {
    files = (record { path = old_file; taken = []; closed = false }) ∷ [];
    clock = 7;
    full = true;
  };
  docs = some yesterday;
  tomb = none;
}

differs : codes "6" ≢ itoa 7
unfolding itoa itoa_loop str_eq
differs e = let same : false ≡ true = (str_eq_iff (codes "6") (itoa 7)).1 e in cc

write_document_stuck_example :
    AllFail memory look memory-IsDisk root blue lower plain (row ∷ row ∷ []) full_writer
unfolding new_part clock close_part part_dir itoa itoa_loop write_document part str_eq
write_document_stuck_example =
    write_document_stuck memory look memory-IsDisk root blue lower plain (row ∷ row ∷ []) yesterday
      full_writer {q = old_file} refl refl (inr (_, refl)) (differs, (differs, tt))

-- Everything of four bytes or more.
abbrev keen : BlueskyFilter
keen = record {
  langs = [];
  min_chars = pos 4;
  max_chars = pos 0;
  sample_rate = record { at_least_one = true; at_most_zero = false; above = λ v. false };
}

abbrev sum : Str → ℕ
sum s = 0

abbrev commit : Str → Option Post → Event
commit op p = record {
  did = codes "did:a";
  time_us = pos 9_000_000;
  kind = codes "commit";
  commit = some (record {
    operation = op;
    collection = codes "app.bsky.feed.post";
    rkey = codes "1";
    post = p;
  });
  account = none;
}

-- A post, a frame that does not decode, and the deletion of the post.
abbrev seen : List (Option Event)
seen =
    some (
      commit (codes "create")
        (some (record { text = codes " so good "; langs = []; created_at = [] })))
    ∷ none
    ∷ some (commit (codes "delete") none)
    ∷ []

abbrev idle : BlueskyHarvester (Writer Memory)
idle = record { writer = new_writer; docs = 0; tombs = 0; skipped = 0 }

read_frames-Streamed_example :
    Streamed blue lower plain sum keen
      (writer_sink memory look memory-IsDisk root blue lower plain)
      (InFiles memory look memory-IsDisk root blue lower plain)
      (Ready memory look memory-IsDisk root blue)
      (writer_sink-IsSink memory look memory-IsDisk root blue lower plain)
      seen
      (text (codes "EOF"))
      (pos 0)
      idle
      (read_frames
        (handle (writer_sink memory look memory-IsDisk root blue lower plain) blue lower sum keen)
        seen
        (text (codes "EOF"))
        (pos 0)
        idle)
read_frames-Streamed_example =
    read_frames-Streamed blue lower plain sum keen
      (writer_sink memory look memory-IsDisk root blue lower plain)
      (InFiles memory look memory-IsDisk root blue lower plain)
      (Ready memory look memory-IsDisk root blue)
      (writer_sink-IsSink memory look memory-IsDisk root blue lower plain) seen (text (codes "EOF"))
      (pos 0) idle (tt, tt)

abbrev nowhere : Subscription → Result Str
nowhere s = done (codes "wss://example")

abbrev tick : Event → ℕ
tick ev = 9

abbrev ignore : Event → BlueskyHarvester ℕ → Result (Unit {0}) × BlueskyHarvester ℕ
ignore ev h = (done tt, h)

abbrev counting : BlueskyHarvester ℕ
counting = record { writer = 0; docs = 0; tombs = 0; skipped = 0 }

-- A connection with two events, then one that cannot be dialed, at which the context ends.
abbrev turns : List Attempt
turns =
    (record {
      started = 1;
      dial = λ url. done (record { frames = seen; ended = text (codes "EOF") });
      ended_after = false;
      ended_waiting = false;
    })
    ∷ (record {
      started = 2;
      dial = λ url. fail (text (codes "refused"));
      ended_after = true;
      ended_waiting = false;
    })
    ∷ []
