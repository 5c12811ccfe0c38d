-- ===== src/Harvest/Bluesky.antt =====
-- api/internal/harvest/bluesky.go: the filter and the handling of one event. SHA-256 to 64 bits is the
-- parameter `hash64`, and the comparisons with the sampling rate, a float64, are the record `Rate`.
pub mod Earned
pub mod Streamed
pub mod Reconnect
use sentilyzer.Prelude.{
  ℕ, ◌+◌, ◌%◌, ◌^◌, Bool, true, false, not, ◌&&◌, ◌||◌, Option, none, some, List, [], ◌∷◌, ◌++◌,
  Str, str_eq, ltb, if◌then◌else◌, ◌==◌,
}
use sentilyzer.Prelude.Int.{ℤ, pos, negsuc, is_positive}
use sentilyzer.Prelude.Text.{codes, is_empty, to_lower, trim_space, byte_len}
use sentilyzer.Errors.{Result, done, fail}
use sentilyzer.Harvest.Corpus.{Document}
use sentilyzer.Harvest.Sink.{Sink, Scope, Tombstone}
use sentilyzer.Harvest.Jetstream.{Event, Commit, Post, Account, post_collection}

-- rate >= 1, rate <= 0, and float64(v)/float64(^uint64(0)) < rate
pub record Rate : Type 0 where
  pub at_least_one : Bool
  pub at_most_zero : Bool
  pub above : ℕ → Bool

-- SampleHash of api/internal/harvest/corpus.go
unfoldable pub sample_hash : (Str → ℕ) → Str → Rate → Bool
sample_hash hash64 key rate =
    if rate.at_least_one then true else if rate.at_most_zero then false else rate.above (hash64 key)

pub record BlueskyFilter : Type 0 where
  pub langs : List Str
  pub min_chars : ℤ
  pub max_chars : ℤ
  pub sample_rate : Rate

-- the part before the first `sep`, or all
unfoldable pub before : ℕ → Str → Str
before sep [] = []
before sep (c ∷ s) = if c == sep then [] else c ∷ before sep s

-- int(n) < m, and int(n) > m, where m is positive
unfoldable pub too_short : ℕ → ℤ → Bool
too_short n (pos m) = ltb 0 m && ltb n m
too_short n (negsuc m) = false

unfoldable pub too_long : ℕ → ℤ → Bool
too_long n (pos m) = ltb 0 m && ltb m n
too_long n (negsuc m) = false

module _ (lower : ℕ → ℕ) (hash64 : Str → ℕ) where
  unfoldable pub wants_lang : Str → List Str → Bool
  wants_lang base [] = false
  wants_lang base (want ∷ wants) = str_eq base (to_lower lower want) || wants_lang base wants

  unfoldable pub any_lang : List Str → List Str → Bool
  unfolding wants_lang before
  any_lang wants [] = false
  any_lang wants (l ∷ ls) = wants_lang (before b'-' (to_lower lower l)) wants || any_lang wants ls

  unfoldable pub lang_admits : List Str → List Str → Bool
  unfolding any_lang
  lang_admits [] langs = true
  lang_admits (w ∷ ws) langs = any_lang (w ∷ ws) langs

  unfoldable pub admit : BlueskyFilter → Str → Str → List Str → Bool
  unfolding too_short too_long lang_admits sample_hash byte_len
  admit f doc_id text langs =
      let n = byte_len text in
      if too_short n f.min_chars
      then false
      else if too_long n f.max_chars
      then false
      else if not (lang_admits f.langs langs)
      then false
      else sample_hash hash64 doc_id f.sample_rate

-- the writer and the counters, which are int64
pub record BlueskyHarvester (S : Type 0) : Type 0 where
  pub writer : S
  pub docs : ℕ
  pub tombs : ℕ
  pub skipped : ℕ

unfoldable pub count : ℕ → ℕ
count n = (n + 1) % 2 ^ 64

unfoldable pub doc_id_of : Str → Commit → Str
doc_id_of did c = did ++ (codes "/" ++ (post_collection ++ (codes "/" ++ c.rkey)))

unfoldable pub account_tombstone : Str → Event → Tombstone
account_tombstone platform ev = record {
  platform = platform;
  scope = Scope.account;
  doc_id = [];
  author_did = ev.did;
  deleted_at = [];
}

unfoldable pub doc_tombstone : Str → Event → Commit → Tombstone
unfolding doc_id_of
doc_tombstone platform ev c = record {
  platform = platform;
  scope = Scope.doc;
  doc_id = doc_id_of ev.did c;
  author_did = ev.did;
  deleted_at = [];
}

unfoldable pub post_document : Str → Event → Commit → Post → Document
unfolding doc_id_of
post_document platform ev c p = record {
  platform = platform;
  doc_id = doc_id_of ev.did c;
  author_did = ev.did;
  author = [];
  text = trim_space p.text;
  langs = p.langs;
  created_at = p.created_at;
  harvested_at = [];
  content_sha = [];
  hash_version = 0;
}

module _ {S : Type 0} (sink : Sink S) (platform : Str) (lower : ℕ → ℕ) (hash64 : Str → ℕ)
    (filter : BlueskyFilter) where
  abbrev pub Handler : Type 0
  Handler = BlueskyHarvester S → Result (Unit {0}) × BlueskyHarvester S

  abbrev pub nothing : Handler
  nothing h = (done tt, h)

  unfoldable pub revoke : Tombstone → Handler
  unfolding count
  revoke t h =
      let r = sink.write_tombstone t h.writer in
      (r.0, record h { writer = r.1; tombs = count h.tombs })

  unfoldable pub keep : Document → Handler
  unfolding count
  keep d h =
      let r = sink.write_document d h.writer in
      (r.0, record h { writer = r.1; docs = count h.docs })

  unfoldable pub skip : Handler
  unfolding count
  skip h = (done tt, record h { skipped = count h.skipped })

  unfoldable pub handle_account : Event → Handler
  handle_account ev = elim ev.account [
    | none ↦ nothing
    | some a ↦ if not a.active then revoke (account_tombstone platform ev) else nothing
  ]

  unfoldable pub handle_post : Event → Commit → Post → Handler
  handle_post ev c p =
      if is_empty (trim_space p.text)
        || not (admit lower hash64 filter (doc_id_of ev.did c) (trim_space p.text) p.langs)
      then skip
      else keep (post_document platform ev c p)

  unfoldable pub handle_commit : Event → Commit → Handler
  handle_commit ev c =
      if not (str_eq c.collection post_collection)
      then nothing
      else if str_eq c.operation (codes "delete")
      then revoke (doc_tombstone platform ev c)
      else if str_eq c.operation (codes "create") || str_eq c.operation (codes "update")
      then elim c.post [ none ↦ nothing | some p ↦ handle_post ev c p ]
      else nothing

  unfoldable pub handle : Event → Handler
  handle ev =
      if str_eq ev.kind (codes "account")
      then handle_account ev
      else if str_eq ev.kind (codes "commit")
      then elim ev.commit [ none ↦ nothing | some c ↦ handle_commit ev c ]
      else nothing
