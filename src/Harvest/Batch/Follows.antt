-- ===== src/Harvest/Batch/Follows.antt =====
-- A batch harvester writes what it reads (api/internal/harvest/rss.go, gdelt.go): a run compared with a plan of
-- what is read, and the rules for the steps of a run.
use sentilyzer.Prelude.{ℕ, zero, suc, ◌≡◌, refl, List, [], ◌∷◌, Option, none, some}
use sentilyzer.Errors.{GoError, Result, done, fail}
use sentilyzer.Harvest.Corpus.{Document}
use sentilyzer.Harvest.Sink.{Sink}
use sentilyzer.Harvest.Bluesky.{count}
use sentilyzer.Harvest.Batch.{Harvester, chain, write_counted, write_found, unless_ended}

-- A counter after k increments.
abbrev pub counts : ℕ → ℕ → ℕ
counts n zero = n
counts n (suc k) = counts (count n) k

-- What the feeds hold, read without a writer: the documents in order, the items without text, the feeds that
-- failed, and how the loop over the feeds ends.
pub record Plan : Type 0 where
  pub docs : List Document
  pub blanks : ℕ
  pub failures : ℕ
  pub ending : Result (Unit {0})

abbrev pub ending_with : Result (Unit {0}) → Plan
ending_with r = record { docs = []; blanks = 0; failures = 0; ending = r }

abbrev pub with_item : Option Document → Plan → Plan
with_item none p = record p { blanks = suc p.blanks }
with_item (some d) p = record p { docs = d ∷ p.docs }

abbrev pub with_failure : Plan → Plan
with_failure p = record p { failures = suc p.failures }

-- The documents written one after the other, up to the first error: the error, the number of calls and the writer.
pub record Stored (S : Type 0) : Type 0 where
  pub result : Result (Unit {0})
  pub calls : ℕ
  pub writer : S

abbrev pub store_next : {S : Type 0} → Result (Unit {0}) × S → (S → Stored S) → Stored S
store_next (fail e, s) k = record { result = fail e; calls = 1; writer = s }
store_next (done u, s) k =
    let rest = k s in record { result = rest.result; calls = suc rest.calls; writer = rest.writer }

abbrev pub store_all : {S : Type 0} → Sink S → List Document → S → Stored S
store_all sink [] s = record { result = done tt; calls = 0; writer = s }
store_all sink (d ∷ docs) s = store_next (sink.write_document d s) (λ s'. store_all sink docs s')

-- A run from `h` stores the documents of the plan and counts the calls; it ends with the error of a write, or else
-- as planned, with the items without text and the failed feeds counted.
pub record Follows {S : Type 0} (r : Result (Unit {0}) × Harvester S) (h : Harvester S)
    (w : Stored S) (p : Plan) : Type 0 where
  pub writer : r.1.writer ≡ w.writer
  pub docs : r.1.docs ≡ counts h.docs w.calls
  pub stopped : (e : GoError) → w.result ≡ fail e → r.0 ≡ fail e
  pub ending : w.result ≡ done tt → r.0 ≡ p.ending
  pub skipped : w.result ≡ done tt → r.1.skipped ≡ counts h.skipped p.blanks
  pub failed : w.result ≡ done tt → r.1.failed ≡ counts h.failed p.failures

abbrev pub unless_stopped : Option GoError → Plan → Plan
unless_stopped (some err) p = ending_with (fail err)
unless_stopped none p = p

module _ {S : Type 0} (sink : Sink S) where
  abbrev pub Obeys : (Harvester S → Result (Unit {0}) × Harvester S) → Plan → Type 0
  Obeys k p = (h : Harvester S) → Follows (k h) h (store_all sink p.docs h.writer) p

  write-Follows :
      (doc : Document) (p : Plan) (f k : Harvester S → Result (Unit {0}) × Harvester S)
      → Obeys (λ g. chain (f g) k) p
      → (h : Harvester S) (w : Result (Unit {0}) × S)
      → Follows
          (chain (chain (w.0, record h { writer = w.1; docs = count h.docs }) f) k)
          h
          (store_next w (λ s. store_all sink p.docs s))
          (with_item (some doc) p)
  unfolding count
  write-Follows doc p f k obeys h (fail e, s) = record {
    writer = refl;
    docs = refl;
    stopped = λ e' x. x;
    ending = λ x. cc;
    skipped = λ x. cc;
    failed = λ x. cc;
  }
  write-Follows doc p f k obeys h (done u, s) =
      let o = obeys (record h { writer = s; docs = count h.docs }) in
      record {
        writer = o.writer;
        docs = o.docs;
        stopped = o.stopped;
        ending = o.ending;
        skipped = o.skipped;
        failed = o.failed;
      }

  pub found-Obeys :
      (d : Option Document) (p : Plan) (f k : Harvester S → Result (Unit {0}) × Harvester S)
      → Obeys (λ g. chain (f g) k) p
      → Obeys (λ h. chain (write_found sink d f h) k) (with_item d p)
  unfolding write_found write_counted count
  found-Obeys none p f k obeys h =
      let o = obeys (record h { skipped = count h.skipped }) in
      record {
        writer = o.writer;
        docs = o.docs;
        stopped = o.stopped;
        ending = o.ending;
        skipped = o.skipped;
        failed = o.failed;
      }
  found-Obeys (some doc) p f k obeys h =
      write-Follows doc p f k obeys h (sink.write_document doc h.writer)

  pub failed-Obeys :
      (p : Plan) (k : Harvester S → Result (Unit {0}) × Harvester S)
      → Obeys k p
      → Obeys (λ h. k (record h { failed = count h.failed })) (with_failure p)
  unfolding count
  failed-Obeys p k obeys h =
      let o = obeys (record h { failed = count h.failed }) in
      record {
        writer = o.writer;
        docs = o.docs;
        stopped = o.stopped;
        ending = o.ending;
        skipped = o.skipped;
        failed = o.failed;
      }

  pub return-Obeys : (r : Result (Unit {0})) → Obeys (λ h. (r, h)) (ending_with r)
  return-Obeys r h = record {
    writer = refl;
    docs = refl;
    stopped = λ e' x. cc;
    ending = λ x. refl;
    skipped = λ x. refl;
    failed = λ x. refl;
  }

  pub unless_ended-Obeys :
      (err : Option GoError) (p : Plan) (k : Harvester S → Result (Unit {0}) × Harvester S)
      → Obeys k p
      → Obeys (unless_ended err k) (unless_stopped err p)
  unless_ended-Obeys none p k obeys h = obeys h
  unless_ended-Obeys (some e) p k obeys h = return-Obeys (fail e) h
