-- ===== src/Harvest/Writer.antt =====
-- api/internal/harvest/corpus.go: CorpusWriter. The files, gzip and the JSON encoder, the clock, the
-- formats of a time and filepath.Join are parameters. The mutex makes each method one step.
use sentilyzer.Prelude.{ℕ, ◌∷◌, [], ◌++◌, List, Option, none, some, Str, str_eq, if◌then◌else◌}
use sentilyzer.Prelude.Text.{codes, itoa}
pub mod Quiet
pub mod Kept
pub mod Refines
pub mod Stuck
pub mod Landing
use sentilyzer.Errors.{GoError, wrap, Result, done, fail}
use sentilyzer.Harvest.Corpus.{Document, stamp}
use sentilyzer.Harvest.Sink.{Tombstone, Row, stamp_tombstone, Sink}
use sentilyzer.Harvest.Storage.{Disk}

-- partFile: the date, and the file under the gzip writer and the encoder.
pub record PartFile : Type 0 where
  pub date : Str
  pub f : ℕ

-- The fields of the writer that change, and the state of the disk.
pub record Writer (D : Type 0) : Type 0 where
  pub disk : D
  pub docs : Option PartFile
  pub tomb : Option PartFile

abbrev pub Action : Type 0 → Type 0 → Type 0
Action D A = Writer D → Result A × Writer D

abbrev pub return : {D A : Type 0} → A → Action D A
return a w = (done a, w)

abbrev pub bind_result :
    {D A B : Type 0} → Result A × Writer D → (A → Action D B) → Result B × Writer D
bind_result (done a, w) k = k a w
bind_result (fail e, w) k = (fail e, w)

infixl 5 ◌>>=◌
abbrev pub ◌>>=◌ : {D A B : Type 0} → Action D A → (A → Action D B) → Action D B
m >>= k = λ w. bind_result (m w) k

-- A call of the disk, with the text that `fmt.Errorf` puts before its error.
abbrev pub on_disk : {D A : Type 0} → (D → Result A × D) → Action D A
on_disk call w = let r = call w.disk in (r.0, record w { disk = r.1 })

abbrev pub wrapped : {A : Type 0} → Str → Result A → Result A
wrapped before (done a) = done a
wrapped before (fail e) = fail (wrap before e [])

abbrev pub labelled : {D A : Type 0} → Str → (D → Result A × D) → D → Result A × D
labelled before call d = let r = call d in (wrapped before r.0, r.1)

module _ (disk : Disk) (root platform : Str) where
  unfoldable pub clock : Action disk.State ℕ
  clock = on_disk (λ d. (done (disk.now d).0, (disk.now d).1))

  -- closePart of a part that is there: the file is closed whether or not gzip closes
  unfoldable pub close_part : PartFile → Action disk.State (Unit {0})
  close_part p w =
      let flushed = disk.close_gzip p.f w.disk in
      let closed = disk.close_file p.f flushed.1 in
      (elim flushed.0 [ done u ↦ closed.0 | fail err ↦ fail err ], record w { disk = closed.1 })

  unfoldable pub part_dir : Str → Str → Str
  part_dir kind date =
      disk.join_path (root ∷ kind ∷ (codes "dt=" ++ date) ∷ (codes "platform=" ++ platform) ∷ [])

  unfoldable pub part_path : Str → Str → ℕ → Str
  unfolding part_dir
  part_path kind date started =
      disk.join_path
        (part_dir kind date ∷ (codes "part-" ++ (itoa started ++ codes ".jsonl.gz")) ∷ [])

  unfoldable pub new_part : Str → Str → Action disk.State PartFile
  unfolding clock part_dir part_path
  new_part kind date = do
    made ← on_disk (labelled (codes "corpus mkdir: ") (disk.mkdir_all (part_dir kind date)))
    started ← clock
    f ← on_disk (labelled (codes "corpus open: ") (disk.open_new (part_path kind date started)))
    return (record { date = date; f = f })

  unfoldable pub part : Str → Option PartFile → Action disk.State PartFile
  unfolding clock close_part new_part
  part kind none = do t ← clock; new_part kind (disk.day t)
  part kind (some p) =
      let rotate : Str → Action disk.State PartFile =
        λ date. (do closed ← close_part p; new_part kind date) in
      (do t ← clock; if str_eq p.date (disk.day t) then return p else rotate (disk.day t))

  unfoldable pub set_docs : PartFile → Action disk.State (Unit {0})
  set_docs p w = (done tt, record w { docs = some p })

  unfoldable pub set_tomb : PartFile → Action disk.State (Unit {0})
  set_tomb p w = (done tt, record w { tomb = some p })

  module _ (lower : ℕ → ℕ) (hash : Str → Str) where
    unfoldable pub write_document : Document → Action disk.State (Unit {0})
    unfolding part set_docs
    write_document d w =
        (do
          p ← part (codes "documents") w.docs
          kept ← set_docs p
          at ← clock
          on_disk (disk.encode p.f (Row.document (stamp lower hash (disk.rfc3339 at) d))))
          w

  unfoldable pub write_tombstone : Tombstone → Action disk.State (Unit {0})
  unfolding part set_tomb
  write_tombstone t w =
      (do
        p ← part (codes "tombstones") w.tomb
        kept ← set_tomb p
        at ← clock
        on_disk (disk.encode p.f (Row.tombstone (stamp_tombstone (disk.rfc3339 at) t))))
        w

  unfoldable pub close_open : Option PartFile → Action disk.State (Unit {0})
  unfolding close_part
  close_open none = return tt
  close_open (some p) = close_part p

  -- both parts are closed, and the first error is returned
  unfoldable pub close : Action disk.State (Unit {0})
  unfolding close_open
  close w =
      let docs = close_open w.docs w in
      let tomb = close_open w.tomb docs.1 in
      (
        elim docs.0 [ done u ↦ tomb.0 | fail err ↦ fail err ],
        record tomb.1 { docs = none; tomb = none },
      )
