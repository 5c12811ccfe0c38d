-- ===== src/Harvest/Writer/Stuck.antt =====
-- A rotation of CorpusWriter that fails (api/internal/harvest/corpus.go, part and closePart).
use sentilyzer.Prelude.{
  ℕ, ==_iff, ◌≡◌, ◌≢◌, refl, sym, subst, ◌∙◌, ◌⊎◌, inl, inr, true, Bool-cases, List, [], ◌∷◌,
  Option, none, some, Str, str_eq, str_eq_iff,
}
use mathlib.Core.Option
use sentilyzer.Prelude.Text.{codes}
use sentilyzer.Errors.{GoError, Result, done, fail, Result-cases}
use sentilyzer.Harvest.Corpus.{Document}
use sentilyzer.Harvest.Storage.{Disk, File, IsDisk, shut}
use sentilyzer.Harvest.Writer.{
  PartFile, Writer, Action, bind_result, clock, close_part, new_part, part, write_document,
}
use sentilyzer.Harvest.Writer.Quiet.{path_at, closed_at, Yields}
use sentilyzer.Harvest.Writer.Kept.{clock-Yields, close_part-Yields, new_part-Yields, NewPart}

module _ (disk : Disk) (view : disk.State → ℕ → Option File) (is_disk : IsDisk disk view)
    (root platform : Str) where
  closed_at-map-shut :
      (file : Option File) {q : Str}
      → path_at file ≡ some q
      → closed_at (Option.map shut file) ≡ true
  closed_at-map-shut none h = cc
  closed_at-map-shut (some file) h = refl

  close_part_closes :
      (p : PartFile) (w : Writer disk.State) {q : Str}
      → path_at (view w.disk p.f) ≡ some q
      → closed_at (view (close_part disk root platform p w).1.disk p.f) ≡ true
  unfolding close_part
  close_part_closes p w {q = q} h =
      let d = (disk.close_gzip p.f w.disk).1 in
      rw (is_disk.close_view p.f d p.f, (==_iff p.f p.f).1 refl)
        (closed_at-map-shut (view d p.f) {q = q} (rw (is_disk.gzip_view p.f w.disk p.f) h))

  closed_file :
      (d : disk.State) (f : ℕ)
      → closed_at (view d f) ≡ true
      → (e : GoError) × ((disk.close_file f d).0 ≡ fail e)
  closed_file d f h = from (view d f) refl h
    where
      from :
          (o : Option File)
          → view d f ≡ o
          → closed_at o ≡ true
          → (e : GoError) × ((disk.close_file f d).0 ≡ fail e)
      from none e h = cc
      from (some file) e h = is_disk.close_twice f d file e h

  close_part_again :
      (p : PartFile) (w : Writer disk.State)
      → closed_at (view w.disk p.f) ≡ true
      → (e : GoError) × ((close_part disk root platform p w).0 ≡ fail e)
  unfolding close_part
  close_part_again p w h =
      let d = (disk.close_gzip p.f w.disk).1 in
      let (e, again) = closed_file d p.f (rw (is_disk.gzip_view p.f w.disk p.f) h) in
      elim (Result-cases (disk.close_gzip p.f w.disk).0) [
        | inl (u, ok) ↦ (e, rw ok again)
        | inr (e', bad) ↦ (e', rw bad refl)
      ]

  -- A failure that leaves a closed part in the writer.
  abbrev Stuck : {A : Type 0} → PartFile → Writer disk.State → Result A × Writer disk.State → Type 0
  Stuck p w (done a, v) = ⊥
  Stuck p w (fail e, v) = (v.docs ≡ w.docs) × (closed_at (view v.disk p.f) ≡ true)

  Stuck-facts :
      {A : Type 0} (p : PartFile) (w : Writer disk.State) (r : Result A × Writer disk.State)
      → Stuck p w r
      → ((e : GoError) × (r.0 ≡ fail e))
        × (r.1.docs ≡ w.docs)
        × (closed_at (view r.1.disk p.f) ≡ true)
  Stuck-facts p w (done a, v) h = elim h [ ]
  Stuck-facts p w (fail e, v) (d, c) = ((e, refl), d, c)

  closed_there : (o : Option File) → closed_at o ≡ true → (q : Str) × (path_at o ≡ some q)
  closed_there none h = cc
  closed_there (some file) h = (file.path, refl)

  NewPart-Stuck :
      (kind date : Str) (p : PartFile) (w v : Writer disk.State)
      (r : Result PartFile × Writer disk.State)
      → Yields disk view v (NewPart disk view is_disk root platform kind date) r
      → v.docs ≡ w.docs
      → closed_at (view v.disk p.f) ≡ true
      → ((e : GoError) × (r.0 ≡ fail e))
      → Stuck p w r
  NewPart-Stuck kind date p w v (done a, x) y e c (err, h) = cc
  NewPart-Stuck kind date p w v (fail a, x) y e c h = (y.docs ∙ e, y.calm.closed p.f c)

  rotate-Stuck :
      (kind date : Str) (p : PartFile) (w u : Writer disk.State)
      (r : Result (Unit {0}) × Writer disk.State)
      → Yields disk view u (λ a v. Unit {0}) r
      → u.docs ≡ w.docs
      → closed_at (view r.1.disk p.f) ≡ true
      → ((e : GoError) × (r.0 ≡ fail e))
        ⊎ ((e : GoError) × ((new_part disk root platform kind date r.1).0 ≡ fail e))
      → Stuck p w (bind_result r (λ closed. new_part disk root platform kind date))
  rotate-Stuck kind date p w u (fail e, v) y d c h = (y.docs ∙ d, c)
  rotate-Stuck kind date p w u (done a, v) y d c (inl (e, h)) = cc
  rotate-Stuck kind date p w u (done a, v) (y, t) d c (inr h) =
      NewPart-Stuck kind date p w v _ (new_part-Yields disk view is_disk root platform kind date v)
        (y.docs ∙ d) c h

  Stuck-bind_result :
      {A B : Type 0} (p : PartFile) (w : Writer disk.State) (r : Result A × Writer disk.State)
      (k : A → Action disk.State B)
      → Stuck p w r
      → Stuck p w (bind_result r k)
  Stuck-bind_result p w (done a, v) k h = elim h [ ]
  Stuck-bind_result p w (fail e, v) k h = h

  -- The part that is to be closed, and the state in which part closes it.
  abbrev at_close : Writer disk.State → Writer disk.State
  at_close w = (clock disk root platform w).1

  abbrev today : Writer disk.State → Str
  today w = disk.day (disk.now w.disk).0

  -- part closes the old part, and then fails; or it was closed before.
  abbrev FailsToRotate : PartFile → Writer disk.State → Type 0
  FailsToRotate p w =
      (closed_at (view w.disk p.f) ≡ true)
      ⊎ ((e : GoError) × ((new_part disk root platform (codes "documents") (today w)
              (close_part disk root platform p (at_close w)).1).0
            ≡ fail e))

  part-Stuck :
      (p : PartFile) (w : Writer disk.State) {q : Str}
      → p.date ≢ today w
      → path_at (view w.disk p.f) ≡ some q
      → FailsToRotate p w
      → Stuck p w (part disk root platform (codes "documents") (some p) w)
  unfolding part
  part-Stuck p w {q = q} other h why =
      let u = at_close w in
      let c = (clock-Yields disk view is_disk root platform w).0 in
      let there = c.calm.paths p.f q h in
      elim (Bool-cases (str_eq p.date (today w))) [
        | inl same ↦ absurd (other ((str_eq_iff p.date (today w)).0 same))
        | inr differs ↦ rw differs (
            rotate-Stuck (codes "documents") (today w) p w u (close_part disk root platform p u)
              (close_part-Yields disk view is_disk root platform p u) c.docs
              (close_part_closes p u {q = q} there)
              (elim why [
                | inl closed ↦ inl (close_part_again p u (c.calm.closed p.f closed))
                | inr failed ↦ inr failed
              ]))
      ]

  module _ (lower : ℕ → ℕ) (hash : Str → Str) where
    write-Stuck :
        (d : Document) (p : PartFile) (w : Writer disk.State) {q : Str}
        → w.docs ≡ some p
        → p.date ≢ today w
        → path_at (view w.disk p.f) ≡ some q
        → FailsToRotate p w
        → Stuck p w (write_document disk root platform lower hash d w)
    unfolding write_document
    write-Stuck d p w {q = q} o other h why =
        Stuck-bind_result p w (part disk root platform (codes "documents") w.docs w) _ (
          subst (λ c. Stuck p w (part disk root platform (codes "documents") c w)) (sym o)
            (part-Stuck p w {q = q} other h why))

    -- The clock does not show the date of the part when one of these is written.
    abbrev pub MovedOn : PartFile → List Document → Writer disk.State → Type 0
    MovedOn p [] w = Unit
    MovedOn p (d ∷ ds) w =
        (p.date ≢ today w) × MovedOn p ds (write_document disk root platform lower hash d w).1

    -- Every one of these writes fails.
    abbrev pub AllFail : List Document → Writer disk.State → Type 0
    AllFail [] w = Unit
    AllFail (d ∷ ds) w =
        ((e : GoError) × ((write_document disk root platform lower hash d w).0 ≡ fail e))
        × AllFail ds (write_document disk root platform lower hash d w).1

    -- Where the open part for documents is of another day than the clock shows, and no part for the new day can be
    -- made after it is closed, this write and every later one fails, whether or not the disk has recovered, until the
    -- clock shows the old part's day again.
    pub write_document_stuck :
        (ds : List Document) (p : PartFile) (w : Writer disk.State) {q : Str}
        → w.docs ≡ some p
        → path_at (view w.disk p.f) ≡ some q
        → FailsToRotate p w
        → MovedOn p ds w
        → AllFail ds w
    write_document_stuck [] p w o h why moved = tt
    write_document_stuck (d ∷ ds) p w {q = q} o h why (other, moved) =
        let r = write_document disk root platform lower hash d w in
        let (failed, docs, closed) = Stuck-facts p w r (write-Stuck d p w {q = q} o other h why) in
        let (path, there) = closed_there (view r.1.disk p.f) closed in
        (failed, write_document_stuck ds p r.1 {q = path} (docs ∙ o) there (inl closed) moved)
