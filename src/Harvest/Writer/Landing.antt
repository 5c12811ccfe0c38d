-- ===== src/Harvest/Writer/Landing.antt =====
-- Where a row of CorpusWriter lands (api/internal/harvest/corpus.go, WriteDocument and WriteTombstone).
use sentilyzer.Prelude.{
  ℕ, ◌==◌, ==_iff, ◌≡◌, refl, subst, ap, sym, ◌∙◌, Bool, true, false, [], ◌∷◌, ◌++◌, Option, none,
  some, Str, if◌then◌else◌,
}
use mathlib.Core.Option
use sentilyzer.Prelude.Text.{codes}
use sentilyzer.Errors.{Result, done, fail}
use sentilyzer.Harvest.Corpus.{Document, stamp}
use sentilyzer.Harvest.Sink.{Row, Tombstone, stamp_tombstone}
use sentilyzer.Harvest.Storage.{Disk, File, IsDisk, put_row, Encoded}
use sentilyzer.Harvest.Writer.{
  PartFile, Writer, Action, bind_result, clock, part_path, ◌>>=◌, set_docs, set_tomb,
  write_document, write_tombstone, on_disk,
}
use sentilyzer.Harvest.Writer.Kept.{Held, AllHeld, Ready, NewPart, part-Yields}
use sentilyzer.Harvest.Writer.Quiet.{rows_at, path_at, Calm, Quiet, Yields}

module _ (disk : Disk) (view : disk.State → ℕ → Option File) (is_disk : IsDisk disk view)
    (root platform : Str) where
  abbrev InPlace : Str → PartFile → Writer disk.State → Type 0
  InPlace kind p w = Held disk view is_disk root platform kind p w.disk

  -- The row is at the end of a part of its kind and of the day, or no file has changed its rows.
  abbrev pub Lands :
      Str → Writer disk.State → (Str → Row) → Result (Unit {0}) × Writer disk.State → Type 0
  Lands kind w row (done u, v) =
      (f : ℕ) × (started : ℕ) × (at : Str) × (path_at (view v.disk f)
        ≡ some (part_path disk root platform kind (disk.day (disk.now w.disk).0) started))
      × ((j : ℕ)
          → rows_at (view v.disk j) ≡ (
              if f == j then rows_at (view w.disk j) ++ (row at ∷ []) else rows_at (view w.disk j)))
  Lands kind w row (fail e, v) = (j : ℕ) → rows_at (view v.disk j) ≡ rows_at (view w.disk j)

  rows_at-put :
      (b : Bool) (r : Row) (file : Option File) {p : Str}
      → (b ≡ true → path_at file ≡ some p)
      → rows_at (if b then Option.map (put_row r) file else file)
        ≡ (if b then rows_at file ++ (r ∷ []) else rows_at file)
  rows_at-put true r none h = cc (h refl)
  rows_at-put true r (some file) h = refl
  rows_at-put false r file h = refl

  path_at-put :
      (b : Bool) (r : Row) (file : Option File)
      → path_at (if b then Option.map (put_row r) file else file) ≡ path_at file
  path_at-put true r none = refl
  path_at-put true r (some file) = refl
  path_at-put false r file = refl

  -- The step that ends WriteDocument and WriteTombstone.
  append_row : (Str → Row) → PartFile → Action disk.State (Unit {0})
  append_row row p =
      clock disk root platform >>= (λ at. on_disk (disk.encode p.f (row (disk.rfc3339 at))))

  -- What of the writer and the paths stays.
  pub record Stays (w v : Writer disk.State) : Type 0 where
    pub docs : v.docs ≡ w.docs
    pub tomb : v.tomb ≡ w.tomb
    pub paths :
        (j : ℕ) (q : Str) → path_at (view w.disk j) ≡ some q → path_at (view v.disk j) ≡ some q

  abbrev Grew :
      PartFile → Writer disk.State → (Str → Row) → Result (Unit {0}) × Writer disk.State → Type 0
  Grew p w row (done u, v) =
      Stays w v
      × ((at : Str) × ((j : ℕ)
            → rows_at (view v.disk j) ≡ (
                if p.f == j
                then rows_at (view w.disk j) ++ (row at ∷ [])
                else rows_at (view w.disk j))))
  Grew p w row (fail e, v) =
      Stays w v × ((j : ℕ) → rows_at (view v.disk j) ≡ rows_at (view w.disk j))

  append_row-Grew :
      (row : Str → Row) (p : PartFile) (w : Writer disk.State) {path : Str}
      → path_at (view w.disk p.f) ≡ some path
      → Grew p w row (append_row row p w)
  unfolding append_row clock
  append_row-Grew row p w {path = path} h =
      let r = disk.encode p.f (row at) d in encoded r.0 r.1 (is_disk.encode_view p.f (row at) d)
    where
      d : disk.State
      d = (disk.now w.disk).1

      at : Str
      at = disk.rfc3339 (disk.now w.disk).0

      same : (j : ℕ) → view d j ≡ view w.disk j
      same j = is_disk.now_view w.disk j

      there : (j : ℕ) → (p.f == j) ≡ true → path_at (view d j) ≡ some path
      there j b = rw (same j) (ap (λ i. path_at (view w.disk i)) (sym ((==_iff p.f j).0 b)) ∙ h)

      encoded :
          (r : Result (Unit {0})) (d' : disk.State)
          → Encoded (view d) (view d') p.f (row at) r
          → Grew p w row (r, record w { disk = d' })
      encoded (done u) d' e = (
        record {
          docs = refl;
          tomb = refl;
          paths = λ j q k. rw (e j, path_at-put (p.f == j) (row at) (view d j), same j) k;
        },
        (
          at,
          λ j. rw (e j, rows_at-put (p.f == j) (row at) (view d j) (there j)) (rw (same j) refl),
        ),
      )
      encoded (fail err) d' e = (
        record { docs = refl; tomb = refl; paths = λ j q k. rw (e j, same j) k },
        λ j. rw (e j, same j) refl,
      )

  -- From the part that part returned to the whole write.
  Grew-Lands :
      (kind : Str) (w v : Writer disk.State) (p : PartFile) (row : Str → Row)
      (r : Result (Unit {0}) × Writer disk.State)
      → Calm (view w.disk) (view v.disk)
      → InPlace kind p v
      → p.date ≡ disk.day (disk.now w.disk).0
      → Grew p v row r
      → Lands kind w row r
  Grew-Lands kind w v p row (done u, x) c (started, h) e (stays, (at, g)) = (
    p.f,
    started,
    at,
    stays.paths p.f _ (
        subst
          (λ date.
            path_at (view v.disk p.f) ≡ some (part_path disk root platform kind date started))
          e h),
    λ j. rw (g j, c.rows j) refl,
  )
  Grew-Lands kind w v p row (fail err, x) c h e (stays, g) = λ j. g j ∙ c.rows j

  AllHeld-Stays :
      (kind : Str) (o : Option PartFile) (w v : Writer disk.State)
      → ((j : ℕ) (q : Str) → path_at (view w.disk j) ≡ some q → path_at (view v.disk j) ≡ some q)
      → AllHeld disk view is_disk root platform kind o w.disk
      → AllHeld disk view is_disk root platform kind o v.disk
  AllHeld-Stays kind none w v paths h = tt
  AllHeld-Stays kind (some p) w v paths (started, h) = (started, paths p.f _ h)

  Ready-Stays :
      (w v : Writer disk.State)
      → Stays w v
      → Ready disk view is_disk root platform w
      → Ready disk view is_disk root platform v
  Ready-Stays w v s (h, k) = (
    subst (λ o. AllHeld disk view is_disk root platform (codes "documents") o v.disk) (sym s.docs)
        (AllHeld-Stays (codes "documents") w.docs w v s.paths h),
    subst (λ o. AllHeld disk view is_disk root platform (codes "tombstones") o v.disk) (sym s.tomb)
        (AllHeld-Stays (codes "tombstones") w.tomb w v s.paths k),
  )

  Ready-Quiet :
      (w v : Writer disk.State)
      → Quiet disk view w v
      → Ready disk view is_disk root platform w
      → Ready disk view is_disk root platform v
  Ready-Quiet w v c =
      Ready-Stays w v (record { docs = c.docs; tomb = c.tomb; paths = c.calm.paths })

  -- A write: the row lands, and the invariant is kept.
  abbrev pub WrittenRow :
      Str → Writer disk.State → (Str → Row) → Result (Unit {0}) × Writer disk.State → Type 0
  WrittenRow kind w row r = Lands kind w row r × Ready disk view is_disk root platform r.1

  Grew-Ready :
      (p : PartFile) (v : Writer disk.State) (row : Str → Row)
      (r : Result (Unit {0}) × Writer disk.State)
      → Grew p v row r
      → Ready disk view is_disk root platform v
      → Ready disk view is_disk root platform r.1
  Grew-Ready p v row (done u, x) (stays, g) h = Ready-Stays v x stays h
  Grew-Ready p v row (fail e, x) (stays, g) h = Ready-Stays v x stays h

  set_docs-row :
      (w : Writer disk.State) (row : Str → Row) (r : Result PartFile × Writer disk.State)
      → Ready disk view is_disk root platform w
      → Yields disk view w
          (NewPart disk view is_disk root platform
            (codes "documents")
            (disk.day (disk.now w.disk).0))
          r
      → WrittenRow
          (codes "documents")
          w
          row
          (bind_result r (λ p. set_docs disk root platform p >>= (λ kept. append_row row p)))
  unfolding set_docs
  set_docs-row w row (fail e, v) h c = (c.calm.rows, Ready-Quiet w v c h)
  set_docs-row w row (done p, v) h (c, (held, e)) =
      let u = record v { docs = some p } in
      let grew = append_row-Grew row p u (held.1) in
      (
        Grew-Lands (codes "documents") w u p row (append_row row p u) c.calm held e grew,
        Grew-Ready p u row (append_row row p u) grew (held, (Ready-Quiet w v c h).1),
      )

  set_tomb-row :
      (w : Writer disk.State) (row : Str → Row) (r : Result PartFile × Writer disk.State)
      → Ready disk view is_disk root platform w
      → Yields disk view w
          (NewPart disk view is_disk root platform
            (codes "tombstones")
            (disk.day (disk.now w.disk).0))
          r
      → WrittenRow
          (codes "tombstones")
          w
          row
          (bind_result r (λ p. set_tomb disk root platform p >>= (λ kept. append_row row p)))
  unfolding set_tomb
  set_tomb-row w row (fail e, v) h c = (c.calm.rows, Ready-Quiet w v c h)
  set_tomb-row w row (done p, v) h (c, (held, e)) =
      let u = record v { tomb = some p } in
      let grew = append_row-Grew row p u (held.1) in
      (
        Grew-Lands (codes "tombstones") w u p row (append_row row p u) c.calm held e grew,
        Grew-Ready p u row (append_row row p u) grew ((Ready-Quiet w v c h).0, held),
      )

  module _ (lower : ℕ → ℕ) (hash : Str → Str) where
    pub document_row :
        (d : Document) (w : Writer disk.State)
        → Ready disk view is_disk root platform w
        → WrittenRow
            (codes "documents")
            w
            (λ at. Row.document (stamp lower hash at d))
            (write_document disk root platform lower hash d w)
    unfolding write_document append_row
    document_row d w h =
        set_docs-row w (λ at. Row.document (stamp lower hash at d)) _ h
          (part-Yields disk view is_disk root platform (codes "documents") w.docs w h.0)

  pub tombstone_row :
      (t : Tombstone) (w : Writer disk.State)
      → Ready disk view is_disk root platform w
      → WrittenRow
          (codes "tombstones")
          w
          (λ at. Row.tombstone (stamp_tombstone at t))
          (write_tombstone disk root platform t w)
  unfolding write_tombstone append_row
  tombstone_row t w h =
      set_tomb-row w (λ at. Row.tombstone (stamp_tombstone at t)) _ h
        (part-Yields disk view is_disk root platform (codes "tombstones") w.tomb w h.1)

  -- The parts that the writer has open stand where the source says. A write that succeeds has its row, stamped,
  -- taken by the encoder of one part, after the rows that it took before, and the part is of its kind and of the UTC day
  -- that the clock shows; no other encoder takes a row, and on a write that fails none does. Either keeps the open parts where they should stand.
  pub write_rows :
      (lower : ℕ → ℕ) (hash : Str → Str) (d : Document) (t : Tombstone) (w : Writer disk.State)
      → Ready disk view is_disk root platform w
      → WrittenRow
          (codes "documents")
          w
          (λ at. Row.document (stamp lower hash at d))
          (write_document disk root platform lower hash d w)
        × WrittenRow
            (codes "tombstones")
            w
            (λ at. Row.tombstone (stamp_tombstone at t))
            (write_tombstone disk root platform t w)
  write_rows lower hash d t w h = (document_row lower hash d w h, tombstone_row t w h)
