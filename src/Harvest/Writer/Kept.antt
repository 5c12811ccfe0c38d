-- ===== src/Harvest/Writer/Kept.antt =====
-- The part files of CorpusWriter (api/internal/harvest/corpus.go): the invariant of the open parts, and
-- the steps of part.
use sentilyzer.Prelude.{
  ℕ, ==_iff, ◌≡◌, refl, inl, inr, Option, none, some, Str, str_eq, str_eq_iff, Bool-cases,
}
use sentilyzer.Prelude.Text.{codes}
use sentilyzer.Errors.{Result, done, fail}
use sentilyzer.Harvest.Storage.{Disk, File, IsDisk, Opened}
use sentilyzer.Harvest.Writer.{
  PartFile, Writer, bind_result, clock, close_part, part_dir, part_path, new_part, part, labelled,
  wrapped, return, on_disk,
}
use sentilyzer.Harvest.Writer.Quiet.{
  path_at, Calm-same, Calm-shut, Calm-open, Calm-trans, Quiet, Yields, later-Yields,
  bind_result-Yields, on_disk-Yields,
}

module _ (disk : Disk) (view : disk.State → ℕ → Option File) (is_disk : IsDisk disk view)
    (root platform : Str) where
  -- The part's file stands in the directory of the part's kind and date.
  abbrev pub Held : Str → PartFile → disk.State → Type 0
  Held kind p d =
      (started : ℕ) × (path_at (view d p.f)
        ≡ some (part_path disk root platform kind p.date started))

  abbrev pub AllHeld : Str → Option PartFile → disk.State → Type 0
  AllHeld kind none d = Unit
  AllHeld kind (some p) d = Held kind p d

  -- The writer's invariant.
  abbrev pub Ready : Writer disk.State → Type 0
  Ready w = AllHeld (codes "documents") w.docs w.disk × AllHeld (codes "tombstones") w.tomb w.disk

  pub clock-Yields :
      (w : Writer disk.State)
      → Yields disk view w (λ t v. t ≡ (disk.now w.disk).0) (clock disk root platform w)
  unfolding clock
  clock-Yields w =
      (record { docs = refl; tomb = refl; calm = Calm-same _ _ (is_disk.now_view w.disk) }, refl)

  mkdir-Yields :
      (path : Str) (w : Writer disk.State)
      → Yields disk view w
          (λ u v. Unit {0})
          (on_disk (labelled (codes "corpus mkdir: ") (disk.mkdir_all path)) w)
  mkdir-Yields path w =
      on_disk-Yields disk view (λ u v. Unit {0}) w _ _
        (Calm-same _ _ (is_disk.mkdir_view path w.disk)) (λ u e. tt)

  open-Yields :
      (path : Str) (w : Writer disk.State)
      → Yields disk view w
          (λ f v. path_at (view v.disk f) ≡ some path)
          (on_disk (labelled (codes "corpus open: ") (disk.open_new path)) w)
  open-Yields path w =
      opened (disk.open_new path w.disk).0 (disk.open_new path w.disk).1
        (is_disk.open_view path w.disk)
    where
      opened :
          (r : Result ℕ) (d : disk.State)
          → Opened (view w.disk) (view d) path r
          → Yields disk view w
              (λ f v. path_at (view v.disk f) ≡ some path)
              (wrapped (codes "corpus open: ") r, record w { disk = d })
      opened (done f) d (new, h) = (
        record { docs = refl; tomb = refl; calm = Calm-open _ _ path (done f) (new, h) },
        rw (h f, (==_iff f f).1 refl) refl,
      )
      opened (fail e) d h = record { docs = refl; tomb = refl; calm = Calm-same _ _ h }

  abbrev pub NewPart : Str → Str → PartFile → Writer disk.State → Type 0
  NewPart kind date p w = Held kind p w.disk × (p.date ≡ date)

  pub new_part-Yields :
      (kind date : Str) (w : Writer disk.State)
      → Yields disk view w (NewPart kind date) (new_part disk root platform kind date w)
  unfolding new_part
  new_part-Yields kind date w =
      let path = part_path disk root platform kind date in
      bind_result-Yields disk view w (λ u v. Unit {0}) (NewPart kind date) _ _
        (mkdir-Yields (part_dir disk root platform kind date) w)
        λ made v h.
          bind_result-Yields disk view v (λ t u. t ≡ (disk.now v.disk).0) (NewPart kind date)
            (clock disk root platform v) _ (clock-Yields v)
            λ started u k.
              bind_result-Yields disk view u _ (NewPart kind date) _
                (λ (f : ℕ). return (record { date = date; f = f })) (open-Yields (path started) u)
                λ f x e. (
                  record { docs = refl; tomb = refl; calm = Calm-same _ _ (λ j. refl) },
                  ((started, e), refl),
                )

  pub close_part-Yields :
      (p : PartFile) (w : Writer disk.State)
      → Yields disk view w (λ u v. Unit {0}) (close_part disk root platform p w)
  unfolding close_part
  close_part-Yields p w =
      let flushed = (disk.close_gzip p.f w.disk).1 in
      on_disk-Yields disk view (λ u v. Unit {0}) w _ _
        (Calm-trans _ _ _ (Calm-same _ _ (is_disk.gzip_view p.f w.disk))
          (Calm-shut _ _ p.f (is_disk.close_view p.f flushed)))
        (λ u e. tt)

  rotate-Yields :
      (kind date : Str) (p : PartFile) (w : Writer disk.State)
      → Yields disk view w (NewPart kind date) (
          bind_result
            (close_part disk root platform p w)
            (λ closed. new_part disk root platform kind date))
  rotate-Yields kind date p w =
      bind_result-Yields disk view w _ (NewPart kind date) _ _ (close_part-Yields p w)
        (λ u v h. new_part-Yields kind date v)

  Quiet-refl : (w : Writer disk.State) → Quiet disk view w w
  Quiet-refl w = record { docs = refl; tomb = refl; calm = Calm-same _ _ (λ j. refl) }

  pub Held-Quiet :
      (kind : Str) (p : PartFile) (w v : Writer disk.State)
      → Quiet disk view w v
      → Held kind p w.disk
      → Held kind p v.disk
  Held-Quiet kind p w v c (started, e) = (started, c.calm.paths p.f _ e)

  -- part returns a part of the day that the clock showed.
  pub part-Yields :
      (kind : Str) (current : Option PartFile) (w : Writer disk.State)
      → AllHeld kind current w.disk
      → Yields disk view w
          (NewPart kind (disk.day (disk.now w.disk).0))
          (part disk root platform kind current w)
  unfolding part
  part-Yields kind none w h =
      let date = disk.day (disk.now w.disk).0 in
      bind_result-Yields disk view w (λ t v. t ≡ (disk.now w.disk).0) (NewPart kind date)
        (clock disk root platform w) (λ (t : ℕ). new_part disk root platform kind (disk.day t))
        (clock-Yields w) λ t v e. rw e (new_part-Yields kind date v)
  part-Yields kind (some p) w h =
      let v = (clock disk root platform w).1 in
      let date = disk.day (disk.now w.disk).0 in
      later-Yields disk view w v (NewPart kind date) _ (clock-Yields w).0
        (elim (Bool-cases (str_eq p.date date)) [
          | inl same ↦ rw same (
            Quiet-refl v,
            (Held-Quiet kind p w v (clock-Yields w).0 h, (str_eq_iff p.date date).0 same),
          )
          | inr other ↦ rw other (rotate-Yields kind date p v)
        ])
