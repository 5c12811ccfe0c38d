-- ===== src/Harvest/Cursor/Atomic.antt =====
-- A cursor file is replaced as a whole (api/internal/harvest/corpus.go, SaveCursor and LoadCursor).
use sentilyzer.Prelude.{
  ℕ, ◌≡◌, refl, sym, ap, ◌∙◌, true, false, List, [], ◌∷◌, ◌++◌, Option, none, some, Str, str_eq,
  str_eq_iff, arith,
}
use sentilyzer.Prelude.Int.{ℤ, pos}
use sentilyzer.Prelude.Text.{codes}
use sentilyzer.Errors.{Result, done, fail}
use sentilyzer.Harvest.Cursor.{
  CursorDisk, then_rename, state_bytes, then_replace, IsCursorDisk, Files, Written, Renamed, Read,
  replace, save_cursor, load_cursor, decoded_time, tmp,
}

-- A path with more characters is another path.
pub str_eq-longer : (p s : Str) (x : ℕ) → str_eq (p ++ x ∷ s) p ≡ false
unfolding str_eq
str_eq-longer [] s x = refl
str_eq-longer (y ∷ p) s x = ground (arith, str_eq-longer p s x)

-- The time that is loaded after a save: the new one if it succeeded, else the old one.
abbrev pub kept : ℤ → ℤ → Result (Unit {0}) → ℤ
kept old new (done u) = new
kept old new (fail e) = old

-- The last time that was saved without an error, or `old`.
abbrev pub last_kept : ℤ → List ℤ → List (Result (Unit {0})) → ℤ
last_kept old (t ∷ ts) (r ∷ rs) = last_kept (kept old t r) ts rs
last_kept old _ _ = old

module _ (disk : CursorDisk) (path : Str) where
  -- The saves of a run, one after the other: their results and the disk.
  abbrev pub save_all : List ℤ → disk.State → List (Result (Unit {0})) × disk.State
  save_all [] d = ([], d)
  save_all (t ∷ ts) d =
      let r = save_cursor disk path t d in let rest = save_all ts r.1 in (r.0 ∷ rest.0, rest.1)

module _ (disk : CursorDisk) (files : disk.State → Files disk.Bytes)
    (laws : IsCursorDisk disk files) (path : Str) where
  -- What LoadCursor makes of the contents of the file.
  abbrev time_in : Option disk.Bytes → ℤ
  time_in none = pos 0
  time_in (some b) = decoded_time (disk.unmarshal b)

  load-Read :
      (o : Option disk.Bytes) (r : Result disk.Bytes)
      → Read o r
      → (elim r [ fail err ↦ pos 0 | done b ↦ decoded_time (disk.unmarshal b) ]) ≡ time_in o
  unfolding decoded_time
  load-Read none r (e, h) = rw h refl
  load-Read (some b) r h = rw h refl

  load-time_in : (d : disk.State) → load_cursor disk path d ≡ time_in (files d path)
  unfolding load_cursor
  load-time_in d = load-Read (files d path) (disk.read_file path d) (laws.read_files path d)

  -- The contents under `path` after a replacement with `b`, which may fail.
  abbrev replaced : Option disk.Bytes → disk.Bytes → Result (Unit {0}) → Option disk.Bytes
  replaced old b (done u) = some b
  replaced old b (fail e) = old

  other_path : str_eq (tmp disk path) path ≡ false
  other_path = str_eq-longer path (codes "tmp") 46

  same_path : (p : Str) → str_eq p p ≡ true
  same_path p = (str_eq_iff p p).1 refl

  renamed_lem :
      (f g h : Files disk.Bytes) (b : disk.Bytes) (r : Result (Unit {0}))
      → Written f g (tmp disk path) b (done tt)
      → Renamed g h (tmp disk path) path r
      → h path ≡ replaced (f path) b r
  renamed_lem f g h b (done u) w k =
      rw (k path, same_path path, w (tmp disk path), same_path (tmp disk path)) refl
  renamed_lem f g h b (fail e) w k = rw (k path, w path, other_path) refl

  then_rename-replaced :
      (b : disk.Bytes) (d : disk.State) (w : Result (Unit {0}) × disk.State)
      → Written (files d) (files w.1) (tmp disk path) b w.0
      → files (then_rename disk path w).1 path
        ≡ replaced (files d path) b (then_rename disk path w).0
  unfolding then_rename
  then_rename-replaced b d (done u, d') h =
      let r = disk.rename (tmp disk path) path d' in
      renamed_lem (files d) (files d') (files r.1) b r.0 h
        (laws.rename_files (tmp disk path) path d')
  then_rename-replaced b d (fail e, d') h = h path other_path

  replace-replaced :
      (b : disk.Bytes) (d : disk.State)
      → files (replace disk path b d).1 path ≡ replaced (files d path) b (replace disk path b d).0
  unfolding replace
  replace-replaced b d =
      then_rename-replaced b d (disk.write_file (tmp disk path) b d)
        (laws.write_files (tmp disk path) b d)

  time_in-replaced :
      (old : Option disk.Bytes) (t : ℤ) (at : ℕ) (r : Result (Unit {0}))
      → time_in (replaced old (state_bytes disk path t at) r) ≡ kept (time_in old) t r
  unfolding state_bytes decoded_time
  time_in-replaced old t at (done u) = rw (laws.unmarshal-marshal t at) refl
  time_in-replaced old t at (fail e) = refl

  then_replace-kept :
      (t : ℤ) (d : disk.State) (m : Result (Unit {0}) × disk.State)
      → files m.1 path ≡ files d path
      → time_in (files (then_replace disk path t m).1 path)
        ≡ kept (time_in (files d path)) t (then_replace disk path t m).0
  unfolding then_replace
  then_replace-kept t d (fail e, d') h = ap time_in h
  then_replace-kept t d (done u, d') h =
      let at = disk.now d' in
      let b = state_bytes disk path t at.0 in
      let old = ap time_in (laws.now_files d' path ∙ h) in
      let r = (replace disk path b at.1).0 in
      ap time_in (replace-replaced b at.1)
      ∙ time_in-replaced (files at.1 path) t at.0 r
      ∙ ap (λ o. kept o t r) old

  save_cursor-kept :
      (t : ℤ) (d : disk.State)
      → load_cursor disk path (save_cursor disk path t d).1
        ≡ kept (load_cursor disk path d) t (save_cursor disk path t d).0
  unfolding save_cursor
  save_cursor-kept t d =
      let made = disk.mkdir_all (disk.dir path) d in
      load-time_in (save_cursor disk path t d).1
      ∙ then_replace-kept t d made (laws.mkdir_files (disk.dir path) d path)
      ∙ ap (λ o. kept o t (save_cursor disk path t d).0) (sym (load-time_in d))

  -- After any number of calls of `SaveCursor` on one path, some of which may have failed at any step and left
  -- anything under the temporary name, `LoadCursor` gives the time of the last call that returned no error, or, if
  -- there is none, what it gave before.
  pub load_cursor-save_all :
      (ts : List ℤ) (d : disk.State)
      → load_cursor disk path (save_all disk path ts d).1
        ≡ last_kept (load_cursor disk path d) ts (save_all disk path ts d).0
  load_cursor-save_all [] d = refl
  load_cursor-save_all (t ∷ ts) d =
      let r = save_cursor disk path t d in
      load_cursor-save_all ts r.1
      ∙ ap (λ o. last_kept o ts (save_all disk path ts r.1).0) (save_cursor-kept t d)
