-- ===== src/Harvest/Cursor.antt =====
-- api/internal/harvest/corpus.go: the cursor file, SaveCursor and LoadCursor. The file system, the
-- clock and the JSON codec are parameters.
use sentilyzer.Prelude.{
  ◌≡◌, ◌∷◌, [], ◌++◌, ℕ, false, List, Option, none, some, Str, str_eq, if◌then◌else◌,
}
use sentilyzer.Prelude.Int.{ℤ, pos}
use sentilyzer.Prelude.Text.{codes}
pub mod Atomic
use sentilyzer.Errors.{GoError, Result, done, fail}

pub record CursorState : Type 0 where
  pub time_us : ℤ
  pub saved_at : Str

-- `dir` is filepath.Dir, `rfc3339` the format of the time in UTC, and `Bytes` the contents of a file.
pub record CursorDisk : Type 1 where
  pub State : Type 0
  pub Bytes : Type 0
  pub dir : Str → Str
  pub rfc3339 : ℕ → Str
  pub marshal : CursorState → Bytes
  pub unmarshal : Bytes → Result CursorState
  pub now : State → ℕ × State
  pub mkdir_all : Str → State → Result (Unit {0}) × State
  pub write_file : Str → Bytes → State → Result (Unit {0}) × State
  pub rename : Str → Str → State → Result (Unit {0}) × State
  pub read_file : Str → State → Result Bytes

abbrev pub Files : Type 0 → Type 0
Files Bytes = Str → Option Bytes

-- A file that could not be written has any contents, or is gone; no other file has changed.
abbrev pub Written :
    {Bytes : Type 0} → Files Bytes → Files Bytes → Str → Bytes → Result (Unit {0}) → Type 0
Written files files' path b (done u) =
    (p : Str) → files' p ≡ (if str_eq path p then some b else files p)
Written files files' path b (fail e) = (p : Str) → str_eq path p ≡ false → files' p ≡ files p

-- The new name has what the old one had; a rename that fails changes nothing.
abbrev pub Renamed :
    {Bytes : Type 0} → Files Bytes → Files Bytes → Str → Str → Result (Unit {0}) → Type 0
Renamed files files' from to (done u) =
    (p : Str)
    → files' p ≡ (if str_eq to p then files from else if str_eq from p then none else files p)
Renamed files files' from to (fail e) = (p : Str) → files' p ≡ files p

abbrev pub Read : {Bytes : Type 0} → Option Bytes → Result Bytes → Type 0
Read none r = (e : GoError) × (r ≡ fail e)
Read (some b) r = r ≡ done b

-- `files` are the contents by path, and the decoder reads back what the encoder writes for a cursor.
pub record IsCursorDisk (disk : CursorDisk) (files : disk.State → Files disk.Bytes) : Type 0 where
  pub now_files : (d : disk.State) (p : Str) → files (disk.now d).1 p ≡ files d p
  pub mkdir_files :
      (path : Str) (d : disk.State) (p : Str) → files (disk.mkdir_all path d).1 p ≡ files d p
  pub write_files :
      (path : Str) (b : disk.Bytes) (d : disk.State)
      → Written (files d) (files (disk.write_file path b d).1) path b (disk.write_file path b d).0
  pub rename_files :
      (from to : Str) (d : disk.State)
      → Renamed (files d) (files (disk.rename from to d).1) from to (disk.rename from to d).0
  pub read_files : (path : Str) (d : disk.State) → Read (files d path) (disk.read_file path d)
  pub unmarshal-marshal :
      (t : ℤ) (at : ℕ)
      → let st : CursorState = record { time_us = t; saved_at = disk.rfc3339 at } in
        disk.unmarshal (disk.marshal st) ≡ done st

-- `json.Unmarshal(b, &st) != nil`
unfoldable pub decoded_time : Result CursorState → ℤ
decoded_time (done st) = st.time_us
decoded_time (fail err) = pos 0

module _ (disk : CursorDisk) (path : Str) where
  abbrev pub tmp : Str
  tmp = path ++ codes ".tmp"

  -- `return os.Rename(tmp, path)`, if the file is written
  unfoldable pub then_rename : Result (Unit {0}) × disk.State → Result (Unit {0}) × disk.State
  then_rename (done u, d) = disk.rename tmp path d
  then_rename (fail err, d) = (fail err, d)

  unfoldable pub replace : disk.Bytes → disk.State → Result (Unit {0}) × disk.State
  unfolding then_rename
  replace b d = then_rename (disk.write_file tmp b d)

  -- the bytes that are stored, with the time of the save
  unfoldable pub state_bytes : ℤ → ℕ → disk.Bytes
  state_bytes time_us at = disk.marshal (record { time_us = time_us; saved_at = disk.rfc3339 at })

  unfoldable pub then_replace : ℤ → Result (Unit {0}) × disk.State → Result (Unit {0}) × disk.State
  unfolding state_bytes replace
  then_replace time_us (fail err, d) = (fail err, d)
  then_replace time_us (done u, d) = let at = disk.now d in replace (state_bytes time_us at.0) at.1

  unfoldable pub save_cursor : ℤ → disk.State → Result (Unit {0}) × disk.State
  unfolding then_replace
  save_cursor time_us d = then_replace time_us (disk.mkdir_all (disk.dir path) d)

  unfoldable pub load_cursor : disk.State → ℤ
  unfolding decoded_time
  load_cursor d = elim (disk.read_file path d) [
    | fail err ↦ pos 0
    | done b ↦ decoded_time (disk.unmarshal b)
  ]
