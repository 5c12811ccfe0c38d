-- ===== src/Harvest/Storage.antt =====
-- What CorpusWriter (api/internal/harvest/corpus.go) uses of the libraries: files under a gzip writer
-- and a JSON encoder, and the clock.
use sentilyzer.Prelude.{
  ℕ, ◌==◌, ◌≡◌, Bool, true, false, List, [], ◌∷◌, ◌++◌, Option, none, some, Str, if◌then◌else◌,
}
use mathlib.Core.Option
use sentilyzer.Errors.{GoError, Result, done, fail}
use sentilyzer.Harvest.Sink.{Row}

-- A file is known by a number, its handle; `join_path` is filepath.Join, `day` and `rfc3339` are formats of a UTC
-- time.
pub record Disk : Type 1 where
  pub State : Type 0
  pub join_path : List Str → Str
  pub day : ℕ → Str
  pub rfc3339 : ℕ → Str
  pub now : State → ℕ × State
  pub mkdir_all : Str → State → Result (Unit {0}) × State
  pub open_new : Str → State → Result ℕ × State
  pub encode : ℕ → Row → State → Result (Unit {0}) × State
  pub close_gzip : ℕ → State → Result (Unit {0}) × State
  pub close_file : ℕ → State → Result (Unit {0}) × State

-- The path of a file, the rows that its encoder has taken without an error, and whether it is closed. The rows are a
-- record of the calls: what a gzip writer still buffers when its Close fails is among them, though not on the disk.
pub record File : Type 0 where
  pub path : Str
  pub taken : List Row
  pub closed : Bool

abbrev pub put_row : Row → File → File
put_row r file = record file { taken = file.taken ++ r ∷ [] }

abbrev pub shut : File → File
shut file = record file { closed = true }

-- `view` with the file `f` changed.
abbrev pub changed : (ℕ → Option File) → ℕ → (File → File) → ℕ → Option File
changed view f g j = if f == j then Option.map g (view j) else view j

abbrev pub Opened : (ℕ → Option File) → (ℕ → Option File) → Str → Result ℕ → Type 0
Opened view view' path (done f) =
    (view f ≡ none)
    × ((j : ℕ)
        → view' j
          ≡ (if f == j then some (record { path = path; taken = []; closed = false }) else view j))
Opened view view' path (fail e) = (j : ℕ) → view' j ≡ view j

abbrev pub Encoded : (ℕ → Option File) → (ℕ → Option File) → ℕ → Row → Result (Unit {0}) → Type 0
Encoded view view' f r (done u) = (j : ℕ) → view' j ≡ changed view f (put_row r) j
Encoded view view' f r (fail e) = (j : ℕ) → view' j ≡ view j

-- A file is opened under a path that no file has, O_EXCL; an encoder takes a row or refuses it; closing a
-- file that is closed is an error.
pub record IsDisk (disk : Disk) (view : disk.State → ℕ → Option File) : Type 0 where
  pub now_view : (d : disk.State) (j : ℕ) → view (disk.now d).1 j ≡ view d j
  pub mkdir_view :
      (path : Str) (d : disk.State) (j : ℕ) → view (disk.mkdir_all path d).1 j ≡ view d j
  pub open_view :
      (path : Str) (d : disk.State)
      → Opened (view d) (view (disk.open_new path d).1) path (disk.open_new path d).0
  pub encode_view :
      (f : ℕ) (r : Row) (d : disk.State)
      → Encoded (view d) (view (disk.encode f r d).1) f r (disk.encode f r d).0
  pub gzip_view : (f : ℕ) (d : disk.State) (j : ℕ) → view (disk.close_gzip f d).1 j ≡ view d j
  pub close_view :
      (f : ℕ) (d : disk.State) (j : ℕ) → view (disk.close_file f d).1 j ≡ changed (view d) f shut j
  pub close_twice :
      (f : ℕ) (d : disk.State) (file : File)
      → view d f ≡ some file
      → file.closed ≡ true
      → (e : GoError) × ((disk.close_file f d).0 ≡ fail e)
