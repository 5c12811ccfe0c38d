-- ===== src/Tests/Cursors.antt =====
-- Witnesses on the cursor file of api/internal/harvest/corpus.go, over files in memory.
use sentilyzer.Prelude.{
  ℕ, zero, suc, ◌≡◌, refl, ◌∷◌, [], Option, none, some, Str, str_eq, if◌then◌else◌,
}
use sentilyzer.Prelude.Int.{pos}
use sentilyzer.Prelude.Text.{codes, itoa}
use sentilyzer.Errors.{text, Result, done, fail}
use sentilyzer.Harvest.Cursor.{
  CursorState, CursorDisk, IsCursorDisk, Files, Written, Read, load_cursor, save_cursor,
  then_replace, state_bytes, replace, then_rename,
}
use sentilyzer.Harvest.Cursor.Atomic.{save_all, load_cursor-save_all}

-- A file has a cursor, or is cut short; `room` writes are possible.
record Shelf : Type 0 where
  contents : Files (Option CursorState)
  room : ℕ

abbrev decode : Option CursorState → Result CursorState
decode none = fail (text (codes "unexpected end of JSON input"))
decode (some st) = done st

abbrev put : Str → Option CursorState → Shelf → Shelf
put path b s = record s { contents = λ p. if str_eq path p then some b else s.contents p }

-- The write that finds no room leaves a file that is cut short.
abbrev write : Str → Option CursorState → ℕ → Shelf → Result (Unit {0}) × Shelf
write path b zero s = (fail (text (codes "no space left")), put path none s)
write path b (suc n) s = (done tt, record (put path b s) { room = n })

abbrev move : Str → Str → Shelf → Shelf
move from to s = record s {
  contents =
      λ p. if str_eq to p then s.contents from else if str_eq from p then none else s.contents p;
}

abbrev contents_of : Option (Option CursorState) → Result (Option CursorState)
contents_of none = fail (text (codes "no such file"))
contents_of (some b) = done b

abbrev shelf : CursorDisk
shelf = record {
  State = Shelf;
  Bytes = Option CursorState;
  dir = λ p. codes "cursors";
  rfc3339 = λ t. itoa t;
  marshal = λ st. some st;
  unmarshal = decode;
  now = λ s. (0, s);
  mkdir_all = λ path s. (done tt, s);
  write_file = λ path b s. write path b s.room s;
  rename = λ from to s. (done tt, move from to s);
  read_file = λ path s. contents_of (s.contents path);
}

write-Written :
    (path : Str) (b : Option CursorState) (n : ℕ) (s : Shelf)
    → Written s.contents (write path b n s).1.contents path b (write path b n s).0
write-Written path b zero s = λ p other. rw other refl
write-Written path b (suc n) s = λ p. refl

contents_of-Read : (o : Option (Option CursorState)) → Read o (contents_of o)
contents_of-Read none = (_, refl)
contents_of-Read (some b) = refl

shelf-IsCursorDisk : IsCursorDisk shelf (λ s. s.contents)
shelf-IsCursorDisk = record {
  now_files = λ s p. refl;
  mkdir_files = λ path s p. refl;
  write_files = λ path b s. write-Written path b s.room s;
  rename_files = λ from to s p. refl;
  read_files = λ path s. contents_of-Read (s.contents path);
  unmarshal-marshal = λ t at. refl;
}

abbrev two_writes : Shelf
two_writes = record { contents = λ p. none; room = 2 }

abbrev cursor_file : Str
cursor_file = codes "bluesky.json"

-- The third save finds no room.
load_cursor-save_all_example :
    load_cursor shelf cursor_file
      (save_all shelf cursor_file (pos 7 ∷ pos 9 ∷ pos 11 ∷ []) two_writes).1
    ≡ pos 9
unfolding save_cursor then_replace state_bytes replace then_rename
load_cursor-save_all_example =
    load_cursor-save_all shelf (λ s. s.contents) shelf-IsCursorDisk cursor_file
      (pos 7 ∷ pos 9 ∷ pos 11 ∷ []) two_writes
