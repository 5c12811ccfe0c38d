-- ===== src/Tests/Memory.antt =====
-- Files in memory, in place of the disk of CorpusWriter (api/internal/harvest/corpus.go).
use sentilyzer.Prelude.{
  ℕ, zero, suc, ◌==◌, ==_iff, ◌≡◌, refl, sym, ap, ◌∙◌, Bool, true, false, Bool-cases, inl, inr,
  List, [], ◌∷◌, ◌++◌, length, get_elem?, set, Option, none, some, Str, if◌then◌else◌, arith,
}
use mathlib.Core.Option
use sentilyzer.Prelude.Text.{codes, join, itoa}
use sentilyzer.Errors.{text, Result, done, fail, GoError}
use sentilyzer.Harvest.Sink.{Row}
use sentilyzer.Harvest.Storage.{Disk, File, IsDisk, put_row, shut, changed, Encoded}

-- The clock stands still; a full disk makes no directory.
pub record Memory : Type 0 where
  pub files : List File
  pub clock : ℕ
  pub full : Bool

abbrev pub update_open : (File → File) → ℕ → Memory → File → Bool → Result (Unit {0}) × Memory
update_open g f m file true = (fail (text (codes "file already closed")), m)
update_open g f m file false = (done tt, record m { files = set m.files f (g file) })

abbrev pub update_at : (File → File) → ℕ → Memory → Option File → Result (Unit {0}) × Memory
update_at g f m none = (fail (text (codes "bad file descriptor")), m)
update_at g f m (some file) = update_open g f m file file.closed

abbrev pub update : (File → File) → ℕ → Memory → Result (Unit {0}) × Memory
update g f m = update_at g f m (get_elem? m.files f)

abbrev pub open_file : Str → Memory → Result ℕ × Memory
open_file path m = (
  done (length m.files),
  record m { files = m.files ++ (record { path = path; taken = []; closed = false }) ∷ [] },
)

abbrev pub memory : Disk
memory = record {
  State = Memory;
  join_path = join (codes "/");
  day = λ t. itoa t;
  rfc3339 = λ t. itoa t;
  now = λ m. (m.clock, m);
  mkdir_all = λ path m. (if m.full then fail (text (codes "no space left")) else done tt, m);
  open_new = open_file;
  encode = λ f r. update (put_row r) f;
  close_gzip = λ f m. (done tt, m);
  close_file = update shut;
}

abbrev pub look : Memory → ℕ → Option File
look m = get_elem? m.files

get_elem?-new :
    (files : List File) (new : File) (j : ℕ)
    → get_elem? (files ++ new ∷ []) j ≡ (if length files == j then some new else get_elem? files j)
get_elem?-new [] new zero = refl
get_elem?-new [] new (suc j) = ground arith
get_elem?-new (f ∷ files) new zero = ground arith
get_elem?-new (f ∷ files) new (suc j) = ground (arith, get_elem?-new files new j)

get_elem?-past : (files : List File) → get_elem? files (length files) ≡ none
get_elem?-past [] = refl
get_elem?-past (f ∷ files) = get_elem?-past files

suc_same : (f j : ℕ) → (suc f == suc j) ≡ (f == j)
suc_same f j = ground arith

get_elem?-update :
    (files : List File) (g : File → File) (f j : ℕ) {file : File}
    → get_elem? files f ≡ some file
    → get_elem? (set files f (g file)) j ≡ changed (get_elem? files) f g j
get_elem?-update [] g f j h = cc
get_elem?-update (x ∷ files) g zero zero {file = file} h =
    let same : x ≡ file = cc in ap (λ y. some (g y)) (sym same)
get_elem?-update (x ∷ files) g zero (suc j) h = ground arith
get_elem?-update (x ∷ files) g (suc f) zero h = ground arith
get_elem?-update (x ∷ files) g (suc f) (suc j) {file = file} h =
    rw (suc_same f j) (get_elem?-update files g f j h)

changed_none :
    (o : Option File) (b : Bool) (g : File → File)
    → o ≡ none
    → o ≡ (if b then Option.map g o else o)
changed_none none true g h = refl
changed_none none false g h = refl
changed_none (some file) b g h = cc

changed_shut :
    (o : Option File) (b : Bool) (file : File)
    → o ≡ some file
    → file.closed ≡ true
    → o ≡ (if b then Option.map shut o else o)
changed_shut none b file h c = cc
changed_shut (some file) false other h c = refl
changed_shut (some file) true other h c =
    let same : file ≡ other = cc in
    let c' : file.closed ≡ true = ap (λ f. f.closed) same ∙ c in
    ap (λ k. some (record file { closed = k })) c'

encode_open :
    (f : ℕ) (r : Row) (m : Memory) (file : File) (b : Bool)
    → get_elem? m.files f ≡ some file
    → Encoded
        (look m)
        (look (update_open (put_row r) f m file b).1)
        f
        r
        (update_open (put_row r) f m file b).0
encode_open f r m file true e = λ j. refl
encode_open f r m file false e = λ j. get_elem?-update m.files (put_row r) f j e

encode_at :
    (f : ℕ) (r : Row) (m : Memory) (o : Option File)
    → get_elem? m.files f ≡ o
    → Encoded (look m) (look (update_at (put_row r) f m o).1) f r (update_at (put_row r) f m o).0
encode_at f r m none e = λ j. refl
encode_at f r m (some file) e = encode_open f r m file file.closed e

here : (f j : ℕ) (files : List File) → (f == j) ≡ true → get_elem? files j ≡ get_elem? files f
here f j files h = ap (get_elem? files) (sym ((==_iff f j).0 h))

close_open' :
    (f : ℕ) (m : Memory) (file : File) (b : Bool)
    → get_elem? m.files f ≡ some file
    → file.closed ≡ b
    → (j : ℕ) → look (update_open shut f m file b).1 j ≡ changed (look m) f shut j
close_open' f m file false e c j = get_elem?-update m.files shut f j e
close_open' f m file true e c j = elim (Bool-cases (f == j)) [
  | inl same ↦ rw same (changed_shut (get_elem? m.files j) true file (here f j m.files same ∙ e) c)
  | inr other ↦ rw other refl
]

close_at :
    (f : ℕ) (m : Memory) (o : Option File)
    → get_elem? m.files f ≡ o
    → (j : ℕ) → look (update_at shut f m o).1 j ≡ changed (look m) f shut j
close_at f m none e j = elim (Bool-cases (f == j)) [
  | inl same ↦ rw same (changed_none (get_elem? m.files j) true shut (here f j m.files same ∙ e))
  | inr other ↦ rw other refl
]
close_at f m (some file) e j = close_open' f m file file.closed e refl j

close_again :
    (f : ℕ) (m : Memory) (file : File) (o : Option File)
    → o ≡ some file
    → file.closed ≡ true
    → (e : GoError) × ((update_at shut f m o).0 ≡ fail e)
close_again f m file none h c = cc
close_again f m file (some other) h c =
    let same : other ≡ file = cc in
    let c' : other.closed ≡ true = ap (λ g. g.closed) same ∙ c in
    (text (codes "file already closed"), rw c' refl)

pub memory-IsDisk : IsDisk memory look
memory-IsDisk = record {
  now_view = λ m j. refl;
  mkdir_view = λ path m j. refl;
  open_view = λ path m. (get_elem?-past m.files, get_elem?-new m.files _);
  encode_view = λ f r m. encode_at f r m (get_elem? m.files f) refl;
  gzip_view = λ f m j. refl;
  close_view = λ f m j. close_at f m (get_elem? m.files f) refl j;
  close_twice = λ f m file h c. close_again f m file (get_elem? m.files f) h c;
}
