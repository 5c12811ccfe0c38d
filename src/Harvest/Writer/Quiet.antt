-- ===== src/Harvest/Writer/Quiet.antt =====
-- What the steps of CorpusWriter leave alone (api/internal/harvest/corpus.go): a postcondition and its
-- rule for a chain of steps.
use sentilyzer.Prelude.{
  ℕ, ◌==◌, ◌≡◌, refl, ap, sym, ==_iff, ◌∙◌, Bool, true, false, List, [], Option, none, some, Str,
  if◌then◌else◌,
}
use mathlib.Core.Option
use sentilyzer.Errors.{Result, done, fail}
use sentilyzer.Harvest.Sink.{Row}
use sentilyzer.Harvest.Storage.{Disk, File, changed, shut, Opened}
use sentilyzer.Harvest.Writer.{Writer, Action, bind_result}

abbrev pub rows_at : Option File → List Row
rows_at none = []
rows_at (some file) = file.taken

abbrev pub path_at : Option File → Option Str
path_at none = none
path_at (some file) = some file.path

abbrev pub closed_at : Option File → Bool
closed_at none = false
closed_at (some file) = file.closed

-- No file has another path or other rows than before, and none that was closed is open.
pub record Calm (view view' : ℕ → Option File) : Type 0 where
  pub rows : (j : ℕ) → rows_at (view' j) ≡ rows_at (view j)
  pub paths : (j : ℕ) (p : Str) → path_at (view j) ≡ some p → path_at (view' j) ≡ some p
  pub closed : (j : ℕ) → closed_at (view j) ≡ true → closed_at (view' j) ≡ true

pub Calm-trans : (u v w : ℕ → Option File) → Calm u v → Calm v w → Calm u w
Calm-trans u v w c d = record {
  rows = λ j. d.rows j ∙ c.rows j;
  paths = λ j p h. d.paths j p (c.paths j p h);
  closed = λ j h. d.closed j (c.closed j h);
}

pub Calm-same : (view view' : ℕ → Option File) → ((j : ℕ) → view' j ≡ view j) → Calm view view'
Calm-same view view' h = record {
  rows = λ j. rw (h j) refl;
  paths = λ j p k. rw (h j) k;
  closed = λ j k. rw (h j) k;
}

rows_at-shut :
    (b : Bool) (file : Option File)
    → rows_at (if b then Option.map shut file else file) ≡ rows_at file
rows_at-shut true none = refl
rows_at-shut true (some file) = refl
rows_at-shut false file = refl

path_at-shut :
    (b : Bool) (file : Option File)
    → path_at (if b then Option.map shut file else file) ≡ path_at file
path_at-shut true none = refl
path_at-shut true (some file) = refl
path_at-shut false file = refl

closed_at-shut :
    (b : Bool) (file : Option File)
    → closed_at file ≡ true
    → closed_at (if b then Option.map shut file else file) ≡ true
closed_at-shut true none h = cc
closed_at-shut true (some file) h = refl
closed_at-shut false file h = h

pub Calm-shut :
    (view view' : ℕ → Option File) (f : ℕ)
    → ((j : ℕ) → view' j ≡ changed view f shut j)
    → Calm view view'
Calm-shut view view' f h = record {
  rows = λ j. rw (h j) (rows_at-shut (f == j) (view j));
  paths = λ j p k. rw (h j, path_at-shut (f == j) (view j)) k;
  closed = λ j k. rw (h j) (closed_at-shut (f == j) (view j) k);
}

rows_at-new :
    (b : Bool) (file : File) (old : Option File)
    → file.taken ≡ []
    → (b ≡ true → old ≡ none)
    → rows_at (if b then some file else old) ≡ rows_at old
rows_at-new true file old h new = rw (new refl) h
rows_at-new false file old h new = refl

path_at-new :
    (b : Bool) (file : File) (old : Option File) (p : Str)
    → (b ≡ true → old ≡ none)
    → path_at old ≡ some p
    → path_at (if b then some file else old) ≡ some p
path_at-new true file none p new h = cc
path_at-new true file (some g) p new h = cc (new refl)
path_at-new false file old p new h = h

closed_at-new :
    (b : Bool) (file : File) (old : Option File)
    → (b ≡ true → old ≡ none)
    → closed_at old ≡ true
    → closed_at (if b then some file else old) ≡ true
closed_at-new true file none new h = cc
closed_at-new true file (some g) new h = cc (new refl)
closed_at-new false file old new h = h

pub Calm-open :
    (view view' : ℕ → Option File) (path : Str) (r : Result ℕ)
    → Opened view view' path r
    → Calm view view'
Calm-open view view' path (fail e) h = Calm-same view view' h
Calm-open view view' path (done f) (new, h) =
    let fresh = λ (j : ℕ) (e : (f == j) ≡ true). ap view (sym ((==_iff f j).0 e)) ∙ new in
    record {
      rows = λ j. rw (h j) (rows_at-new (f == j) _ (view j) refl (fresh j));
      paths = λ j p k. rw (h j) (path_at-new (f == j) _ (view j) p (fresh j) k);
      closed = λ j k. rw (h j) (closed_at-new (f == j) _ (view j) (fresh j) k);
    }

-- The state of the disk alone may have changed, and it is calm.
pub record Quiet (disk : Disk) (view : disk.State → ℕ → Option File) (w w' : Writer disk.State)
    : Type 0 where
  pub docs : w'.docs ≡ w.docs
  pub tomb : w'.tomb ≡ w.tomb
  pub calm : Calm (view w.disk) (view w'.disk)

module _ (disk : Disk) (view : disk.State → ℕ → Option File) where
  abbrev pub Yields :
      {A : Type 0}
      → Writer disk.State
      → (A → Writer disk.State → Type 0)
      → Result A × Writer disk.State
      → Type 0
  Yields w Q (done a, w') = Quiet disk view w w' × Q a w'
  Yields w Q (fail e, w') = Quiet disk view w w'

  pub Quiet-trans :
      (u v w : Writer disk.State) → Quiet disk view u v → Quiet disk view v w → Quiet disk view u w
  Quiet-trans u v w c d = record {
    docs = d.docs ∙ c.docs;
    tomb = d.tomb ∙ c.tomb;
    calm = Calm-trans (view u.disk) (view v.disk) (view w.disk) c.calm d.calm;
  }

  pub later-Yields :
      {B : Type 0} (u v : Writer disk.State) (R : B → Writer disk.State → Type 0)
      (r : Result B × Writer disk.State)
      → Quiet disk view u v
      → Yields v R r
      → Yields u R r
  later-Yields u v R (done b, w) c (d, k) = (Quiet-trans u v w c d, k)
  later-Yields u v R (fail e, w) c d = Quiet-trans u v w c d

  -- The rule for a chain.
  pub bind_result-Yields :
      {A B : Type 0} (u : Writer disk.State) (Q : A → Writer disk.State → Type 0)
      (R : B → Writer disk.State → Type 0) (m : Result A × Writer disk.State)
      (k : A → Action disk.State B)
      → Yields u Q m
      → ((a : A) (v : Writer disk.State) → Q a v → Yields v R (k a v))
      → Yields u R (bind_result m k)
  bind_result-Yields u Q R (done a, v) k (c, q) next = later-Yields u v R (k a v) c (next a v q)
  bind_result-Yields u Q R (fail e, v) k c next = c

  -- A call of the disk that leaves the files calm.
  pub on_disk-Yields :
      {A : Type 0} (Q : A → Writer disk.State → Type 0) (w : Writer disk.State) (r : Result A)
      (d : disk.State)
      → Calm (view w.disk) (view d)
      → ((a : A) → r ≡ done a → Q a (record w { disk = d }))
      → Yields w Q (r, record w { disk = d })
  on_disk-Yields Q w (done a) d c q = (record { docs = refl; tomb = refl; calm = c }, q a refl)
  on_disk-Yields Q w (fail e) d c q = record { docs = refl; tomb = refl; calm = c }
