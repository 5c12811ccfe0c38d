-- ===== src/Harvest/Writer/Refines.antt =====
-- CorpusWriter as the sink of the harvesters (api/internal/harvest/corpus.go).
use sentilyzer.Prelude.{
  ℕ, ◌==◌, ==_iff, ◌≡◌, refl, sym, ◌↔◌, ◌⊎◌, inl, inr, Bool-cases, List, [], ◌∷◌, ◌++◌, Option, Str,
  if◌then◌else◌,
}
use sentilyzer.Prelude.Text.{codes}
use sentilyzer.Prelude.Members.{In}
use sentilyzer.Errors.{Result, done, fail}
use sentilyzer.Harvest.Corpus.{stamp}
use sentilyzer.Harvest.Sink.{Row, Sink, IsSink, Wrote, stamp_tombstone}
use sentilyzer.Harvest.Storage.{Disk, File, IsDisk}
use sentilyzer.Harvest.Writer.{Writer, write_document, write_tombstone}
use sentilyzer.Harvest.Writer.Quiet.{rows_at}
use sentilyzer.Harvest.Writer.Kept.{Ready}
use sentilyzer.Harvest.Writer.Landing.{WrittenRow, document_row, tombstone_row}

In-cons :
    {A : Type 0} (a r x : A) (xs : List A)
    → In a (xs ++ r ∷ []) ↔ (In a xs ⊎ (a ≡ r))
    → In a (x ∷ (xs ++ r ∷ [])) ↔ (In a (x ∷ xs) ⊎ (a ≡ r))
In-cons a r x xs ih = (there, back)
  where
    there : (x ≡ a) ⊎ In a (xs ++ r ∷ []) → ((x ≡ a) ⊎ In a xs) ⊎ (a ≡ r)
    there (inl e) = inl (inl e)
    there (inr m) = elim (ih.0 m) [ inl i ↦ inl (inr i) | inr e ↦ inr e ]

    back : ((x ≡ a) ⊎ In a xs) ⊎ (a ≡ r) → (x ≡ a) ⊎ In a (xs ++ r ∷ [])
    back (inl (inl e)) = inl e
    back (inl (inr i)) = inr (ih.1 (inl i))
    back (inr e) = inr (ih.1 (inr e))

In-snoc : {A : Type 0} (a r : A) (xs : List A) → In a (xs ++ r ∷ []) ↔ (In a xs ⊎ (a ≡ r))
In-snoc a r [] = (
  (λ m. elim m [ inl e ↦ inr (sym e) | inr x ↦ inl x ]),
  λ m. elim m [ inl x ↦ inr x | inr e ↦ inl (sym e) ],
)
In-snoc a r (x ∷ xs) = In-cons a r x xs (In-snoc a r xs)

-- The rows of every file, where those of one file have grown.
module _ (rows rows' : ℕ → List Row) where
  abbrev Anywhere : (ℕ → List Row) → Row → Type 0
  Anywhere at r = (j : ℕ) × In r (at j)

  Anywhere-same : ((j : ℕ) → rows' j ≡ rows j) → (r : Row) → Anywhere rows' r ↔ Anywhere rows r
  Anywhere-same h r = ((λ (j, m). (j, rw (← h j) m)), λ (j, m). (j, rw (h j) m))

  Anywhere-grown :
      (f : ℕ) (new : Row)
      → ((j : ℕ) → rows' j ≡ (if f == j then rows j ++ (new ∷ []) else rows j))
      → (r : Row) → Anywhere rows' r ↔ (Anywhere rows r ⊎ (r ≡ new))
  Anywhere-grown f new h r = (there, back)
    where
      there : Anywhere rows' r → Anywhere rows r ⊎ (r ≡ new)
      there (j, m) = elim (Bool-cases (f == j)) [
        | inl here ↦ elim ((In-snoc r new (rows j)).0 (rw (h j, here) at m)) [
          | inl i ↦ inl (j, i)
          | inr e ↦ inr e
        ]
        | inr else' ↦ inl (j, rw (h j, else') at m)
      ]

      back : Anywhere rows r ⊎ (r ≡ new) → Anywhere rows' r
      back (inl (j, m)) = elim (Bool-cases (f == j)) [
        | inl here ↦ (j, rw (h j, here) ((In-snoc r new (rows j)).1 (inl m)))
        | inr else' ↦ (j, rw (h j, else') m)
      ]
      back (inr e) = (f, rw (h f, (==_iff f f).1 refl) ((In-snoc r new (rows f)).1 (inr e)))

module _ (disk : Disk) (view : disk.State → ℕ → Option File) (is_disk : IsDisk disk view)
    (root platform : Str) (lower : ℕ → ℕ) (hash : Str → Str) where
  -- The writer as a sink.
  abbrev pub writer_sink : Sink (Writer disk.State)
  writer_sink = record {
    write_document = write_document disk root platform lower hash;
    write_tombstone = write_tombstone disk root platform;
  }

  -- The row is in some file.
  abbrev pub InFiles : Writer disk.State → Row → Type 0
  InFiles w r = (j : ℕ) × In r (rows_at (view w.disk j))

  WrittenRow-Wrote :
      (kind : Str) (w : Writer disk.State) (row : Str → Row)
      (r : Result (Unit {0}) × Writer disk.State)
      → WrittenRow disk view is_disk root platform kind w row r
      → Wrote InFiles (Ready disk view is_disk root platform) w row r
  WrittenRow-Wrote kind w row (done u, v) ((f, started, at, p, g), h) = (
    (at, Anywhere-grown (λ j. rows_at (view w.disk j)) (λ j. rows_at (view v.disk j)) f (row at) g),
    h,
  )
  WrittenRow-Wrote kind w row (fail e, v) (g, h) =
      (Anywhere-same (λ j. rows_at (view w.disk j)) (λ j. rows_at (view v.disk j)) g, h)

  -- The writer implements the sink that the harvesters take: under its invariant a write that succeeds adds the
  -- stamped row to those that the encoders of its files have taken, one that fails adds none, and the invariant is kept.
  pub writer_sink-IsSink :
      IsSink lower hash writer_sink InFiles (Ready disk view is_disk root platform)
  writer_sink-IsSink = record {
    documents = λ d w h.
        WrittenRow-Wrote (codes "documents") w (λ at. Row.document (stamp lower hash at d)) _
          (document_row disk view is_disk root platform lower hash d w h);
    tombstones = λ t w h.
        WrittenRow-Wrote (codes "tombstones") w (λ at. Row.tombstone (stamp_tombstone at t)) _
          (tombstone_row disk view is_disk root platform t w h);
  }
