-- ===== src/Harvest/Sink.antt =====
-- The rows of a corpus, and what a harvester asks of the writer (api/internal/harvest/corpus.go): an
-- interface that the harvesters take and that the writer fills.
use sentilyzer.Prelude.{ℕ, ◌≡◌, ◌↔◌, ◌⊎◌, Str}
use sentilyzer.Errors.{Result, done, fail}
use sentilyzer.Harvest.Corpus.{Document, stamp}

-- Which content a tombstone revokes: one post, or all of the account.
pub data Scope : Type 0 where
  doc account : Scope

pub record Tombstone : Type 0 where
  pub platform : Str
  pub scope : Scope
  pub doc_id : Str
  pub author_did : Str
  pub deleted_at : Str

pub data Row : Type 0 where
  document : Document → Row
  tombstone : Tombstone → Row

-- A method of type `func(…) error` on the state.
abbrev pub Write : Type 0 → Type 0
Write S = S → Result (Unit {0}) × S

pub record Sink (S : Type 0) : Type 1 where
  pub write_document : Document → Write S
  pub write_tombstone : Tombstone → Write S

-- The rows after a write: one more if it succeeded, the same if it failed.
abbrev pub Adds : {S : Type 0} → (S → Row → Type 0) → S → S → (Str → Row) → Type 0
Adds Written s s' row = (at : Str) × ((r : Row) → Written s' r ↔ (Written s r ⊎ (r ≡ row at)))

abbrev pub Keeps : {S : Type 0} → (S → Row → Type 0) → S → S → Type 0
Keeps Written s s' = (r : Row) → Written s' r ↔ Written s r

abbrev pub Wrote :
    {S : Type 0}
    → (S → Row → Type 0)
    → (S → Type 0)
    → S
    → (Str → Row)
    → Result (Unit {0}) × S
    → Type 0
Wrote Written Ready s row (done u, s') = Adds Written s s' row × Ready s'
Wrote Written Ready s row (fail e, s') = Keeps Written s s' × Ready s'

-- What WriteTombstone fills in.
unfoldable pub stamp_tombstone : Str → Tombstone → Tombstone
stamp_tombstone at t = record t { deleted_at = at }

module _ (lower : ℕ → ℕ) (hash : Str → Str) where
  -- `Written s r` says that the row r has been written, and `Ready` is the writer's invariant.
  pub record IsSink {S : Type 0} (sink : Sink S) (Written : S → Row → Type 0) (Ready : S → Type 0)
      : Type 0 where
    pub documents :
        (d : Document) (s : S)
        → Ready s
        → Wrote Written Ready s (λ at. document (stamp lower hash at d)) (sink.write_document d s)
    pub tombstones :
        (t : Tombstone) (s : S)
        → Ready s
        → Wrote Written Ready s (λ at. tombstone (stamp_tombstone at t)) (sink.write_tombstone t s)
