-- ===== src/Service/Dedupe/Distinct.antt =====
-- What dedupeByID keeps (api/internal/service/service.go).
use sentilyzer.Prelude.{
  ◌≡◌, refl, Bool, true, not, ◌&&◌, Option, none, some, List, [], ◌∷◌, map, Str, if◌then◌else◌,
  arith, str_eq, str_eq_iff, inl, inr, Bool-cases,
}
use sentilyzer.Prelude.Members.{SubList, none_left, skip, keep}
use sentilyzer.Domain.{SourcedDocument}
use sentilyzer.Service.Select.{has}
use sentilyzer.Service.Dedupe.{doc_key, dedupe_loop, dedupe_by_id}

-- No key occurs twice.
abbrev pub distinct : List Str → Bool
distinct [] = true
distinct (k ∷ ks) = not (has k ks) && distinct ks

-- The first document with the key.
abbrev pub first_with : Str → List SourcedDocument → Option SourcedDocument
first_with k [] = none
first_with k (d ∷ docs) = if str_eq (doc_key d) k then some d else first_with k docs

abbrev pub doc_keys : List SourcedDocument → List Str
doc_keys = map doc_key

-- A key is among those kept exactly if it was among the documents and not seen before.
has-dedupe_loop :
    (k : Str) (seen : List Str) (docs : List SourcedDocument)
    → has k (doc_keys (dedupe_loop seen docs)) ≡ (has k (doc_keys docs) && not (has k seen))
unfolding dedupe_loop has
has-dedupe_loop k seen [] = refl
has-dedupe_loop k seen (d ∷ docs) = ground (
  arith,
  has-dedupe_loop k seen docs,
  has-dedupe_loop k (doc_key d ∷ seen) docs,
  str_eq_iff (doc_key d) k,
)

distinct-dedupe_loop :
    (seen : List Str) (docs : List SourcedDocument)
    → distinct (doc_keys (dedupe_loop seen docs)) ≡ true
unfolding dedupe_loop has
distinct-dedupe_loop seen [] = refl
distinct-dedupe_loop seen (d ∷ docs) = ground (
  arith,
  distinct-dedupe_loop seen docs,
  distinct-dedupe_loop (doc_key d ∷ seen) docs,
  has-dedupe_loop (doc_key d) (doc_key d ∷ seen) docs,
  str_eq_iff (doc_key d) (doc_key d),
)

first_with-dedupe_loop :
    (k : Str) (seen : List Str) (docs : List SourcedDocument)
    → first_with k (dedupe_loop seen docs) ≡ (if has k seen then none else first_with k docs)
unfolding dedupe_loop has
first_with-dedupe_loop k seen [] = ground arith
first_with-dedupe_loop k seen (d ∷ docs) = ground (
  arith,
  first_with-dedupe_loop k seen docs,
  first_with-dedupe_loop k (doc_key d ∷ seen) docs,
  str_eq_iff (doc_key d) k,
)

SubList-dedupe_loop :
    (seen : List Str) (docs : List SourcedDocument) → SubList (dedupe_loop seen docs) docs
unfolding dedupe_loop
SubList-dedupe_loop seen [] = none_left
SubList-dedupe_loop seen (d ∷ docs) = elim (Bool-cases (has (doc_key d) seen)) [
  | inl old ↦ rw old (skip (SubList-dedupe_loop seen docs))
  | inr new ↦ rw new (keep (SubList-dedupe_loop (doc_key d ∷ seen) docs))
]

-- The shortcut for at most one document changes nothing.
dedupe_by_id-eq-loop : (docs : List SourcedDocument) → dedupe_by_id docs ≡ dedupe_loop [] docs
unfolding dedupe_by_id has
dedupe_by_id-eq-loop [] = refl
dedupe_by_id-eq-loop (d ∷ []) = refl
dedupe_by_id-eq-loop (d ∷ e ∷ docs) = refl

-- No two documents that are kept share platform and id; for every key the document kept is the
-- first one that had it; and what is kept stands in the order of the input.
pub dedupe_by_id_lem :
    (docs : List SourcedDocument)
    → (distinct (doc_keys (dedupe_by_id docs)) ≡ true)
      × ((k : Str) → first_with k (dedupe_by_id docs) ≡ first_with k docs)
      × SubList (dedupe_by_id docs) docs
dedupe_by_id_lem docs = rw (dedupe_by_id-eq-loop docs) (
  distinct-dedupe_loop [] docs,
  λ k. unfold has in first_with-dedupe_loop k [] docs,
  SubList-dedupe_loop [] docs,
)
