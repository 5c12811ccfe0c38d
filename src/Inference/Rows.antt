-- ===== src/Inference/Rows.antt =====
-- The shape of what ClassifyAspects returns (api/internal/inference/client.go), and the client as the
-- interface that the service takes.
use sentilyzer.Prelude.{
  ℕ, ◌+◌, ◌*◌, ◌≡◌, refl, ◌∙◌, List, [], ◌∷◌, map, length, replicate, ◌==◌, arith, inl, inr,
  Bool-cases, length-map, length-set,
}
use sentilyzer.Prelude.Slices.{slice}
use sentilyzer.Errors.{done, >>=-eq-done, Result-cases}
use sentilyzer.Domain.{AspectScore}
use sentilyzer.Inference.Batch.{
  AspectInput, AspectRef, Group, refs, aspect_refs, chunk_ranges, group_by_item,
  aspect_batch_multiple,
}
use sentilyzer.Inference.Client.{
  PbAspectScore, Worker, set_at, zero_aspect, unpack_row, unpack_rows, group_input, classify_groups,
  aspects_loop, classify_aspects,
}

module _ {F : Type 0} (zero32 : F) where
  length-unpack_row :
      (rs : List AspectRef) (row : List (PbAspectScore F)) (out : List (List (AspectScore F)))
      → length (unpack_row zero32 rs row out) ≡ length out
  unfolding unpack_row set_at
  length-unpack_row [] row out = refl
  length-unpack_row (r ∷ rs) [] out = refl
  length-unpack_row (r ∷ rs) (sc ∷ row) out = length-unpack_row rs row _ ∙ length-set out r.item _

  length-unpack_rows :
      (groups : List Group) (rows : List (List (PbAspectScore F)))
      (out : List (List (AspectScore F))) {out' : List (List (AspectScore F))}
      → unpack_rows zero32 groups rows out ≡ done out'
      → length out' ≡ length out
  unfolding unpack_rows
  length-unpack_rows [] rows out h = ground arith
  length-unpack_rows (g ∷ groups) [] out h = ground arith
  length-unpack_rows (g ∷ groups) (row ∷ rows) out {out'} h =
      let mid = unpack_row zero32 (refs g) row out in
      ground (
        arith,
        length-unpack_rows groups rows mid {out' = out'},
        length-unpack_row (refs g) row out,
      )

  module _ (worker : Worker F) (max_batch : ℕ) where
    length-classify_groups :
        (items : List AspectInput) (k : ℕ) (chunk : List AspectRef)
        (out : List (List (AspectScore F))) {out' : List (List (AspectScore F))}
        → classify_groups zero32 worker max_batch items k chunk out ≡ done out'
        → length out' ≡ length out
    unfolding classify_groups
    length-classify_groups items k chunk out {out'} h =
        let groups = group_by_item chunk in
        elim (Result-cases (worker.classify_aspects k (map (group_input items) groups))) [
          | inl (rows, e) ↦ ground (arith, e, length-unpack_rows groups rows out {out' = out'})
          | inr (err, e) ↦ ground (arith, e)
        ]

    length-aspects_loop :
        (items : List AspectInput) (all : List AspectRef) (k : ℕ) (ranges : List (ℕ × ℕ))
        (out : List (List (AspectScore F))) {out' : List (List (AspectScore F))}
        → aspects_loop zero32 worker max_batch items all k ranges out ≡ done out'
        → length out' ≡ length out
    unfolding aspects_loop
    length-aspects_loop items all k [] out h = ground arith
    length-aspects_loop items all k ((from, to) ∷ ranges) out {out'} h =
        let (mid, first, rest) =
          >>=-eq-done (classify_groups zero32 worker max_batch items k (slice from to all) out)
            (λ o. aspects_loop zero32 worker max_batch items all (k + 1) ranges o) h in
        length-aspects_loop items all (k + 1) ranges mid rest
        ∙ length-classify_groups items k (slice from to all) out first

    -- Whatever the worker answers, a successful `ClassifyAspects` returns one row for each input.
    pub length-classify_aspects :
        (items : List AspectInput) {out : List (List (AspectScore F))}
        → classify_aspects zero32 worker max_batch items ≡ done out
        → length out ≡ length items
    unfolding classify_aspects
    length-classify_aspects [] h = ground arith
    length-classify_aspects (it ∷ its) {out} h =
        let items = it ∷ its in
        let blank =
          map (λ (i : AspectInput). replicate (length i.aspects) (zero_aspect zero32)) items in
        let all = aspect_refs items in
        let ranges = chunk_ranges (length all) (max_batch * aspect_batch_multiple) in
        let size : length blank ≡ length items = length-map items _ in
        elim (Bool-cases (length all == 0)) [
          | inl none' ↦ ground (arith, none', size)
          | inr some' ↦ length-aspects_loop items all 0 ranges blank (rw some' at h) ∙ size
        ]
