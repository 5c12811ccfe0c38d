-- ===== src/Inference/Scored.antt =====
-- ClassifyAspects against its specification: with a worker that scores every pair of a text and an
-- aspect on its own, neither the chunks nor the groups can be seen
-- (api/internal/inference/client.go).
use sentilyzer.Prelude.{
  ℕ, ◌+◌, ◌-◌, ◌*◌, ◌≤◌, ◌<◌, ◌≡◌, refl, sym, ap, ◌∙◌, subst, List-cases, List, [], ◌∷◌, ◌++◌, map,
  length, drop, ◌==◌, ltb, if◌then◌else◌, Str, Option, arith, inl, inr, Bool-cases, length-map,
  true,
}
use sentilyzer.Prelude.Slices.{slice}
use sentilyzer.Errors.{done}
use sentilyzer.Domain.{AspectScore}
use sentilyzer.Inference.Batch.{
  AspectInput, AspectRef, aspect_refs, chunk_ranges, group_by_item, aspect_batch_multiple,
}
use sentilyzer.Inference.Groups.{group_by_item_lem}
use sentilyzer.Inference.Chunks.{
  Tiles, chunk_ranges-Tiles, slice-append-drop, length-slice, drop-length,
}
use sentilyzer.Inference.Client.{
  PbScore, Worker, group_input, classify_groups, aspects_loop, classify_aspects,
}
use sentilyzer.Inference.Writes.{
  pairs, row_of, write_all, write_all-append, pairs-groups, reply, rows-write, blank, write-blank,
}

module _ {F : Type 0} (zero32 : F) (worker : Worker F) (max_batch : ℕ)
    (f : Str → Str → Option (PbScore F)) (positive : 0 < max_batch)
    (answers : (k : ℕ) (batch : List AspectInput)
      → 0 < pairs batch
      → pairs batch ≤ max_batch * aspect_batch_multiple
      → worker.classify_aspects k batch
        ≡ done
            (map (λ i. map (λ a. record { aspect = a; score = f i.text a }) i.aspects) batch)) where
  module _ (items : List AspectInput) where
    groups-write :
        (k : ℕ) (chunk : List AspectRef) (out : List (List (AspectScore F)))
        → 0 < length chunk
        → length chunk ≤ max_batch * aspect_batch_multiple
        → classify_groups zero32 worker max_batch items k chunk out
          ≡ done (write_all zero32 f items chunk out)
    unfolding classify_groups
    groups-write k chunk out h h' =
        let groups = group_by_item chunk in
        let (whole, uniform) = group_by_item_lem chunk in
        let input = map (group_input items) groups in
        let size : pairs input ≡ length chunk =
          pairs-groups zero32 f items groups ∙ ap length whole in
        let sent = answers k input (omega (arith, size)) (omega (arith, size)) in
        let full : (length (map (reply zero32 f items) input) == length groups) ≡ true =
          ground (
            arith,
            length-map input (reply zero32 f items),
            length-map groups (group_input items),
          ) in
        rw (classify_groups, sent, full)
          (rows-write zero32 f items groups out uniform
            ∙ ap (λ rs. done (write_all zero32 f items rs out)) whole)

    aspects-write :
        (all : List AspectRef) (k start : ℕ) (ranges : List (ℕ × ℕ))
        (out : List (List (AspectScore F)))
        → Tiles (max_batch * aspect_batch_multiple) (length all) start ranges
        → aspects_loop zero32 worker max_batch items all k ranges out
          ≡ done (write_all zero32 f items (drop start all) out)
    unfolding aspects_loop write_all
    aspects-write all k start [] out t = rw (t, drop-length all, write_all) refl
    aspects-write all k start ((from, to) ∷ ranges) out t =
        let chunk = slice from to all in
        let size : length chunk ≡ to - from =
          length-slice from to all (omega arith) (omega arith) in
        let whole : chunk ++ drop to all ≡ drop start all =
          slice-append-drop from to all (omega arith) ∙ ap (λ n. drop n all) t.0 in
        rw (groups-write k chunk out (omega arith) (omega arith)) (
          aspects-write all (k + 1) to ranges (write_all zero32 f items chunk out) t.3
          ∙ ap done (
              sym (write_all-append zero32 f items chunk (drop to all) out)
              ∙ ap (λ rs. write_all zero32 f items rs out) whole))

    loop-blank :
        aspects_loop zero32 worker max_batch items
          (aspect_refs items)
          0
          (chunk_ranges (length (aspect_refs items)) (max_batch * aspect_batch_multiple))
          (blank zero32 f items)
        ≡ done (map (row_of zero32 f) items)
    loop-blank =
        let all = aspect_refs items in
        let limit = max_batch * aspect_batch_multiple in
        let width : (if ltb limit 1 then 1 else limit) ≡ limit = ground arith in
        aspects-write all 0 0 (chunk_ranges (length all) limit) (blank zero32 f items) (
          subst (λ w. Tiles w (length all) 0 (chunk_ranges (length all) limit)) width
            (chunk_ranges-Tiles (length all) limit))
        ∙ ap done (write-blank zero32 f items)

    no_refs-blank :
        (length (aspect_refs items) == 0) ≡ true
        → (blank zero32 f items) ≡ map (row_of zero32 f) items
    unfolding write_all
    no_refs-blank h = elim (List-cases (aspect_refs items)) [
      | inl none' ↦
          ap (λ rs. write_all zero32 f items rs (blank zero32 f items)) (sym none')
          ∙ write-blank zero32 f items
      | inr (r, rs, some') ↦ absurd (ground (arith, h, some'))
    ]

  -- With a worker that answers each request of at most four times `max_batch` pairs with the scores
  -- `f` of its pairs of a text and an aspect, `ClassifyAspects` returns for every input the scores of
  -- its own aspects, in the order of the inputs and of the aspects: neither the order by length, nor
  -- the chunks, nor the groups can be seen, and no request is empty or passes the limit.
  pub classify_aspects-eq-map :
      (items : List AspectInput)
      → classify_aspects zero32 worker max_batch items ≡ done (map (row_of zero32 f) items)
  unfolding classify_aspects blank
  classify_aspects-eq-map [] = refl
  classify_aspects-eq-map (it ∷ its) =
      let items = it ∷ its in
      elim (Bool-cases (length (aspect_refs items) == 0)) [
        | inl none' ↦ rw none' (ap done (no_refs-blank items none'))
        | inr some' ↦ rw some' (loop-blank items)
      ]
