-- ===== src/Inference/Classified.antt =====
-- The client against its specification: with a worker that scores every text on its own, batching
-- by length cannot be seen (api/internal/inference/client.go, Classify).
use sentilyzer.Prelude.{
  ℕ, ◌+◌, ◌-◌, ◌≤◌, ◌<◌, ◌≡◌, refl, List, [], ◌∷◌, ◌++◌, map, length, drop, ltb, arith,
  if◌then◌else◌, inl, inr, sym, ap, ◌∙◌, get_or, set, Str, Option, none, length-map, length-set,
  length-replicate, replicate, true,
}
use sentilyzer.Prelude.Slices.{
  slice, scatter, scatter-append, scatter-map, elem, elem-sort, length-sort, length-range_from,
  elem-range_from, range_from,
}
use sentilyzer.Errors.{done, >>=-eq-done, Result-cases}
use sentilyzer.Domain.{Score}
use sentilyzer.Inference.Batch.{length_order, chunk_ranges, len_at}
use sentilyzer.Inference.Chunks.{
  Tiles, chunk_ranges-Tiles, slice-append-drop, length-slice, drop-length,
}
use sentilyzer.Inference.Client.{
  PbScore, Worker, proto_to_score, unpack, classify_window, classify_loop, classify,
}

pub elem-length_order :
    (texts : List Str) (j : ℕ) → j < length texts → elem j (length_order texts) ≡ true
unfolding length_order
elem-length_order texts j h =
    elem-sort (λ a b. ltb (len_at texts a) (len_at texts b)) j (range_from 0 (length texts))
    ∙ elem-range_from j 0 (length texts) (omega arith) (omega arith)

length-length_order : (texts : List Str) → length (length_order texts) ≡ length texts
unfolding length_order
length-length_order texts =
    length-sort (λ a b. ltb (len_at texts a) (len_at texts b)) (range_from 0 (length texts))
    ∙ length-range_from 0 (length texts)

module _ {F : Type 0} (zero32 : F) (worker : Worker F) (max_batch : ℕ)
    (f : Str → Option (PbScore F)) (positive : 0 < max_batch)
    (answers : (k : ℕ) (batch : List Str)
      → 0 < length batch
      → length batch ≤ max_batch
      → worker.classify k batch ≡ done (map f batch)) where
  score_at : List Str → ℕ → Score F
  score_at texts i = proto_to_score zero32 (f (get_or texts i []))

  unpack-scatter :
      (texts : List Str) (window : List ℕ) (out : List (Score F))
      → unpack zero32 window (map f (map (λ i. get_or texts i []) window)) out
        ≡ scatter window (score_at texts) out
  unfolding unpack scatter score_at
  unpack-scatter texts [] out = refl
  unpack-scatter texts (i ∷ window) out = unpack-scatter texts window (set out i (score_at texts i))

  window-scatter :
      (texts : List Str) (k : ℕ) (window : List ℕ) (out : List (Score F))
      → 0 < length window
      → length window ≤ max_batch
      → classify_window zero32 worker max_batch texts k window out
        ≡ done (scatter window (score_at texts) out)
  unfolding classify_window
  window-scatter texts k window out h h' = ground (
    arith,
    answers k (map (λ i. get_or texts i []) window),
    length-map window (λ i. get_or texts i []),
    length-map (map (λ i. get_or texts i []) window) f,
    unpack-scatter texts window out,
  )

  loop-scatter :
      (texts : List Str) (order : List ℕ) (k start : ℕ) (ranges : List (ℕ × ℕ))
      (out : List (Score F))
      → Tiles max_batch (length order) start ranges
      → classify_loop zero32 worker max_batch texts order k ranges out
        ≡ done (scatter (drop start order) (score_at texts) out)
  unfolding classify_loop scatter
  loop-scatter texts order k start [] out t = rw (t, drop-length order, scatter)
  loop-scatter texts order k start ((from, to) ∷ ranges) out t =
      let window = slice from to order in
      let size : length window ≡ to - from =
        length-slice from to order (omega arith) (omega arith) in
      let out' = scatter window (score_at texts) out in
      let whole : window ++ drop to order ≡ drop start order =
        slice-append-drop from to order (omega arith) ∙ ap (λ n. drop n order) t.0 in
      rw (window-scatter texts k window out (omega arith) (omega arith)) (
        loop-scatter texts order (k + 1) to ranges out' t.3
        ∙ ap done (
            sym (scatter-append window (drop to order) (score_at texts) out)
            ∙ ap (λ is. scatter is (score_at texts) out) whole))

  scatter-length_order :
      (texts : List Str) (blank : List (Score F))
      → length blank ≡ length texts
      → scatter (length_order texts) (score_at texts) blank
        ≡ map (λ t. proto_to_score zero32 (f t)) texts
  unfolding score_at
  scatter-length_order texts blank e =
      scatter-map (λ t. proto_to_score zero32 (f t)) [] (length_order texts) texts blank
        (elem-length_order texts) e

  tiles :
      (texts : List Str)
      → let n = length (length_order texts) in Tiles max_batch n 0 (chunk_ranges n max_batch)
  tiles texts =
      let n = length (length_order texts) in
      let e : (if ltb max_batch 1 then 1 else max_batch) ≡ max_batch = ground arith in
      rw e at (chunk_ranges-Tiles n max_batch)

  -- With a worker that answers each request of at most `max_batch` texts with the scores `f` of its
  -- texts, `Classify` returns the score of every text, in the order of the texts: neither the order
  -- by length nor the chunks can be seen, and no request passes the maximum.
  pub classify-eq-map :
      (texts : List Str)
      → classify zero32 worker max_batch texts ≡ done (map (λ t. proto_to_score zero32 (f t)) texts)
  unfolding classify
  classify-eq-map [] = refl
  classify-eq-map (t ∷ ts) =
      let texts = t ∷ ts in
      let blank = replicate (length texts) (proto_to_score zero32 none) in
      loop-scatter texts (length_order texts) 0 0
        (chunk_ranges (length (length_order texts)) max_batch) blank (tiles texts)
      ∙ ap done (
          scatter-length_order texts blank
            (length-replicate (length texts) (proto_to_score zero32 none)))

-- No reply of the wrong length is unpacked.
module _ {F : Type 0} (zero32 : F) (worker : Worker F) (max_batch : ℕ) where
  length-unpack :
      (window : List ℕ) (scores : List (Option (PbScore F))) (out : List (Score F))
      → length (unpack zero32 window scores out) ≡ length out
  unfolding unpack
  length-unpack [] scores out = refl
  length-unpack (i ∷ window) [] out = refl
  length-unpack (i ∷ window) (s ∷ scores) out =
      length-unpack window scores (set out i (proto_to_score zero32 s))
      ∙ length-set out i (proto_to_score zero32 s)

  length-classify_window :
      (texts : List Str) (k : ℕ) (window : List ℕ) (out out' : List (Score F))
      → classify_window zero32 worker max_batch texts k window out ≡ done out'
      → length out' ≡ length out
  unfolding classify_window
  length-classify_window texts k window out out' h =
      elim (Result-cases (worker.classify k (map (λ i. get_or texts i []) window))) [
        | inl (scores, e) ↦ ground (arith, e, length-unpack window scores out)
        | inr (err, e) ↦ ground (arith, e)
      ]

  length-classify_loop :
      (texts : List Str) (order : List ℕ) (k : ℕ) (ranges : List (ℕ × ℕ))
      (out out' : List (Score F))
      → classify_loop zero32 worker max_batch texts order k ranges out ≡ done out'
      → length out' ≡ length out
  unfolding classify_loop
  length-classify_loop texts order k [] out out' h = ground arith
  length-classify_loop texts order k ((from, to) ∷ ranges) out out' h =
      let window = slice from to order in
      let (mid, first, rest) =
        >>=-eq-done (classify_window zero32 worker max_batch texts k window out)
          (λ o. classify_loop zero32 worker max_batch texts order (k + 1) ranges o) h in
      length-classify_loop texts order (k + 1) ranges mid out' rest
      ∙ length-classify_window texts k window out mid first

  -- Whatever the worker answers, a successful `Classify` returns one score for each text.
  pub length-classify :
      (texts : List Str) {out : List (Score F)}
      → classify zero32 worker max_batch texts ≡ done out
      → length out ≡ length texts
  unfolding classify
  length-classify [] h = ground arith
  length-classify (t ∷ ts) {out} h =
      let order = length_order (t ∷ ts) in
      let blank = replicate (length (t ∷ ts)) (proto_to_score zero32 none) in
      length-classify_loop (t ∷ ts) order 0 (chunk_ranges (length order) max_batch) blank out h
      ∙ length-replicate (length (t ∷ ts)) (proto_to_score zero32 none)
