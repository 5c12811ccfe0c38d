-- ===== src/Service/Text/Aligned.antt =====
-- AnalyzeText against its specification: every document gets its own score and its own aspect
-- scores (api/internal/service/service.go).
use sentilyzer.Prelude.{
  ◌⊎◌, ℕ, suc, ◌≡◌, refl, sym, ap, ◌∙◌, List, [], ◌∷◌, ◌++◌, map, length, replicate, ◌==◌, Str,
  if◌then◌else◌, arith, inl, inr, Bool-cases, true, false, length-map, List-cases, length-append,
}
use sentilyzer.Prelude.Rows.{set-middle, append-snoc}
use sentilyzer.Errors.{done}
use sentilyzer.Domain.{
  Floats, Document, Score, AspectScore, DocumentResult, Aggregator, new_aggregator, add, aggregate,
  add_all,
}
use sentilyzer.Inference.Batch.{AspectInput}
use sentilyzer.Service.Text.{
  Client, AnalyzeTextRequest, prefix_error, aspect_inputs, place, aspects_by_doc, text_results,
  with_scores, analyze_text, rest_of,
}

module _ {B : Type 0} (f : AspectInput → List B) where
  -- The row of a document: nothing is asked for a document without aspects.
  abbrev pub row_of : Document → List B
  row_of d = elim d.aspects [
    | [] ↦ []
    | a ∷ more ↦ f (record { text = d.text; aspects = a ∷ more })
  ]

  -- The scores of a document that a request asks for.
  abbrev pub asked_of : AnalyzeTextRequest → Document → List B
  asked_of req d = if req.include_aspects then row_of d else []

  -- Rows in the order of the inputs come back to the documents that they were asked for.
  place-aspect_inputs :
      (i : ℕ) (pre : List (List B)) (docs : List Document)
      → i ≡ length pre
      → place
          (map (λ e. e.1) (aspect_inputs i docs))
          (map f (map (λ e. e.0) (aspect_inputs i docs)))
          (pre ++ replicate (length docs) [])
        ≡ pre ++ map row_of docs
  unfolding place aspect_inputs
  place-aspect_inputs i pre [] e = refl
  place-aspect_inputs i pre (d ∷ ds) e =
      let size : (v : List B) → suc i ≡ length (pre ++ v ∷ []) =
        λ v. omega (arith, length-append pre (v ∷ [])) in
      elim (List-cases d.aspects) [
        | inl none' ↦ rw none' (
            rw (append-snoc pre [] (replicate (length ds) []), append-snoc pre [] (map row_of ds))
              at (place-aspect_inputs (suc i) (pre ++ [] ∷ []) ds (size [])))
        | inr (a, more, some') ↦
            let v = f (record { text = d.text; aspects = a ∷ more }) in
            rw (some', e, set-middle pre [] (replicate (length ds) []) v)
              (rw
                (e, append-snoc pre v (replicate (length ds) []), append-snoc pre v (map row_of ds))
                at (place-aspect_inputs (suc i) (pre ++ v ∷ []) ds (size v)))
      ]

module _ (fl : Floats) where
  open fl use {F32}

  module _ (now : ℕ) where
    aggregate-text_results :
        (docs : List Document) (ss : List (Score F32)) (rows : List (List (AspectScore F32)))
        (agg : Aggregator fl)
        → length ss ≡ length docs
        → (text_results fl now docs ss rows agg).1 ≡ add_all fl agg ss
    unfolding text_results add_all
    aggregate-text_results [] [] rows agg h = refl
    aggregate-text_results [] (s ∷ ss) rows agg h = absurd (omega (arith, h))
    aggregate-text_results (d ∷ ds) [] rows agg h = absurd (omega (arith, h))
    aggregate-text_results (d ∷ ds) (s ∷ ss) rows agg h =
        aggregate-text_results ds ss (rest_of fl rows) (add fl agg s) (omega (arith, h))

    -- With no rows, each document has none.
    text_results-nil :
        (docs : List Document) (ss : List (Score F32)) (agg : Aggregator fl)
        → text_results fl now docs ss [] agg
          ≡ text_results fl now docs ss (replicate (length docs) []) agg
    unfolding text_results
    text_results-nil [] [] agg = refl
    text_results-nil [] (s ∷ ss) agg = refl
    text_results-nil (d ∷ ds) [] agg = refl
    text_results-nil (d ∷ ds) (s ∷ ss) agg = rw (text_results-nil ds ss (add fl agg s))

    module _ (g : Str → Score F32) (row : Document → List (AspectScore F32)) where
      abbrev pub result_of : Document → DocumentResult F32
      result_of d = record { id = d.id; overall = g d.text; aspects = row d; analyzed_at = now }

      results-text_results :
          (docs : List Document) (agg : Aggregator fl)
          → (text_results fl now docs (map g (map (λ d. d.text) docs)) (map row docs) agg).0
            ≡ map result_of docs
      unfolding text_results
      results-text_results [] agg = refl
      results-text_results (d ∷ ds) agg = rw (results-text_results ds (add fl agg (g d.text)))

  module _ (client : Client F32) (g : Str → Score F32) (f : AspectInput → List (AspectScore F32))
      (scores : (texts : List Str) → client.classify texts ≡ done (map g texts))
      (rows : (items : List AspectInput) → client.classify_aspects items ≡ done (map f items)) where
    replicate-asked :
        (req : AnalyzeTextRequest) (docs : List Document)
        → req.include_aspects ≡ false
        → map (asked_of f req) docs ≡ replicate (length docs) []
    replicate-asked req [] h = refl
    replicate-asked req (d ∷ ds) h = rw (h, replicate-asked req ds h)

    asked-rows :
        (req : AnalyzeTextRequest) (docs : List Document)
        → req.include_aspects ≡ true
        → map (asked_of f req) docs ≡ map (row_of f) docs
    asked-rows req [] h = refl
    asked-rows req (d ∷ ds) h = rw (h, asked-rows req ds h)

    -- The rows are one for each document, or none at all when every row would be empty.
    aspects_by_doc-rows :
        (req : AnalyzeTextRequest)
        → let row = map (asked_of f req) req.documents in
          (aspects_by_doc fl client req ≡ done row)
          ⊎ ((aspects_by_doc fl client req ≡ done []) × (row ≡ replicate (length req.documents) []))
    unfolding aspects_by_doc prefix_error
    aspects_by_doc-rows req =
        let docs = req.documents in
        let inputs = aspect_inputs 0 docs in
        let placed = place-aspect_inputs f 0 [] docs refl in
        elim (Bool-cases req.include_aspects) [
          | inr off ↦ inr (rw off refl, replicate-asked req docs off)
          | inl on ↦ elim (List-cases inputs) [
            | inl none' ↦
                inr
                  (rw (on, none') refl, asked-rows req docs on ∙ sym (rw (none', place) at placed))
            | inr (i, more, some') ↦
                let full : (length inputs == 0) ≡ false = rw some' (ground arith) in
                inl (
                  rw (asked-rows req docs on, on, full, rows (map (λ e. e.0) inputs))
                    (ap done placed))
          ]
        ]

    -- With a client that answers `g` of each text and `f` of each input, AnalyzeText returns for every
    -- document, in the order of the request, its id with the score of its own text and with the scores
    -- of its own aspects (none if the request or the document asks for none), and the aggregate is
    -- that of all the scores.
    pub analyze_text-eq-map :
        (now : ℕ) (req : AnalyzeTextRequest)
        → analyze_text fl client now req
          ≡ done (record {
            results = map (result_of now g (asked_of f req)) req.documents;
            aggregate =
                aggregate fl
                  (add_all fl (new_aggregator fl) (map g (map (λ d. d.text) req.documents)));
          })
    unfolding analyze_text with_scores prefix_error add_all
    analyze_text-eq-map now req =
        let docs = req.documents in
        let texts = map (λ (d : Document). d.text) docs in
        let agg = new_aggregator fl in
        let size : length (map g texts) ≡ length docs = length-map texts g ∙ length-map docs _ in
        let row = map (asked_of f req) docs in
        let total = aggregate-text_results now docs (map g texts) row agg size in
        let own = results-text_results now g (asked_of f req) docs agg in
        elim (List-cases docs) [
          | inl none' ↦ rw none' refl
          | inr (d, ds, some') ↦
              let full : (length docs == 0) ≡ false = rw some' (ground arith) in
              let same : (length (map g texts) == length docs) ≡ true = ground (arith, size) in
              rw (full, scores texts, same)
                (elim (aspects_by_doc-rows req) [
                  | inl given ↦ rw (given, total, own) refl
                  | inr (empty, blank) ↦
                      rw (empty, text_results-nil now docs (map g texts) agg, sym blank, total, own)
                        refl
                ])
        ]
