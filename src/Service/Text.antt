-- ===== src/Service/Text.antt =====
-- AnalyzeText of api/internal/service/service.go. The inference client is the interface `Client`.
pub mod Aligned
use sentilyzer.Prelude.{
  ℕ, suc, ◌+◌, ◌==◌, Bool, true, false, not, List, [], ◌∷◌, ◌++◌, map, length, set, replicate, Str,
  if◌then◌else◌, Option, none, some,
}
use sentilyzer.Prelude.Text.{codes, itoa}
use sentilyzer.Errors.{GoError, text, wrap, Result, done, fail, ◌>>=◌}
use sentilyzer.Domain.{
  Floats, Document, Score, AspectScore, DocumentResult, Aggregate, Aggregator, new_aggregator, add,
  aggregate,
}
use sentilyzer.Inference.Batch.{AspectInput}
use sentilyzer.Inference.Client.{ReadyInfo, Worker, classify, classify_aspects, ready}

-- inference.Client
pub record Client (F : Type 0) : Type 0 where
  pub classify : List Str → Result (List (Score F))
  pub classify_aspects : List AspectInput → Result (List (List (AspectScore F)))
  pub ready : Result ReadyInfo

-- GRPCClient as the interface
abbrev pub grpc_client : {F : Type 0} → F → Worker F → ℕ → Client F
grpc_client zero32 worker max_batch = record {
  classify = classify zero32 worker max_batch;
  classify_aspects = classify_aspects zero32 worker max_batch;
  ready = ready zero32 worker max_batch;
}

pub record AnalyzeTextRequest : Type 0 where
  pub documents : List Document
  pub include_aspects : Bool

pub record AnalyzeTextResponse (F : Type 0) : Type 0 where
  pub results : List (DocumentResult F)
  pub aggregate : Aggregate F

-- `fmt.Errorf("…: %w", err)`
unfoldable pub prefix_error {ℓ} : {A : Type ℓ} → Str → Result A → Result A
prefix_error what (done a) = done a
prefix_error what (fail err) = fail (wrap what err [])

-- `aspectInputs` with `positions`, from the document at `i` on
unfoldable pub aspect_inputs : ℕ → List Document → List (AspectInput × ℕ)
aspect_inputs i [] = []
aspect_inputs i (d ∷ ds) =
    let rest = aspect_inputs (suc i) ds in
    elim d.aspects [
      | [] ↦ rest
      | a ∷ more ↦ (record { text = d.text; aspects = a ∷ more }, i) ∷ rest
    ]

-- `for offset, pos := range positions { if offset < len(batch) { out[pos] = batch[offset] } }`
unfoldable pub place {ℓ} : {A : Type ℓ} → List ℕ → List A → List A → List A
place [] batch out = out
place (p ∷ ps) [] out = out
place (p ∷ ps) (b ∷ batch) out = place ps batch (set out p b)

module _ (fl : Floats) where
  open fl use {F32}

  -- `aspectsByDoc`, nil where nothing is asked for
  unfoldable pub aspects_by_doc :
      Client F32 → AnalyzeTextRequest → Result (List (List (AspectScore F32)))
  unfolding aspect_inputs place prefix_error
  aspects_by_doc client req =
      let inputs = aspect_inputs 0 req.documents in
      let asked : Result (List (List (AspectScore F32))) = (do
        batch ←
            prefix_error (codes "classify aspects: ")
              (client.classify_aspects (map (λ e. e.0) inputs))
        done (place (map (λ e. e.1) inputs) batch (replicate (length req.documents) []))) in
      if not req.include_aspects then done [] else if length inputs == 0 then done [] else asked

  -- `aspectsByDoc[i]` if there is one, else nil
  abbrev pub head_or_nil : List (List (AspectScore F32)) → List (AspectScore F32)
  head_or_nil [] = []
  head_or_nil (a ∷ as') = a

  abbrev pub rest_of : List (List (AspectScore F32)) → List (List (AspectScore F32))
  rest_of [] = []
  rest_of (a ∷ as') = as'

  -- the loop over the documents, which reads `scores[i]`: there are as many scores
  unfoldable pub text_results :
      ℕ
      → List Document
      → List (Score F32)
      → List (List (AspectScore F32))
      → Aggregator fl
      → List (DocumentResult F32) × Aggregator fl
  text_results now (d ∷ ds) (s ∷ ss) as' agg =
      let (rs, agg') = text_results now ds ss (rest_of as') (add fl agg s) in
      (record { id = d.id; overall = s; aspects = head_or_nil as'; analyzed_at = now } ∷ rs, agg')
  text_results now _ _ as' agg = ([], agg)

  -- what follows the call of `Classify`
  unfoldable pub with_scores :
      Client F32 → ℕ → AnalyzeTextRequest → List (Score F32) → Result (AnalyzeTextResponse F32)
  unfolding aspects_by_doc text_results
  with_scores client now req scores =
      let docs = req.documents in
      let answer : Result (AnalyzeTextResponse F32) = (do
        aspects ← aspects_by_doc client req
        let out = text_results now docs scores aspects (new_aggregator fl)
        done (record { results = out.0; aggregate = aggregate fl out.1 })) in
      if length scores == length docs
      then answer
      else fail (
          text (
            codes "inference returned "
            ++ itoa (length scores)
            ++ codes " scores for "
            ++ itoa (length docs)
            ++ codes " documents"))

  unfoldable pub analyze_text :
      Client F32 → ℕ → AnalyzeTextRequest → Result (AnalyzeTextResponse F32)
  unfolding with_scores prefix_error
  analyze_text client now req =
      let docs = req.documents in
      let full : Result (AnalyzeTextResponse F32) = (do
        scores ← prefix_error (codes "classify: ") (client.classify (map (λ d. d.text) docs))
        with_scores client now req scores) in
      if length docs == 0
      then done (record { results = []; aggregate = aggregate fl (new_aggregator fl) })
      else full
