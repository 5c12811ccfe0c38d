-- ===== src/Service/Topic/Safe.antt =====
-- When AnalyzeTopic and the loop over the documents stay in range
-- (api/internal/service/service.go, the indices `scores[i]`, `aspectsByDoc[i]`, and
-- api/internal/inference/client.go, which returns what is indexed).
use sentilyzer.Prelude.{
  ℕ, ◌-◌, ◌≡◌, List, [], ◌∷◌, ◌++◌, map, length, replicate, Str, if◌then◌else◌, arith, ltb, ◌==◌,
  inl, inr, Bool-cases, length-map, length-replicate, length-append, ◌∙◌,
}
use sentilyzer.Prelude.Text.{codes}
use sentilyzer.Errors.{Result}
use sentilyzer.Outcome
use sentilyzer.Outcome.{Outcome, done, fail, panic, lift, Safe, lift-Safe, >>=-Safe}
use sentilyzer.Domain.{Floats, SourcedAnalysis, SourcedDocument, Score, AspectScore, Warning}
use sentilyzer.Cache.{Entry, Lru}
use sentilyzer.Inference.Batch.{AspectInput}
use sentilyzer.Inference.Client.{Worker}
use sentilyzer.Inference.Classified.{length-classify}
use sentilyzer.Inference.Rows.{length-classify_aspects}
use sentilyzer.Service.Text.{Client, grpc_client, prefix_error}
use sentilyzer.Service.Dedupe.{dedupe_by_id}
use sentilyzer.Service.Select.{select_platforms}
use sentilyzer.Service.Fanout.{fanout}
use sentilyzer.Service.Request.{AnalyzeTopicRequest}
use sentilyzer.Service.Topic.{
  Environment, Service, Totals, no_totals, tally_docs, topic_aspects, analyze_docs, analyze_found,
  gather, store, analyze_topic, default_limit, query_of, connector_timeout,
}

-- A client that answers with one score for each text, and one row for each input.
pub record Aligned {F : Type 0} (client : Client F) : Type 0 where
  pub scores :
      (texts : List Str) {out : List (Score F)}
      → client.classify texts ≡ Result.done out
      → length out ≡ length texts
  pub rows :
      (items : List AspectInput) {out : List (List (AspectScore F))}
      → client.classify_aspects items ≡ Result.done out
      → length out ≡ length items

-- The gRPC client is such a client, whatever its worker answers.
pub grpc_client-Aligned :
    {F : Type 0} (zero32 : F) (worker : Worker F) (max_batch : ℕ)
    → Aligned (grpc_client zero32 worker max_batch)
grpc_client-Aligned zero32 worker max_batch = record {
  scores = λ texts h. length-classify zero32 worker max_batch texts h;
  rows = λ items h. length-classify_aspects zero32 worker max_batch items h;
}

prefix_error-done {ℓ} :
    {A : Type ℓ} (what : Str) (r : Result A) {a : A}
    → prefix_error what r ≡ Result.done a
    → r ≡ Result.done a
unfolding prefix_error
prefix_error-done what (Result.done a) h = h
prefix_error-done what (Result.fail e) h = cc

lift-done {ℓ} : {A : Type ℓ} (r : Result A) {a : A} → lift r ≡ done a → r ≡ Result.done a
lift-done (Result.done a) h = ground arith
lift-done (Result.fail e) h = cc

module _ (fl : Floats) where
  open fl use {F32}

  tally_docs-Safe :
      (now : ℕ) (docs : List SourcedDocument) (ss : List (Score F32))
      (rows : List (List (AspectScore F32))) (t : Totals fl)
      → length ss ≡ length docs
      → length rows ≡ length docs
      → Safe (tally_docs fl now docs ss rows t)
  unfolding tally_docs
  tally_docs-Safe now [] ss rows t h k = cc
  tally_docs-Safe now (d ∷ ds) [] rows t h k = absurd (omega (arith, h))
  tally_docs-Safe now (d ∷ ds) (s ∷ ss) [] t h k = absurd (omega (arith, k))
  tally_docs-Safe now (d ∷ ds) (s ∷ ss) (row ∷ rows) t h k =
      >>=-Safe (tally_docs fl now ds ss rows _) _
        (tally_docs-Safe now ds ss rows _ (omega (arith, h)) (omega (arith, k))) (λ a e p. cc)

  module _ (client : Client F32) (aligned : Aligned client) where
    -- The rows of a reply, filled up to one for each document.
    length-filled :
        (n : ℕ) (batch : List (List (AspectScore F32))) {rows : List (List (AspectScore F32))}
        → length batch ≡ n
        → (if ltb n (length batch) then panic else done (batch ++ replicate (n - length batch) []))
          ≡ done rows
        → length rows ≡ n
    length-filled n batch h k = ground (
      arith,
      length-append batch (replicate {A = List (AspectScore F32)} (n - length batch) []),
      length-replicate {A = List (AspectScore F32)} (n - length batch) [],
    )

    length-topic_aspects :
        (aspects : List Str) (docs : List SourcedDocument) {rows : List (List (AspectScore F32))}
        → topic_aspects fl client aspects docs ≡ done rows
        → length rows ≡ length docs
    unfolding topic_aspects
    length-topic_aspects aspects docs {rows} h =
        let n : ℕ = length docs in
        let items : List AspectInput =
          map (λ (d : SourcedDocument). record { text = d.document.text; aspects = aspects })
            docs in
        let asked : Result (List (List (AspectScore F32))) =
          prefix_error (codes "classify aspects: ") (client.classify_aspects items) in
        elim (Bool-cases (length aspects == 0)) [
          | inl none' ↦ ground (arith, none', length-replicate {A = List (AspectScore F32)} n [])
          | inr some' ↦
              let (batch, same, end) =
                Outcome.>>=-eq-done (lift asked)
                  (λ b. if ltb n (length b) then panic else done (b ++ replicate (n - length b) []))
                  (rw some' at h) in
              let size = aligned.rows items (prefix_error-done _ _ (lift-done asked same)) in
              length-filled n batch (size ∙ length-map docs _) end
        ]

    topic_aspects-Safe :
        (aspects : List Str) (docs : List SourcedDocument)
        → Safe (topic_aspects fl client aspects docs)
    unfolding topic_aspects
    topic_aspects-Safe aspects docs =
        let items : List AspectInput =
          map (λ (d : SourcedDocument). record { text = d.document.text; aspects = aspects })
            docs in
        let asked : Result (List (List (AspectScore F32))) =
          prefix_error (codes "classify aspects: ") (client.classify_aspects items) in
        let n : ℕ = length docs in
        elim (Bool-cases (length aspects == 0)) [
          | inl none' ↦ rw none' (λ p. cc)
          | inr some' ↦ rw some' (
              >>=-Safe (lift asked)
                (λ b. if ltb n (length b) then panic else done (b ++ replicate (n - length b) []))
                (lift-Safe asked)
                (λ batch e.
                  let size : length batch ≡ n =
                    aligned.rows items (prefix_error-done _ _ (lift-done asked e))
                    ∙ length-map docs _ in
                  ground (arith, size)))
        ]

    analyze_docs-Safe :
        (now : ℕ) (req : AnalyzeTopicRequest) (found : List SourcedDocument) (ws : List Warning)
        → Safe (analyze_docs fl client now req found ws)
    unfolding analyze_docs
    analyze_docs-Safe now req found ws =
        let docs = dedupe_by_id found in
        let asked =
          prefix_error (codes "classify: ")
            (client.classify (map (λ (d : SourcedDocument). d.document.text) docs)) in
        >>=-Safe (lift asked) _ (lift-Safe asked) (λ scores e.
          >>=-Safe (topic_aspects fl client req.aspects docs) _
            (topic_aspects-Safe req.aspects docs)
            (λ rows e'.
              >>=-Safe (tally_docs fl now docs scores rows (no_totals fl)) _
                (tally_docs-Safe now docs scores rows (no_totals fl)
                  (aligned.scores _ (prefix_error-done _ _ (lift-done asked e)) ∙ length-map docs _)
                  (length-topic_aspects req.aspects docs e'))
                (λ out e'' p. cc)))

  module _ (hash : Str → Str) (lower : ℕ → ℕ) (l : Lru Str (Entry (SourcedAnalysis F32))) where
    gather-Safe :
        (s : Service fl hash lower l) (env : Environment fl) (req : AnalyzeTopicRequest)
        → Aligned env.client
        → Safe (gather fl hash lower l s env req)
    unfolding gather analyze_found
    gather-Safe s env req aligned =
        let platforms = select_platforms lower s.connectors req.platforms req.creds in
        let timeout = connector_timeout fl hash lower l s in
        let asked =
          fanout timeout (env.timeout_text timeout) env.schedule platforms (query_of req) in
        elim (Bool-cases (length platforms == 0)) [
          | inl none' ↦ rw none' (λ p. cc)
          | inr some' ↦ rw some' (
              >>=-Safe (lift asked) _ (lift-Safe asked) (λ out e.
                elim (Bool-cases (length out.0 == 0)) [
                  | inl none' ↦ rw none' (λ p. cc)
                  | inr found ↦ rw found (
                      >>=-Safe (analyze_docs fl env.client env.at_analysis req out.0 out.1) _
                        (analyze_docs-Safe env.client aligned env.at_analysis req out.0 out.1)
                        (λ a e' p. cc))
                ]))
        ]

    -- With a client that answers with one score for each text and one row for each input, no call of
    -- AnalyzeTopic reads or writes out of range: it ends in an analysis or an error.
    pub analyze_topic-Safe :
        (s : Service fl hash lower l) (env : Environment fl) (req : AnalyzeTopicRequest)
        → Aligned env.client
        → Safe (analyze_topic fl hash lower l s env req).0
    unfolding analyze_topic store
    analyze_topic-Safe s env req aligned =
        ground (arith, gather-Safe s env (default_limit req) aligned)
