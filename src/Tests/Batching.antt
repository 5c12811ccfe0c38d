-- ===== src/Tests/Batching.antt =====
-- Witnesses on the inference client (api/internal/inference/batch.go, client.go).
use sentilyzer.Prelude.{◌∷◌, [], arith, List, ◌≡◌, refl, map, Str}
use sentilyzer.Prelude.Text.{codes}
use sentilyzer.Errors.{done}
use sentilyzer.Inference.Batch.{AspectInput, chunk_ranges}
use sentilyzer.Inference.Chunks.{Tiles, chunk_ranges-Tiles}
use sentilyzer.Inference.Client.{proto_to_score, classify, classify_aspects}
use sentilyzer.Inference.Classified.{classify-eq-map}
use sentilyzer.Inference.Writes.{row_of}
use sentilyzer.Inference.Scored.{classify_aspects-eq-map}
use sentilyzer.Service.Text.{grpc_client}
use sentilyzer.Service.Topic.Safe.{Aligned, grpc_client-Aligned}
use sentilyzer.Tests.{honest, by_length}

abbrev texts : List Str
texts = codes "excellent" ∷ codes "bad" ∷ codes "fine" ∷ []

chunk_ranges-Tiles_example : Tiles 2 5 0 (chunk_ranges 5 2)
chunk_ranges-Tiles_example = chunk_ranges-Tiles 5 2

classify-eq-map_example :
    classify 0 honest 2 texts ≡ done (map (λ t. proto_to_score 0 (by_length t)) texts)
classify-eq-map_example =
    classify-eq-map 0 honest 2 by_length (omega arith) (λ k batch h h'. refl) texts

grpc_client-Aligned_example : Aligned (grpc_client 0 honest 2)
grpc_client-Aligned_example = grpc_client-Aligned 0 honest 2

abbrev inputs : List AspectInput
inputs =
    record { text = codes "excellent"; aspects = codes "price" ∷ codes "speed" ∷ [] }
    ∷ record { text = codes "bad"; aspects = codes "price" ∷ [] }
    ∷ []

classify_aspects-eq-map_example :
    classify_aspects 0 honest 1 inputs ≡ done (map (row_of 0 (λ t a. by_length t)) inputs)
classify_aspects-eq-map_example =
    classify_aspects-eq-map 0 honest 1 (λ t a. by_length t) (omega arith) (λ k batch h h'. refl)
      inputs
