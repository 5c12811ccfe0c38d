-- ===== src/Inference/Labels.antt =====
-- The sentiment labels on the wire (api/internal/inference/client.go).
use sentilyzer.Prelude.{ℕ, ◌≡◌, ◌<◌, arith}
use sentilyzer.Domain.{Sentiment}
use sentilyzer.Inference.Client.{proto_label_to_domain, domain_label_to_proto}

-- A label survives the wire, and a number of the wire that is not one of the four labels becomes the
-- unspecified label and is sent on as 0.
pub proto_label_to_domain-domain_label_to_proto :
    ((s : Sentiment) → proto_label_to_domain (domain_label_to_proto s) ≡ s)
    × ((n : ℕ) → n < 4 → domain_label_to_proto (proto_label_to_domain n) ≡ n)
    × ((n : ℕ) → 3 < n → domain_label_to_proto (proto_label_to_domain n) ≡ 0)
unfolding proto_label_to_domain domain_label_to_proto
proto_label_to_domain-domain_label_to_proto =
    (λ s. ground arith, λ n h. ground arith, λ n h. ground arith)
