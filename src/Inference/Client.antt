-- ===== src/Inference/Client.antt =====
-- api/internal/inference/client.go. The worker behind the generated stub is a parameter: a function
-- of the number of the call and of its request, so that two calls may be answered differently. A
-- deadline that expires is an error of the call.
use sentilyzer.Prelude.{
  ℕ, ◌+◌, ◌*◌, List, [], ◌∷◌, ◌++◌, map, length, get_or, set, replicate, ltb, ◌==◌, if◌then◌else◌,
  Str, Option, none, some, Bool,
}
use sentilyzer.Prelude.Text.{codes, itoa}
use sentilyzer.Prelude.Maps.{Map}
use sentilyzer.Prelude.Slices.{slice}
use sentilyzer.Errors.{
  GoError, wrap, text, resource_exhausted, status_code, Result, done, fail, ◌>>=◌,
}
use sentilyzer.Domain.{Sentiment, unspecified, negative, neutral, positive, Score, AspectScore}
use sentilyzer.Inference.Batch.{
  AspectInput, no_input, AspectRef, Group, refs, length_order, chunk_ranges, aspect_refs,
  group_by_item, aspect_batch_multiple,
}

-- pb.Score. `label` is the number of the enum, which need not be one of the four that are named.
pub record PbScore (F : Type 0) : Type 0 where
  pub label : ℕ
  pub confidence : F
  pub polarity : F
  pub probabilities : Map Str F

pub record PbAspectScore (F : Type 0) : Type 0 where
  pub aspect : Str
  pub score : Option (PbScore F)

pub record ReadyInfo : Type 0 where
  pub ready : Bool
  pub general_model : Str
  pub aspect_model : Str
  pub device : Str

unfoldable pub proto_label_to_domain : ℕ → Sentiment
proto_label_to_domain l =
    if l == 1
    then negative
    else if l == 2
    then neutral
    else if l == 3
    then positive
    else unspecified

unfoldable pub domain_label_to_proto : Sentiment → ℕ
domain_label_to_proto negative = 1
domain_label_to_proto neutral = 2
domain_label_to_proto positive = 3
domain_label_to_proto unspecified = 0

pub record Worker (F : Type 0) : Type 0 where
  pub classify : ℕ → List Str → Result (List (Option (PbScore F)))
  pub classify_aspects : ℕ → List AspectInput → Result (List (List (PbAspectScore F)))
  pub ready : Result ReadyInfo

unfoldable pub batch_rejected : GoError → ℕ → ℕ → Option GoError
batch_rejected err sent limit = elim (status_code err) [
  | resource_exhausted ↦ some (
      wrap
        (codes "worker rejected a batch of "
          ++ itoa sent
          ++ codes " (client limit "
          ++ itoa limit
          ++ codes
              "): the worker's SENTILYZER_ML_MAX_BATCH is lower than this client's — set SENTILYZER_ML_MAX_BATCH on the API to match the worker: ")
        err [])
  | _ ↦ none
]

-- What either loop returns when its call of the worker failed: `sent` of `total` items.
unfoldable pub call_failed : Str → ℕ → ℕ → ℕ → Str → GoError → GoError
unfolding batch_rejected
call_failed what sent total limit unit err = elim (batch_rejected err sent limit) [
  | none ↦
      wrap (what ++ codes " (" ++ itoa sent ++ codes " of " ++ itoa total ++ unit ++ codes "): ")
        err []
  | some rejected ↦ rejected
]

-- The refusal of a reply of the wrong length.
unfoldable pub wrong_count : Str → ℕ → Str → ℕ → Str → GoError
wrong_count what got got_unit want want_unit =
    text (what ++ codes ": worker returned " ++ itoa got ++ got_unit ++ itoa want ++ want_unit)

-- WithMaxBatch over the default
unfoldable pub with_max_batch : ℕ → ℕ → ℕ
with_max_batch n current = if ltb 0 n then n else current

unfoldable pub aspect_at : List AspectInput → AspectRef → Str
aspect_at items r = get_or (get_or items r.item no_input).aspects r.pos []

-- the request of one group
unfoldable pub group_input : List AspectInput → Group → AspectInput
unfolding aspect_at
group_input items g = record {
  text = (get_or items g.0.item no_input).text;
  aspects = map (aspect_at items) (refs g);
}

-- `out[i][p] = v`
unfoldable pub set_at : {A : Type 0} → List (List A) → ℕ → ℕ → A → List (List A)
set_at out i p v = set out i (set (get_or out i []) p v)

module _ {F : Type 0} (zero32 : F) where
  unfoldable pub proto_to_score : Option (PbScore F) → Score F
  unfolding proto_label_to_domain
  proto_to_score none = record {
    label = unspecified;
    confidence = zero32;
    polarity = zero32;
    probabilities = [];
  }
  proto_to_score (some s) = record {
    label = proto_label_to_domain s.label;
    confidence = s.confidence;
    polarity = s.polarity;
    probabilities = s.probabilities;
  }

  -- `for i, s := range resp.Scores { out[window[i]] = ProtoToScore(s) }`
  unfoldable pub unpack : List ℕ → List (Option (PbScore F)) → List (Score F) → List (Score F)
  unfolding proto_to_score
  unpack (i ∷ window) (s ∷ scores) out = unpack window scores (set out i (proto_to_score s))
  unpack _ _ out = out

  abbrev pub zero_aspect : AspectScore F
  zero_aspect = record {
    aspect = [];
    score = record {
      label = unspecified;
      confidence = zero32;
      polarity = zero32;
      probabilities = [];
    };
  }

  -- `out[ref.item][ref.pos] = …` along a group and its row of scores
  unfoldable pub unpack_row :
      List AspectRef
      → List (PbAspectScore F)
      → List (List (AspectScore F))
      → List (List (AspectScore F))
  unfolding set_at proto_to_score
  unpack_row (r ∷ rs) (sc ∷ row) out =
      unpack_row rs row
        (set_at out r.item r.pos (record { aspect = sc.aspect; score = proto_to_score sc.score }))
  unpack_row _ _ out = out

  -- the loop over the groups, which stops at the first row of the wrong length
  unfoldable pub unpack_rows :
      List Group
      → List (List (PbAspectScore F))
      → List (List (AspectScore F))
      → Result (List (List (AspectScore F)))
  unfolding unpack_row
  unpack_rows (g ∷ groups) (row ∷ rows) out =
      let rest = unpack_rows groups rows (unpack_row (refs g) row out) in
      if length row == length (refs g)
      then rest
      else fail (
          wrong_count (codes "classify aspects") (length row) (codes " scores for ")
            (length (refs g)) (codes " aspects"))
  unpack_rows _ _ out = done out

module _ {F : Type 0} (zero32 : F) (worker : Worker F) (max_batch : ℕ) where
  -- The body of the loop over the chunks: call number `k`.
  unfoldable pub classify_window : List Str → ℕ → List ℕ → List (Score F) → Result (List (Score F))
  unfolding unpack
  classify_window texts k window out =
      let batch = map (λ i. get_or texts i []) window in
      elim (worker.classify k batch) [
        | fail err ↦ fail (
            call_failed (codes "classify") (length batch) (length texts) max_batch (codes " texts")
              err)
        | done scores ↦
            if length scores == length batch
            then done (unpack zero32 window scores out)
            else fail (
                wrong_count (codes "classify") (length scores) (codes " scores for ") (length batch)
                  (codes " texts"))
      ]

  unfoldable pub classify_loop :
      List Str → List ℕ → ℕ → List (ℕ × ℕ) → List (Score F) → Result (List (Score F))
  unfolding classify_window
  classify_loop texts order k [] out = done out
  classify_loop texts order k ((from, to) ∷ ranges) out = do
    out' ← classify_window texts k (slice from to order) out
    classify_loop texts order (k + 1) ranges out'

  unfoldable pub classify : List Str → Result (List (Score F))
  unfolding classify_loop length_order chunk_ranges
  classify [] = done []
  classify (t ∷ ts) =
      let texts = t ∷ ts in
      let order = length_order texts in
      classify_loop texts order 0 (chunk_ranges (length order) max_batch)
        (replicate (length texts) (proto_to_score zero32 none))

  -- The body of the loop over the chunks of references: call number `k`.
  unfoldable pub classify_groups :
      List AspectInput
      → ℕ
      → List AspectRef
      → List (List (AspectScore F))
      → Result (List (List (AspectScore F)))
  unfolding group_input unpack_rows group_by_item
  classify_groups items k chunk out =
      let groups = group_by_item chunk in
      let total = length (aspect_refs items) in
      elim (worker.classify_aspects k (map (group_input items) groups)) [
        | fail err ↦ fail (
            call_failed (codes "classify aspects") (length chunk) total
              (max_batch * aspect_batch_multiple) (codes " pairs") err)
        | done results ↦
            if length results == length groups
            then unpack_rows zero32 groups results out
            else fail (
                wrong_count (codes "classify aspects") (length results) (codes " rows for ")
                  (length groups) (codes " inputs"))
      ]

  unfoldable pub aspects_loop :
      List AspectInput
      → List AspectRef
      → ℕ
      → List (ℕ × ℕ)
      → List (List (AspectScore F))
      → Result (List (List (AspectScore F)))
  unfolding classify_groups
  aspects_loop items all k [] out = done out
  aspects_loop items all k ((from, to) ∷ ranges) out = do
    out' ← classify_groups items k (slice from to all) out
    aspects_loop items all (k + 1) ranges out'

  unfoldable pub classify_aspects : List AspectInput → Result (List (List (AspectScore F)))
  unfolding aspects_loop aspect_refs chunk_ranges
  classify_aspects [] = done []
  classify_aspects (it ∷ its) =
      let items = it ∷ its in
      let out =
        map (λ (i : AspectInput). replicate (length i.aspects) (zero_aspect zero32)) items in
      let all = aspect_refs items in
      if length all == 0
      then done out
      else aspects_loop items all 0 (chunk_ranges (length all) (max_batch * aspect_batch_multiple))
          out

  unfoldable pub ready : Result ReadyInfo
  ready = worker.ready
