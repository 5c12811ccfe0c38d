-- ===== src/Domain/Tally.antt =====
-- What the aggregator counts: api/internal/domain/domain.go, `Add` and `Aggregate`.
use sentilyzer.Prelude.{
  ℕ, ◌+◌, ◌^◌, ◌≤◌, ◌<◌, ◌≡◌, refl, ap, ◌∙◌, Option, none, some, List, [], ◌∷◌, map, length, ltb,
  ◌==◌, if◌then◌else◌, ◌=?◌, str_eq, arith, str_instance, inl, inr, Bool-cases,
}
use sentilyzer.Prelude.Maps.{Map, lookup, lookup-insert}
use sentilyzer.Domain.{
  Floats, Sentiment, negative, neutral, positive, sentiment_eq, sentiment_beq_iff, sentiment_str,
  Score, inc_int32, int32_lt, bump, better, modal_of, Aggregator, new_aggregator, add, aggregate,
  add_all,
}

-- How many scores carry the label.
abbrev pub tally : {F : Type 0} → Sentiment → List (Score F) → ℕ
tally l [] = 0
tally l (s ∷ ss) = (if s.label =? l then 1 else 0) + tally l ss

-- A label that never occurs has no entry.
abbrev pub opt_count : ℕ → Option ℕ
opt_count n = if n == 0 then none else some n

pub tally-le-length : {F : Type 0} (l : Sentiment) (ss : List (Score F)) → tally l ss ≤ length ss
tally-le-length l [] = omega arith
tally-le-length l (s ∷ ss) = ground (arith, tally-le-length l ss)

lookup-bump :
    (k l : Sentiment) (m : Map Sentiment ℕ) (c : Sentiment → ℕ)
    → ((j : Sentiment) → lookup j m ≡ opt_count (c j))
    → c k + 1 < 2 ^ 31
    → lookup l (bump k m) ≡ opt_count (c l + (if k =? l then 1 else 0))
unfolding bump inc_int32
lookup-bump k l m c h bound = rw lookup-insert (ground (arith, h k, h l, sentiment_beq_iff k l))

sentiment_str_beq : (a b : Sentiment) → str_eq (sentiment_str a) (sentiment_str b) ≡ (a =? b)
unfolding str_eq
sentiment_str_beq a b = ground arith

lookup-map-sentiment_str :
    (l : Sentiment) (m : Map Sentiment ℕ)
    → lookup (sentiment_str l) (map (λ b. (sentiment_str b.0, b.1)) m) ≡ lookup l m
unfolding lookup
lookup-map-sentiment_str l [] = refl
lookup-map-sentiment_str l ((k, n) ∷ m) = rw (sentiment_str_beq k l, lookup-map-sentiment_str l m)

modal_of_lem :
    (m : Map Sentiment ℕ) (c : Sentiment → ℕ)
    → ((l : Sentiment) → lookup l m ≡ opt_count (c l))
    → ((l : Sentiment) → c l < 2 ^ 31)
    → modal_of m ≡ (
        if ltb (c neutral) (c positive)
        then (if ltb (c positive) (c negative) then negative else positive)
        else if ltb (c neutral) (c negative)
        then negative
        else neutral)
unfolding modal_of better int32_lt
modal_of_lem m c h bound =
    ground (arith, h neutral, h positive, h negative, bound neutral, bound positive, bound negative)

module _ (fl : Floats) where
  open fl use {F32}

  count-add_all :
      (ss : List (Score F32)) (a : Aggregator fl)
      → a.count + length ss < 2 ^ 31
      → (add_all fl a ss).count ≡ a.count + length ss
  unfolding add_all
  count-add_all [] a bound = omega arith
  count-add_all (s ∷ ss) a bound = ground (arith, count-add_all ss (add fl a s))

  lookup-add_all :
      (ss : List (Score F32)) (a : Aggregator fl) (c : Sentiment → ℕ) (l : Sentiment)
      → ((j : Sentiment) → lookup j a.buckets ≡ opt_count (c j))
      → ((j : Sentiment) → c j + length ss < 2 ^ 31)
      → lookup l (add_all fl a ss).buckets ≡ opt_count (c l + tally l ss)
  unfolding add_all
  lookup-add_all [] a c l h bound = ground (arith, h l)
  lookup-add_all (s ∷ ss) a c l h bound =
      lookup-add_all ss (add fl a s) (λ j. c j + (if s.label =? j then 1 else 0)) l
        (λ j. lookup-bump s.label j a.buckets c h (ground (arith, bound s.label)))
        (λ j. ground (arith, bound j))
      ∙ ap opt_count (omega arith)

  count-all :
      (ss : List (Score F32))
      → length ss < 2 ^ 31
      → (add_all fl (new_aggregator fl) ss).count ≡ length ss
  unfolding new_aggregator
  count-all ss bound = omega (arith, count-add_all ss (new_aggregator fl) (ground arith))

  lookup-all :
      (ss : List (Score F32)) (l : Sentiment)
      → length ss < 2 ^ 31
      → lookup l (add_all fl (new_aggregator fl) ss).buckets ≡ opt_count (tally l ss)
  unfolding new_aggregator lookup
  lookup-all ss l bound =
      lookup-add_all ss (new_aggregator fl) (λ j. 0) l (λ j. refl) (λ j. ground arith)
      ∙ ap opt_count (omega arith)

  -- Of fewer than 2^31 scores: the sample size is their number, and the count of each label is the
  -- number of scores that carry it, with no entry for a label that none carries.
  pub aggregate_counts :
      (ss : List (Score F32)) (l : Sentiment)
      → length ss < 2 ^ 31
      → let out = aggregate fl (add_all fl (new_aggregator fl) ss) in
        (out.sample_size ≡ length ss)
        × (lookup (sentiment_str l) out.label_counts ≡ opt_count (tally l ss))
  unfolding aggregate lookup
  aggregate_counts ss l bound =
      let m = (add_all fl (new_aggregator fl) ss).buckets in
      elim (Bool-cases (length ss == 0)) [
        | inl empty ↦ rw (count-all ss bound, empty) (ground (arith, tally-le-length l ss))
        | inr more ↦
            rw (count-all ss bound, more)
              (ground (arith, lookup-map-sentiment_str l m, lookup-all ss l bound))
      ]

  -- Of at least one and fewer than 2^31 scores, the modal label is positive or negative only if
  -- strictly more scores carry it than neutral; between positive and negative the larger number
  -- wins, and positive wins their tie. Neutral wins every other case, also where no score carries
  -- any of the three labels.
  pub aggregate-modal_label :
      (s : Score F32) (ss : List (Score F32))
      → length (s ∷ ss) < 2 ^ 31
      → (aggregate fl (add_all fl (new_aggregator fl) (s ∷ ss))).modal_label ≡ (
          let c = λ (l : Sentiment). tally l (s ∷ ss) in
          if ltb (c neutral) (c positive)
          then (if ltb (c positive) (c negative) then negative else positive)
          else if ltb (c neutral) (c negative)
          then negative
          else neutral)
  unfolding aggregate
  aggregate-modal_label s ss bound =
      let m = (add_all fl (new_aggregator fl) (s ∷ ss)).buckets in
      let modal =
        modal_of_lem m (λ l. tally l (s ∷ ss)) (λ l. lookup-all (s ∷ ss) l bound)
          (λ l. omega (arith, tally-le-length l (s ∷ ss))) in
      rw (count-all (s ∷ ss) bound) (ground (arith, modal))
