-- ===== src/Domain.antt =====
-- api/internal/domain/domain.go: the types that every protocol surface shares, and the aggregator.
-- An instant is a number of nanoseconds, and 0 is the zero time. Floating point is the record
-- `Floats`: the two formats and the operations that the program applies to them. A `Sentiment` is
-- one of the four string constants, and an int32 counter is its bit pattern.
pub mod Tally
use sentilyzer.Prelude.{
  ℕ, ◌+◌, ◌-◌, ◌%◌, ◌^◌, Bool, true, false, Option, none, some, List, [], ◌∷◌, map, ltb, ◌==◌,
  if◌then◌else◌, Eq, Str, ◌↔◌, ◌≡◌, refl, arith,
}
use sentilyzer.Prelude.Text.{codes, str_lt}
use sentilyzer.Prelude.Maps.{Map, lookup, insert}
use sentilyzer.Prelude.Sort.{sort}

-- float32 and float64, which the program takes from the language.
pub record Floats : Type 1 where
  pub F32 : Type 0
  pub F64 : Type 0
  pub zero32 : F32
  pub zero64 : F64
  pub widen : F32 → F64
  pub narrow : F64 → F32
  pub add64 : F64 → F64 → F64
  pub div64 : F64 → F64 → F64
  pub of_int32 : ℕ → F64
  pub is_nan : F64 → Bool

pub data Sentiment : Type 0 where
  unspecified negative neutral positive : Sentiment

abbrev pub sentiment_beq : Sentiment → Sentiment → Bool
sentiment_beq unspecified unspecified = true
sentiment_beq negative negative = true
sentiment_beq neutral neutral = true
sentiment_beq positive positive = true
sentiment_beq _ _ = false

pub sentiment_beq_iff : (a b : Sentiment) → (sentiment_beq a b ≡ true) ↔ (a ≡ b)
sentiment_beq_iff a b = ground arith

instance abbrev pub sentiment_eq : Eq Sentiment
sentiment_eq = record { beq = sentiment_beq; beq_iff = sentiment_beq_iff }

-- string(label)
abbrev pub sentiment_str : Sentiment → Str
sentiment_str unspecified = []
sentiment_str negative = codes "negative"
sentiment_str neutral = codes "neutral"
sentiment_str positive = codes "positive"

abbrev pub all_sentiments : List Sentiment
all_sentiments = negative ∷ neutral ∷ positive ∷ []

pub record Score (F : Type 0) : Type 0 where
  pub label : Sentiment
  pub confidence : F
  pub polarity : F
  pub probabilities : Map Str F

pub record AspectScore (F : Type 0) : Type 0 where
  pub aspect : Str
  pub score : Score F

pub record Document : Type 0 where
  pub id : Str
  pub text : Str
  pub language : Str
  pub aspects : List Str
  pub metadata : Map Str Str

pub record SourcedDocument : Type 0 where
  pub document : Document
  pub platform : Str
  pub url : Str
  pub author : Str
  pub posted_at : ℕ

pub record DocumentResult (F : Type 0) : Type 0 where
  pub id : Str
  pub overall : Score F
  pub aspects : List (AspectScore F)
  pub analyzed_at : ℕ

pub record SourcedDocumentResult (F : Type 0) : Type 0 where
  pub document : SourcedDocument
  pub result : DocumentResult F

pub record Aggregate (F : Type 0) : Type 0 where
  pub mean_polarity : F
  pub label_counts : Map Str ℕ
  pub modal_label : Sentiment
  pub sample_size : ℕ

pub record Warning : Type 0 where
  pub platform : Str
  pub message : Str

pub record SourcedAnalysis (F : Type 0) : Type 0 where
  pub topic : Str
  pub results : List (SourcedDocumentResult F)
  pub aggregate : Aggregate F
  pub by_platform : Map Str (Aggregate F)
  pub by_aspect : Map Str (Aggregate F)
  pub partial : Bool
  pub warnings : List Warning

pub record HealthInfo : Type 0 where
  pub healthy : Bool
  pub ml_reachable : Bool
  pub version : Str

pub record PlatformInfo : Type 0 where
  pub id : Str
  pub display_name : Str
  pub enabled : Bool
  pub disabled_reason : Str

-- `n++` on an int32
unfoldable pub inc_int32 : ℕ → ℕ
inc_int32 n = (n + 1) % 2 ^ 32

-- `a < b` on int32: the signed order of the bit patterns
unfoldable pub int32_lt : ℕ → ℕ → Bool
int32_lt a b = ltb ((a + 2 ^ 31) % 2 ^ 32) ((b + 2 ^ 31) % 2 ^ 32)

-- the int32 -1
abbrev pub minus_one : ℕ
minus_one = 2 ^ 32 - 1

-- m[k]++ on a map of int32
unfoldable pub bump : Sentiment → Map Sentiment ℕ → Map Sentiment ℕ
unfolding inc_int32
bump k m = insert k (inc_int32 (elim (lookup k m) [ none ↦ 0 | some n ↦ n ])) m

-- the loop for the modal label: the best label so far and its count
unfoldable pub better : Map Sentiment ℕ → Sentiment → Sentiment × ℕ → Sentiment × ℕ
unfolding int32_lt
better buckets label (modal, best) = elim (lookup label buckets) [
  | none ↦ (modal, best)
  | some c ↦ if int32_lt best c then (label, c) else (modal, best)
]

unfoldable pub modal_of : Map Sentiment ℕ → Sentiment
unfolding better
modal_of buckets =
    (better buckets negative
      (better buckets positive (better buckets neutral (neutral, minus_one)))).0

unfoldable pub sort_platforms : List PlatformInfo → List PlatformInfo
unfolding sort
sort_platforms = sort (λ a b. str_lt a.id b.id)

module _ (fl : Floats) where
  open fl use {F32, F64, zero32, zero64, widen, narrow, add64, div64, of_int32, is_nan}

  pub record Aggregator : Type 0 where
    pub count : ℕ
    pub sum_pol : F64
    pub buckets : Map Sentiment ℕ

  unfoldable pub new_aggregator : Aggregator
  new_aggregator = record { count = 0; sum_pol = zero64; buckets = [] }

  unfoldable pub add : Aggregator → Score F32 → Aggregator
  unfolding bump inc_int32
  add a s = record {
    count = inc_int32 a.count;
    sum_pol = add64 a.sum_pol (widen s.polarity);
    buckets = bump s.label a.buckets;
  }

  unfoldable pub aggregate : Aggregator → Aggregate F32
  unfolding modal_of
  aggregate a =
      let mean = narrow (div64 a.sum_pol (of_int32 a.count)) in
      if a.count == 0
      then record {
        mean_polarity = zero32;
        label_counts = [];
        modal_label = unspecified;
        sample_size = 0;
      }
      else record {
        mean_polarity = if is_nan (widen mean) then zero32 else mean;
        label_counts = map (λ b. (sentiment_str b.0, b.1)) a.buckets;
        modal_label = modal_of a.buckets;
        sample_size = a.count;
      }

  -- one `Add` for each score, as the loops over documents make them
  unfoldable pub add_all : Aggregator → List (Score F32) → Aggregator
  unfolding add
  add_all a [] = a
  add_all a (s ∷ ss) = add_all (add a s) ss
