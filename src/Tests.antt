-- ===== src/Tests.antt =====
-- Concrete instances of what the model takes as parameters, and the witnesses of the theorems at
-- concrete inputs, one module for each part of the program.
mod Counting
mod Batching
mod Caching
mod Requests
mod Answers
mod Transport
mod Platforms
mod Harvesting
mod Memory
mod Surfaces
mod Headlines
mod Archive
mod Cursors
mod Feeds
use sentilyzer.Prelude.{
  ℕ, ◌+◌, ◌/◌, ◌≡◌, ◌≢◌, refl, sym, ◌∙◌, Bool, true, false, not, Option, none, some, List, [], ◌∷◌,
  map, length, Str, ltb, leb, if◌then◌else◌, Eq, ◌=?◌, arith, str_instance, str_eq, str_eq_iff, inl,
  inr, Bool-cases, str_eq_refl,
}
use sentilyzer.Prelude.Text.{codes}
use sentilyzer.Prelude.Int
use sentilyzer.Prelude.Maps.{Map, lookup, insert, lookup-insert}
use sentilyzer.Errors.{Result, done, fail, text}
use sentilyzer.Domain.{
  Floats, Score, AspectScore, Document, SourcedDocument, positive, negative, neutral, Sentiment,
}
use sentilyzer.Cache.{Lru, IsLru}
use sentilyzer.Inference.Batch.{AspectInput}
use sentilyzer.Inference.Client.{PbScore, Worker}
use sentilyzer.Service.Text.{Client}
use sentilyzer.Connectors.{Connector, Query, Credentials, no_credentials, Searched}

-- Whole numbers in place of floating point.
abbrev pub whole : Floats
whole = record {
  F32 = ℕ;
  F64 = ℕ;
  zero32 = 0;
  zero64 = 0;
  widen = λ x. x;
  narrow = λ x. x;
  add64 = λ x y. x + y;
  div64 = λ x y. x / y;
  of_int32 = λ n. n;
  is_nan = λ x. false;
}

abbrev pub score : Sentiment → ℕ → Score ℕ
score l p = record { label = l; confidence = p; polarity = p; probabilities = [] }

-- An LRU that is never full.
abbrev pub remove_key : {V : Type 0} → Str → Map Str V → Map Str V
remove_key k [] = []
remove_key k ((j, v) ∷ m) = if str_eq j k then remove_key k m else (j, v) ∷ remove_key k m

abbrev pub ample : (V : Type 0) → Lru Str V
ample V = record {
  State = Map Str V;
  create = λ n. if ltb 0 n then some [] else none;
  get = λ m k. (lookup k m, m);
  add = λ m k v. insert k v m;
  remove = λ m k. remove_key k m;
  size = length;
}

lookup-remove_key :
    {V : Type 0} (k j : Str) (m : Map Str V)
    → lookup j (remove_key k m) ≡ (if str_eq k j then none else lookup j m)
unfolding lookup
lookup-remove_key k j [] = ground arith
lookup-remove_key k j ((i, w) ∷ m) =
    ground (arith, str_eq_iff i k, str_eq_iff i j, str_eq_iff k j, lookup-remove_key k j m)

pub ample-IsLru : (V : Type 0) → IsLru (ample V)
unfolding lookup
ample-IsLru V = record {
  create_empty = λ n k h. ground arith;
  get_get = λ s k j. refl;
  get-add_self = λ s k v. rw lookup-insert (ground (arith, str_eq_refl k));
  get-add_ne = λ s k j v w h p. ground (arith, lookup-insert k j v s, str_eq_iff k j);
  get-remove_self = λ s k. rw lookup-remove_key (ground (arith, str_eq_refl k));
  get-remove_ne = λ s k j h. rw lookup-remove_key (ground (arith, str_eq_iff k j));
}

-- A worker that scores a text by its length: above three letters positive.
abbrev pub by_length : Str → Option (PbScore ℕ)
by_length t = some (record {
  label = if ltb 3 (length t) then 3 else 1;
  confidence = length t;
  polarity = length t;
  probabilities = [];
})

abbrev pub honest : Worker ℕ
honest = record {
  classify = λ k texts. done (map by_length texts);
  classify_aspects = λ k items. done (
      map
        (λ (i : AspectInput). map (λ a. record { aspect = a; score = by_length i.text }) i.aspects)
        items);
  ready = fail (text (codes "starting"));
}

-- The client of the interface, on its own.
abbrev pub local_score : Str → Score ℕ
local_score t = score (if ltb 3 (length t) then positive else negative) (length t)

abbrev pub local_row : AspectInput → List (AspectScore ℕ)
local_row i = map (λ a. record { aspect = a; score = local_score i.text }) i.aspects

abbrev pub local : Client ℕ
local = record {
  classify = λ texts. done (map local_score texts);
  classify_aspects = λ items. done (map local_row items);
  ready = fail (text (codes "none"));
}

abbrev pub lower : ℕ → ℕ
lower c = if leb 65 c then (if leb c 90 then c + 32 else c) else c

abbrev pub post : Str → Str → Str → SourcedDocument
post platform id body = record {
  document = record { id = id; text = body; language = []; aspects = []; metadata = [] };
  platform = platform;
  url = [];
  author = [];
  posted_at = 7;
}

-- A connector that finds two posts, and one that fails.
abbrev pub news : Connector
news = record {
  id = codes "news";
  display_name = codes "News";
  enabled = (true, []);
  enabled_with = none;
  policy = record { durable = true; backfillable = true; reason = [] };
  search = λ t q. record {
    answer = done (
        post (codes "news") (codes "1") (codes "good")
        ∷ post (codes "news") (codes "2") (codes "bad")
        ∷ []);
    deadline_passed = false;
  };
}

abbrev pub broken : Connector
broken = record {
  id = codes "broken";
  display_name = codes "Broken";
  enabled = (true, []);
  enabled_with = none;
  policy = record { durable = false; backfillable = false; reason = [] };
  search = λ t q. record { answer = fail (text (codes "down")); deadline_passed = true };
}

abbrev pub query : Query
query = record {
  topic = codes "go";
  limit = Int.pos 20;
  language = [];
  since_seconds = Int.pos 0;
  location = [];
  creds = no_credentials;
}
