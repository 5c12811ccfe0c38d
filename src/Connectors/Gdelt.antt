-- ===== src/Connectors/Gdelt.antt =====
-- api/internal/connectors/gdelt.go. The HTTP exchange, time.Parse, hashID, unicode.ToLower on one rune
-- and the wait of the throttle are parameters; the URL of the DOC 2.0 API is taken to parse.
pub mod Timespan
pub mod Slots
pub mod Quoted
use sentilyzer.Prelude.{
  ℕ, ◌+◌, ◌-◌, ◌==◌, not, Option, none, some, List, [], ◌∷◌, ◌++◌, Str, str_instance, ltb,
  if◌then◌else◌,
}
use sentilyzer.Prelude.Int.{ℤ, pos, negsuc, is_positive}
use sentilyzer.Prelude.Maps.{Map, lookup}
use sentilyzer.Prelude.Text.{codes, is_empty, itoa, to_lower, trim_space}
use sentilyzer.Errors.{GoError, text, wrap, Result, done, fail}
use sentilyzer.Domain.{SourcedDocument}
use sentilyzer.Connectors.{Query}
use sentilyzer.Connectors.Fips.{country_fips}
use sentilyzer.Connectors.Location.{and_location, remove_char}
use sentilyzer.Connectors.Gdelt.Timespan.{gdelt_timespan}

-- an element of gdeltArtListResp
pub record Article : Type 0 where
  pub url : Str
  pub title : Str
  pub seen_date : Str
  pub domain : Str

-- the query parameters that vary
pub record ArtListRequest : Type 0 where
  pub query : Str
  pub maxrecords : ℕ
  pub timespan : Option Str

-- the answer's status, and what decoding its body gives, if it is the expected JSON
pub record ArtListReply : Type 0 where
  pub code : ℕ
  pub body : Option (List Article)

-- 5 s, in nanoseconds
abbrev pub min_interval : ℕ
min_interval = 5_000_000_000

unfoldable pub gdelt_langs : Map Str Str
gdelt_langs =
    (codes "en", codes "english")
    ∷ (codes "es", codes "spanish")
    ∷ (codes "fr", codes "french")
    ∷ (codes "de", codes "german")
    ∷ (codes "pt", codes "portuguese")
    ∷ (codes "it", codes "italian")
    ∷ (codes "nl", codes "dutch")
    ∷ (codes "ru", codes "russian")
    ∷ (codes "ja", codes "japanese")
    ∷ (codes "zh", codes "chinese")
    ∷ (codes "ar", codes "arabic")
    ∷ (codes "ko", codes "korean")
    ∷ []

-- The reservation under the mutex: the wait, and the new `next`. Times are nanoseconds.
unfoldable pub reserve : ℕ → ℕ → ℕ → ℕ × ℕ
reserve interval now next = let wait = next - now in (wait, now + (wait + interval))

-- `waited` is what the select over a wait of that length returns: nothing, or the context's error.
unfoldable pub throttle : (ℕ → Option GoError) → ℕ → ℕ → ℕ → ℕ × Option GoError
unfolding reserve
throttle waited interval now next =
    let slot = reserve interval now next in (slot.1, if slot.0 == 0 then none else waited slot.0)

-- `limit`: 25 if it is not positive, at most 250
unfoldable pub record_limit : ℤ → ℕ
record_limit (pos n) = if n == 0 then 25 else if ltb 250 n then 250 else n
record_limit (negsuc n) = 25

unfoldable pub quoted : Str → Str
unfolding remove_char
quoted topic = b'"' ∷ (remove_char b'"' topic ++ b'"' ∷ [])

-- the clause for the location, then the one for the language
unfoldable pub located : (ℕ → ℕ) → Query → Str
unfolding quoted and_location
located lower q = elim (country_fips lower q.location) [
  | some code ↦ quoted q.topic ++ (codes " sourcecountry:" ++ code)
  | none ↦ and_location (quoted q.topic) q.location
]

unfoldable pub gdelt_query : (ℕ → ℕ) → Query → Str
gdelt_query lower q = elim (lookup (to_lower lower q.language) gdelt_langs) [
  | some name ↦ located lower q ++ (codes " sourcelang:" ++ name)
  | none ↦ located lower q
]

unfoldable pub art_list_request : (ℕ → ℕ) → Query → ArtListRequest
unfolding gdelt_query record_limit gdelt_timespan
art_list_request lower q = record {
  query = gdelt_query lower q;
  maxrecords = record_limit q.limit;
  timespan = if is_positive q.since_seconds then some (gdelt_timespan q.since_seconds) else none;
}

module _ (hash_id : Str → Str) (parse_seen : Str → Option ℕ) where
  -- the loop over the articles; a date that does not parse is the zero time
  unfoldable pub headlines : List Article → List SourcedDocument
  headlines [] = []
  headlines (a ∷ as') =
      let rest = headlines as' in
      let title = trim_space a.title in
      if is_empty title
      then rest
      else record {
        document = record {
          id = codes "gdelt-" ++ hash_id a.url;
          text = title;
          language = [];
          aspects = [];
          metadata = [];
        };
        platform = codes "gdelt";
        url = a.url;
        author = a.domain;
        posted_at = elim (parse_seen a.seen_date) [ none ↦ 0 | some t ↦ t ];
      }
        ∷ rest

  unfoldable pub read_articles : Result ArtListReply → Result (List SourcedDocument)
  unfolding headlines
  read_articles (fail err) = fail (wrap (codes "gdelt: ") err [])
  read_articles (done r) =
      if not (r.code == 200)
      then fail (text (codes "gdelt: status " ++ itoa r.code))
      else elim r.body [
        | none ↦ fail (text (codes "gdelt: unexpected response (query rejected?)"))
        | some articles ↦ done (headlines articles)
      ]

  -- the new `next`, and the result
  unfoldable pub search :
      (ℕ → ℕ)
      → (ℕ → Option GoError)
      → (ArtListRequest → Result ArtListReply)
      → ℕ
      → ℕ
      → ℕ
      → Query
      → ℕ × Result (List SourcedDocument)
  unfolding throttle art_list_request read_articles
  search lower waited exchange interval now next q =
      let slot = throttle waited interval now next in
      if is_empty q.topic then (next, done []) else (
        slot.0,
        elim slot.1 [
          | some err ↦ fail (wrap (codes "gdelt: ") err [])
          | none ↦ read_articles (exchange (art_list_request lower q))
        ],
      )
