-- ===== src/Tests/Requests.antt =====
-- Witnesses on the cache key, the choice of platforms, the fan-out and the de-duplication
-- (api/internal/service/service.go).

use mathlib.Core.List.Perm
use sentilyzer.Prelude.{
  ◌∷◌, [], arith, List, ◌≡◌, ◌↔◌, ◌&&◌, refl, Str, ◌++◌, true, false, zero, suc,
}
use sentilyzer.Prelude.Int
use sentilyzer.Prelude.Text.{codes, str_lt}
use sentilyzer.Prelude.Members.{In, SubList}
use sentilyzer.Errors.{done, message}
use sentilyzer.Domain.{SourcedDocument, Warning}
use sentilyzer.Connectors.{Credentials, no_credentials, Connector, list, usable, Registry}
use sentilyzer.Service.Request.{AnalyzeTopicRequest, build_cache_key}
use sentilyzer.Service.Request.Keys.{
  build_cache_key-perm, build_cache_key_comma, build_cache_key-creds, LacksNuls, NoCollision,
  fields, key_text,
}
use sentilyzer.Service.Select.{select_platforms}
use sentilyzer.Service.Select.Selected.{asked_for, select_platforms_lem}
use sentilyzer.Service.Fanout.{fanout}
use sentilyzer.Service.Fanout.Outcomes.{
  Covers, failed, all_failed, answers, found, dropped, fanout_deterministic, failed-fanout,
  fanout-found,
}
use sentilyzer.Service.Dedupe.{dedupe_by_id}
use sentilyzer.Service.Dedupe.Distinct.{distinct, doc_keys, first_with, dedupe_by_id_lem}
use sentilyzer.Tests.{lower, news, broken, query, post}

abbrev request : AnalyzeTopicRequest
request = record {
  topic = codes "Go";
  platforms = codes "news" ∷ codes "broken" ∷ [];
  limit_per_platform = Int.pos 5;
  aspects = codes "price" ∷ codes "speed" ∷ [];
  language = [];
  since_seconds = Int.pos 0;
  location = [];
  creds = no_credentials;
}

abbrev own_key : Str → Credentials
own_key k = record { youtube_api_key = k; mastodon_token = []; mastodon_instance = [] }

-- A hash without collisions: the text behind a mark.
abbrev hash : Str → Str
hash s = 35 ∷ s

build_cache_key-perm_example :
    build_cache_key hash lower (record request {
      platforms = codes "broken" ∷ codes "news" ∷ [];
      aspects = codes "speed" ∷ codes "price" ∷ [];
    })
    ≡ build_cache_key hash lower request
build_cache_key-perm_example =
    build_cache_key-perm hash lower request (codes "broken" ∷ codes "news" ∷ [])
      (codes "speed" ∷ codes "price" ∷ []) (Perm.swap (codes "news") (codes "broken") [])
      (Perm.swap (codes "price") (codes "speed") [])

in_order : str_lt (codes "b") (codes "a") ≡ false
unfolding str_lt
in_order = refl

build_cache_key_comma_example :
    build_cache_key hash lower (record request { aspects = codes "a,b" ∷ [] })
    ≡ build_cache_key hash lower (record request { aspects = codes "a" ∷ codes "b" ∷ [] })
build_cache_key_comma_example =
    build_cache_key_comma hash lower request (codes "a") (codes "b") in_order

lacks : LacksNuls (own_key (codes "k"))
lacks = record { youtube = (ground arith, tt); token = tt }

kept_apart : (s t : Str) → NoCollision hash s t
kept_apart s t = record { apart = λ e. ground (arith, e) }

build_cache_key-creds_example : own_key (codes "k") ≡ own_key (codes "k")
build_cache_key-creds_example =
    build_cache_key-creds hash lower (λ s. ground arith) request (own_key (codes "k"))
      (own_key (codes "k")) lacks lacks
      (kept_apart (fields (own_key (codes "k"))) (fields (own_key (codes "k"))))
      (kept_apart (key_text hash lower (record request { creds = own_key (codes "k") }))
        (key_text hash lower (record request { creds = own_key (codes "k") })))
      refl

abbrev registry : Registry
registry = (codes "news", news) ∷ (codes "broken", broken) ∷ []

select_platforms_lem_example :
    (In news (select_platforms lower registry (codes " News" ∷ []) no_credentials) ↔ (
      In news (list registry)
      × ((asked_for lower (codes " News" ∷ []) news && usable news no_credentials) ≡ true)))
    × SubList (select_platforms lower registry (codes " News" ∷ []) no_credentials) (list registry)
select_platforms_lem_example =
    select_platforms_lem lower registry (codes " News" ∷ []) no_credentials news

abbrev both : List Connector
both = news ∷ broken ∷ []

forward : Covers (0 ∷ 1 ∷ []) both
forward zero h = refl
forward (suc zero) h = refl
forward (suc (suc j)) h = absurd (omega arith)

backward : Covers (1 ∷ 0 ∷ []) both
backward zero h = refl
backward (suc zero) h = refl
backward (suc (suc j)) h = absurd (omega arith)

fanout_deterministic_example :
    fanout 3 (codes "3s") (0 ∷ 1 ∷ []) both query ≡ fanout 3 (codes "3s") (1 ∷ 0 ∷ []) both query
fanout_deterministic_example =
    fanout_deterministic 3 (codes "3s") query (0 ∷ 1 ∷ []) (1 ∷ 0 ∷ []) both forward backward

failed-fanout_example :
    failed (fanout 3 (codes "3s") (1 ∷ 0 ∷ []) both query)
    ≡ all_failed (answers 3 (codes "3s") query both)
failed-fanout_example = failed-fanout 3 (codes "3s") query (1 ∷ 0 ∷ []) both backward

abbrev two_posts : List SourcedDocument
two_posts =
    post (codes "news") (codes "1") (codes "good")
    ∷ post (codes "news") (codes "2") (codes "bad")
    ∷ []

abbrev late : Warning
late = record { platform = codes "broken"; message = codes "timed out after 3s" }

ran : fanout 3 (codes "3s") (1 ∷ 0 ∷ []) both query ≡ done (two_posts, late ∷ [])
unfolding fanout message
ran = refl

fanout-found_example :
    (two_posts ≡ found (answers 3 (codes "3s") query both))
    × (codes "broken" ∷ [] ≡ dropped (answers 3 (codes "3s") query both))
fanout-found_example = fanout-found 3 (codes "3s") query (1 ∷ 0 ∷ []) both backward ran

dedupe_by_id_lem_example :
    (distinct (doc_keys (dedupe_by_id (two_posts ++ two_posts))) ≡ true)
    × ((k : Str)
        → first_with k (dedupe_by_id (two_posts ++ two_posts))
          ≡ first_with k (two_posts ++ two_posts))
    × SubList (dedupe_by_id (two_posts ++ two_posts)) (two_posts ++ two_posts)
dedupe_by_id_lem_example = dedupe_by_id_lem (two_posts ++ two_posts)
