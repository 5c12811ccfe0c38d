-- ===== src/Service/Request.antt =====
-- AnalyzeTopicRequest and its cache key (api/internal/service/service.go, buildCacheKey). SHA-256
-- in hexadecimal is the parameter `hash`, and unicode.ToLower on one rune the parameter `lower`.
pub mod Keys
use sentilyzer.Prelude.{ℕ, List, [], ◌∷◌, ◌++◌, Str}
use sentilyzer.Prelude.Text.{codes, join, str_lt, to_lower, trim_space}
use sentilyzer.Prelude.Int.{ℤ, int_str}
use sentilyzer.Prelude.Sort.{sort}
use sentilyzer.Connectors.{Credentials, fingerprint}

pub record AnalyzeTopicRequest : Type 0 where
  pub topic : Str
  pub platforms : List Str
  pub limit_per_platform : ℤ
  pub aspects : List Str
  pub language : Str
  pub since_seconds : ℤ
  pub location : Str
  pub creds : Credentials

module _ (hash : Str → Str) (lower : ℕ → ℕ) where
  unfoldable pub key_parts : AnalyzeTopicRequest → List Str
  unfolding sort
  key_parts req =
      to_lower lower (trim_space req.topic)
      ∷ (codes "limit=" ++ int_str req.limit_per_platform)
      ∷ (codes "lang=" ++ req.language)
      ∷ (codes "since=" ++ int_str req.since_seconds)
      ∷ (codes "location=" ++ to_lower lower (trim_space req.location))
      ∷ (codes "creds=" ++ fingerprint hash req.creds)
      ∷ (codes "platforms=" ++ join (codes ",") (sort str_lt req.platforms))
      ∷ (codes "aspects=" ++ join (codes ",") (sort str_lt req.aspects))
      ∷ []

  unfoldable pub build_cache_key : AnalyzeTopicRequest → Str
  unfolding key_parts join
  build_cache_key req = hash (join (codes "|") (key_parts req))
