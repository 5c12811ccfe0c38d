-- ===== src/Service/Request/Keys.antt =====
-- What the cache key tells apart (api/internal/service/service.go, buildCacheKey).
use mathlib.Core.List.{append_cancel_left, append_cancel_right}
use sentilyzer.Prelude.{ℕ, ◌≡◌, refl, ◌≢◌, true, false, List, [], ◌∷◌, ◌++◌, Perm, Str, arith}
use sentilyzer.Prelude.Text.{
  codes, join, str_lt, str_lt-IsStrictTotal, List-Str-set, to_lower, trim_space,
}
use sentilyzer.Prelude.Int.{int_str}
use sentilyzer.Prelude.Sort.{sort, sort-eq_of_perm}
use sentilyzer.Connectors.{Credentials, fingerprint, is_zero, no_credentials}
use sentilyzer.Service.Request.{AnalyzeTopicRequest, key_parts, build_cache_key}

module _ (hash : Str → Str) (lower : ℕ → ℕ) where
  -- what the hash of the key is taken of
  abbrev pub key_text : AnalyzeTopicRequest → Str
  key_text req = join (codes "|") (key_parts hash lower req)

  -- The order in which a request names its platforms and its aspects does not show in its key.
  pub build_cache_key-perm :
      (req : AnalyzeTopicRequest) (platforms aspects : List Str)
      → Perm platforms req.platforms
      → Perm aspects req.aspects
      → build_cache_key hash lower (record req { platforms = platforms; aspects = aspects })
        ≡ build_cache_key hash lower req
  unfolding build_cache_key
  build_cache_key-perm req platforms aspects p a = rw (
    sort-eq_of_perm str_lt-IsStrictTotal List-Str-set p,
    sort-eq_of_perm str_lt-IsStrictTotal List-Str-set a,
  )

  -- Two aspects in ascending order, and the one aspect that is their text with a comma between,
  -- share a key.
  pub build_cache_key_comma :
      (req : AnalyzeTopicRequest) (a b : Str)
      → str_lt b a ≡ false
      → build_cache_key hash lower (record req { aspects = (a ++ (codes "," ++ b)) ∷ [] })
        ≡ build_cache_key hash lower (record req { aspects = a ∷ b ∷ [] })
  unfolding build_cache_key
  build_cache_key_comma req a b h = rw h

abbrev pub LacksNul : Str → Type 0
LacksNul [] = Unit
LacksNul (c ∷ s) = (c ≢ 0) × LacksNul s

-- Fields without a NUL can be told apart behind it.
nul_injective :
    (a b r s : Str) → LacksNul a → LacksNul b → a ++ 0 ∷ r ≡ b ++ 0 ∷ s → (a ≡ b) × (r ≡ s)
nul_injective [] [] r s x y h = (refl, ground arith)
nul_injective [] (d ∷ b) r s x y h = absurd (ground arith)
nul_injective (c ∷ a) [] r s x y h = absurd (ground arith)
nul_injective (c ∷ a) (d ∷ b) r s x y h = ground (arith, nul_injective a b r s)

-- a separated list can be told apart in the middle
join-middle :
    (sep : Str) (xs : List Str) (f g y : Str) (ys : List Str)
    → join sep (xs ++ f ∷ y ∷ ys) ≡ join sep (xs ++ g ∷ y ∷ ys)
    → f ≡ g
unfolding join
join-middle sep [] f g y ys h = append_cancel_right f g (sep ++ join sep (y ∷ ys)) h
join-middle sep (x ∷ []) f g y ys h =
    join-middle sep [] f g y ys (append_cancel_left sep _ _ (append_cancel_left x _ _ h))
join-middle sep (x ∷ x' ∷ xs) f g y ys h =
    join-middle sep (x' ∷ xs) f g y ys (append_cancel_left sep _ _ (append_cancel_left x _ _ h))

is_zero-eq : (c : Credentials) → is_zero c ≡ true → c ≡ no_credentials
unfolding is_zero
is_zero-eq c h = ground arith

-- what the fingerprint hashes
abbrev pub fields : Credentials → Str
fields c = join (0 ∷ []) (c.youtube_api_key ∷ c.mastodon_token ∷ c.mastodon_instance ∷ [])

pub record LacksNuls (c : Credentials) : Type 0 where
  pub youtube : LacksNul c.youtube_api_key
  pub token : LacksNul c.mastodon_token

-- Two texts do not collide under the hash.
pub record NoCollision (hash : Str → Str) (s t : Str) : Type 0 where
  pub apart : hash s ≡ hash t → s ≡ t

module _ (hash : Str → Str) (lower : ℕ → ℕ) (hash_not_empty : (s : Str) → hash s ≢ []) where
  fields-eq : (c d : Credentials) → LacksNuls c → LacksNuls d → fields c ≡ fields d → c ≡ d
  unfolding join
  fields-eq c d lc ld h =
      let (y, rest) =
        nul_injective c.youtube_api_key d.youtube_api_key _ _ lc.youtube ld.youtube h in
      let (t, i) = nul_injective c.mastodon_token d.mastodon_token _ _ lc.token ld.token rest in
      ground (arith, y, t, i)

  fingerprint-injective :
      (c d : Credentials)
      → LacksNuls c
      → LacksNuls d
      → NoCollision hash (fields c) (fields d)
      → fingerprint hash c ≡ fingerprint hash d
      → c ≡ d
  unfolding fingerprint
  fingerprint-injective c d lc ld apart h = ground (
    arith,
    is_zero-eq c,
    is_zero-eq d,
    hash_not_empty (fields c),
    hash_not_empty (fields d),
    apart.apart,
    fields-eq c d lc ld,
  )

  -- the parts of the key in front of the credentials
  abbrev before_creds : AnalyzeTopicRequest → List Str
  before_creds req =
      to_lower lower (trim_space req.topic)
      ∷ (codes "limit=" ++ int_str req.limit_per_platform)
      ∷ (codes "lang=" ++ req.language)
      ∷ (codes "since=" ++ int_str req.since_seconds)
      ∷ (codes "location=" ++ to_lower lower (trim_space req.location))
      ∷ []

  -- Callers with different credentials do not share a cache entry: two requests that differ in the
  -- credentials alone have different cache keys, if the credentials hold no NUL and neither their
  -- texts nor those of the two keys collide under the hash.
  pub build_cache_key-creds :
      (req : AnalyzeTopicRequest) (c d : Credentials)
      → LacksNuls c
      → LacksNuls d
      → NoCollision hash (fields c) (fields d)
      → NoCollision hash
          (key_text hash lower (record req { creds = c }))
          (key_text hash lower (record req { creds = d }))
      → build_cache_key hash lower (record req { creds = c })
        ≡ build_cache_key hash lower (record req { creds = d })
      → c ≡ d
  unfolding build_cache_key key_parts
  build_cache_key-creds req c d lc ld apart apart' h = fingerprint-injective c d lc ld apart (
      append_cancel_left (codes "creds=") (fingerprint hash c) (fingerprint hash d) (
        join-middle (codes "|") (before_creds req) (codes "creds=" ++ fingerprint hash c)
          (codes "creds=" ++ fingerprint hash d)
          (codes "platforms=" ++ join (codes ",") (sort str_lt req.platforms))
          ((codes "aspects=" ++ join (codes ",") (sort str_lt req.aspects)) ∷ []) (apart'.apart h)))
