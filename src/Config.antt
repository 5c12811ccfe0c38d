-- ===== src/Config.antt =====
-- api/internal/config/config.go. The environment is the parameter `getenv`, empty where a variable
-- is not set, and strconv.Atoi, strconv.ParseBool and time.ParseDuration are the record `Parsers`.
pub mod Loaded
use sentilyzer.Prelude.{
  ℕ, Bool, true, false, not, ◌&&◌, Option, none, some, Str, [], ltb, if◌then◌else◌,
}
use sentilyzer.Prelude.Int.{ℤ, pos, negsuc}
use sentilyzer.Prelude.Text.{codes, is_empty}
use sentilyzer.Errors.{GoError, text, wrap, Result, done, fail}
use sentilyzer.Connectors.Mastodon.{MastodonCreds}

pub record Parsers : Type 0 where
  pub atoi : Str → Option ℤ
  pub parse_bool : Str → Option Bool
  pub parse_duration : Str → Result ℤ

pub record RedditCreds : Type 0 where
  pub client_id : Str
  pub client_secret : Str
  pub user_agent : Str

pub record Config : Type 0 where
  pub http_addr : Str
  pub grpc_addr : Str
  pub ml_addr : Str
  pub ml_max_batch : ℤ
  pub use_mock : Bool
  pub log_level : Str
  pub cache_ttl : ℤ
  pub rate_ip_per_min : ℤ
  pub rate_global_per_min : ℤ
  pub reddit : RedditCreds
  pub twitter_bearer_token : Str
  pub mastodon : MastodonCreds
  pub youtube_api_key : Str

-- `n < 1` and `n < 0`
abbrev pub below_one : ℤ → Bool
below_one (pos n) = ltb n 1
below_one (negsuc n) = true

abbrev pub is_negative : ℤ → Bool
is_negative (pos n) = false
is_negative (negsuc n) = true

unfoldable pub reddit_enabled : RedditCreds → Bool
reddit_enabled r = not (is_empty r.client_id) && not (is_empty r.client_secret)

module _ (os_getenv : Str → Str) (p : Parsers) where
  unfoldable pub getenv : Str → Str → Str
  getenv key fallback = if not (is_empty (os_getenv key)) then os_getenv key else fallback

  unfoldable pub getenv_int : Str → ℤ → ℤ
  getenv_int key fallback =
      let parsed : ℤ = elim (p.atoi (os_getenv key)) [
        | none ↦ fallback
        | some n ↦ if below_one n then fallback else n
      ] in
      if is_empty (os_getenv key) then fallback else parsed

  unfoldable pub getenv_int_non_neg : Str → ℤ → ℤ
  getenv_int_non_neg key fallback =
      let parsed : ℤ = elim (p.atoi (os_getenv key)) [
        | none ↦ fallback
        | some n ↦ if is_negative n then fallback else n
      ] in
      if is_empty (os_getenv key) then fallback else parsed

  unfoldable pub getenv_bool : Str → Bool → Bool
  getenv_bool key fallback =
      let parsed : Bool = elim (p.parse_bool (os_getenv key)) [ none ↦ fallback | some b ↦ b ] in
      if is_empty (os_getenv key) then fallback else parsed

  -- the literal that Load starts from
  unfoldable pub read_env : ℤ → Config
  read_env ttl = record {
    http_addr = getenv (codes "SENTILYZER_HTTP_ADDR") (codes ":8080");
    grpc_addr = getenv (codes "SENTILYZER_GRPC_ADDR") (codes ":9090");
    ml_addr = getenv (codes "SENTILYZER_ML_ADDR") (codes "localhost:50051");
    ml_max_batch = getenv_int (codes "SENTILYZER_ML_MAX_BATCH") (pos 32);
    use_mock = getenv_bool (codes "SENTILYZER_USE_MOCK") false;
    log_level = getenv (codes "SENTILYZER_LOG_LEVEL") (codes "info");
    cache_ttl = ttl;
    rate_ip_per_min = getenv_int_non_neg (codes "SENTILYZER_RATE_IP_RPM") (pos 120);
    rate_global_per_min = getenv_int_non_neg (codes "SENTILYZER_RATE_GLOBAL_RPM") (pos 1200);
    reddit = record {
      client_id = os_getenv (codes "REDDIT_CLIENT_ID");
      client_secret = os_getenv (codes "REDDIT_CLIENT_SECRET");
      user_agent = getenv (codes "REDDIT_USER_AGENT") (codes "sentilyzer/0.1");
    };
    twitter_bearer_token = os_getenv (codes "TWITTER_BEARER_TOKEN");
    mastodon = record {
      instance_url = getenv (codes "MASTODON_INSTANCE") (codes "https://mastodon.social");
      access_token = os_getenv (codes "MASTODON_ACCESS_TOKEN");
    };
    youtube_api_key = os_getenv (codes "YOUTUBE_API_KEY");
  }

  unfoldable pub load : Result Config
  unfolding read_env
  load = elim (p.parse_duration (getenv (codes "SENTILYZER_CACHE_TTL") (codes "10m"))) [
    | fail err ↦ fail (wrap (codes "invalid SENTILYZER_CACHE_TTL: ") err [])
    | done ttl ↦
        let cfg = read_env ttl in
        if is_empty cfg.http_addr && is_empty cfg.grpc_addr
        then fail (
            text (codes "at least one of SENTILYZER_HTTP_ADDR or SENTILYZER_GRPC_ADDR must be set"))
        else done cfg
  ]
