-- ===== src/Tests/Platforms.antt =====
-- Witnesses on the platform connectors (api/internal/connectors/mastodon.go) and the
-- configuration (api/internal/config/config.go).
use sentilyzer.Prelude.{
  str_instance, if◌then◌else◌, ◌∷◌, [], List, ◌≡◌, ◌⊎◌, refl, Str, str_eq, true, false, Option,
  some, none, false, if◌then◌else◌,
}
use sentilyzer.Prelude.Int.{ℤ, pos, is_positive}
use sentilyzer.Prelude.Text.{codes, is_empty}
use sentilyzer.Errors.{Result, done, fail, text}
use sentilyzer.Config.{Parsers, getenv, load, read_env, is_negative}
use sentilyzer.Config.Loaded.{loaded, load_lem}
use sentilyzer.Connectors.{Query}
use sentilyzer.Connectors.Location.{and_location}
use sentilyzer.Connectors.Mastodon.{
  MastodonCreds, Url, Ip, SearchRequest, search_base, token_for, request_of, clamp_limit,
}
use sentilyzer.Connectors.Mastodon.Instance.{PublicInstance, request_of_lem}

abbrev operator : MastodonCreds
operator = record { instance_url = codes "https://m.example"; access_token = codes "op" }

-- Every URL is https, and every host has one public address.
abbrev parse_url : Str → Option Url
parse_url s = some (record { scheme = codes "https"; host = codes "own.example" })

abbrev resolve : Str → Result (List Ip)
resolve host = done (
    record {
      loopback = false;
      private = false;
      link_local_unicast = false;
      link_local_multicast = false;
      is_unspecified = false;
    }
    ∷ [])

abbrev own : Query
own = record {
  topic = codes "go";
  limit = pos 0;
  language = [];
  since_seconds = pos 0;
  location = [];
  creds = record {
    youtube_api_key = [];
    mastodon_token = codes "mine";
    mastodon_instance = codes "https://own.example/";
  };
}

abbrev sent : SearchRequest
sent = record {
  base = search_base (codes "https://own.example/");
  q = and_location (codes "go") [];
  limit = 25;
  token = codes "mine";
}

asks : request_of parse_url resolve operator own ≡ done (some sent)
unfolding request_of str_eq clamp_limit
asks = refl

request_of_lem_example :
    ((sent.base ≡ search_base (codes "https://m.example")) × (sent.token ≡ token_for operator own))
    ⊎ ((sent.base ≡ search_base (codes "https://own.example/"))
        × (sent.token ≡ codes "mine")
        × (is_empty sent.token ≡ false)
        × PublicInstance parse_url resolve (codes "https://own.example/"))
request_of_lem_example = request_of_lem parse_url resolve operator own asks

abbrev environment : Str → Str
environment key = if str_eq key (codes "SENTILYZER_RATE_IP_RPM") then codes "0" else []

abbrev parsers : Parsers
parsers = record {
  atoi = λ s. if str_eq s (codes "0") then some (pos 0) else none;
  parse_bool = λ s. none;
  parse_duration =
      λ s. if str_eq s (codes "10m") then done (pos 600_000_000_000) else fail (text s);
}

load_lem_example :
    (load environment parsers
      ≡ loaded environment parsers (
          parsers.parse_duration
            (getenv environment parsers (codes "SENTILYZER_CACHE_TTL") (codes "10m"))))
    × ((ttl : ℤ)
        → let cfg = read_env environment parsers ttl in
          (is_empty cfg.http_addr ≡ false)
          × (is_empty cfg.grpc_addr ≡ false)
          × (is_positive cfg.ml_max_batch ≡ true)
          × (is_negative cfg.rate_ip_per_min ≡ false)
          × (is_negative cfg.rate_global_per_min ≡ false))
load_lem_example = load_lem environment parsers
