-- ===== src/Server/Creds.antt =====
-- api/internal/server/creds.go: the caller's keys from headers or metadata. `header` is
-- http.Header.Get and `metadata` the values of a metadata key.
pub mod Agree
use sentilyzer.Prelude.{
  ℕ, ◌≡◌, refl, Option, none, some, List, [], ◌∷◌, Str, if◌then◌else◌, arith, map, Bool, true,
  false, ◌&&◌,
}
use sentilyzer.Prelude.Text.{codes, trim_space, ascii_lower, to_lower, is_empty}
use sentilyzer.Connectors.{Credentials, no_credentials, is_zero}

abbrev pub header_youtube_api_key : Str
header_youtube_api_key = codes "X-Sentilyzer-Youtube-Api-Key"

abbrev pub header_mastodon_token : Str
header_mastodon_token = codes "X-Sentilyzer-Mastodon-Token"

abbrev pub header_mastodon_instance : Str
header_mastodon_instance = codes "X-Sentilyzer-Mastodon-Instance"

-- A request's context, as far as the package uses it.
abbrev pub Context : Type 0
Context = Option Credentials

unfoldable pub creds_from_context : Context → Credentials
creds_from_context none = no_credentials
creds_from_context (some c) = c

unfoldable pub creds_from_header : (Str → Str) → Credentials
creds_from_header header = record {
  youtube_api_key = trim_space (header header_youtube_api_key);
  mastodon_token = trim_space (header header_mastodon_token);
  mastodon_instance = trim_space (header header_mastodon_instance);
}

-- the context that WithCredentials runs the handler with
unfoldable pub with_credentials : (Str → Str) → Context → Context
unfolding creds_from_header is_zero
with_credentials header ctx =
    let creds = creds_from_header header in if is_zero creds then ctx else some creds

-- the first value of the key, trimmed
unfoldable pub first_value : List Str → Str
first_value [] = []
first_value (v ∷ vs) = trim_space v

unfoldable pub creds_from_grpc : Option (Str → List Str) → Credentials
unfolding first_value ascii_lower
creds_from_grpc none = no_credentials
creds_from_grpc (some metadata) = record {
  youtube_api_key = first_value (metadata (to_lower ascii_lower header_youtube_api_key));
  mastodon_token = first_value (metadata (to_lower ascii_lower header_mastodon_token));
  mastodon_instance = first_value (metadata (to_lower ascii_lower header_mastodon_instance));
}
