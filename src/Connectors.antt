-- ===== src/Connectors.antt =====
-- api/internal/connectors: the contract of a platform connector (connector.go), the caller's keys
-- (credentials.go) and the registry.
pub mod Location
pub mod Fips
pub mod Reddit
pub mod Gdelt
pub mod Registered
pub mod Strip
pub mod Mastodon
use sentilyzer.Prelude.{
  ℕ, Bool, true, false, not, ◌&&◌, ◌||◌, Option, none, some, List, [], ◌∷◌, ◌++◌, map, Str,
  if◌then◌else◌, str_instance, str_eq,
}
use sentilyzer.Prelude.Text.{is_empty, join, str_lt, trim_space}
use sentilyzer.Prelude.Int.{ℤ}
use sentilyzer.Prelude.Maps.{Map, lookup, insert}
use sentilyzer.Prelude.Sort.{sort}
use sentilyzer.Errors.{Result}
use sentilyzer.Domain.{SourcedDocument, PlatformInfo}

pub record Credentials : Type 0 where
  pub youtube_api_key : Str
  pub mastodon_token : Str
  pub mastodon_instance : Str

abbrev pub no_credentials : Credentials
no_credentials = record { youtube_api_key = []; mastodon_token = []; mastodon_instance = [] }

-- `c == Credentials{}`
unfoldable pub is_zero : Credentials → Bool
is_zero c = is_empty c.youtube_api_key && is_empty c.mastodon_token && is_empty c.mastodon_instance

-- The hexadecimal SHA-256 of a string is the parameter `hash`.
unfoldable pub fingerprint : (Str → Str) → Credentials → Str
unfolding is_zero join
fingerprint hash c =
    if is_zero c
    then []
    else hash (join (0 ∷ []) (c.youtube_api_key ∷ c.mastodon_token ∷ c.mastodon_instance ∷ []))

pub record Query : Type 0 where
  pub topic : Str
  pub limit : ℤ
  pub language : Str
  pub since_seconds : ℤ
  pub location : Str
  pub creds : Credentials

pub record Policy : Type 0 where
  pub durable : Bool
  pub backfillable : Bool
  pub reason : Str

-- What `Search` returned under a deadline, and whether the deadline had passed by then.
pub record Searched : Type 0 where
  pub answer : Result (List SourcedDocument)
  pub deadline_passed : Bool

-- A connector; `enabled_with` is there if it is a CredentialedConnector. `search` takes the time
-- that its context leaves it.
pub record Connector : Type 0 where
  pub id : Str
  pub display_name : Str
  pub enabled : Bool × Str
  pub enabled_with : Option (Credentials → Bool × Str)
  pub policy : Policy
  pub search : ℕ → Query → Searched

abbrev pub Registry : Type 0
Registry = Map Str Connector

abbrev pub new_registry : Registry
new_registry = []

unfoldable pub register : Registry → Connector → Registry
register r c = insert c.id c r

unfoldable pub get : Registry → Str → Option Connector
get r id = lookup id r

unfoldable pub by_id : Connector → Connector → Bool
by_id a b = str_lt a.id b.id

-- The values of the map, sorted by id.
unfoldable pub list : Registry → List Connector
unfolding by_id sort
list r = sort by_id (map (λ e. e.1) r)

unfoldable pub info_of : Connector → PlatformInfo
info_of c = record {
  id = c.id;
  display_name = c.display_name;
  enabled = c.enabled.0;
  disabled_reason = c.enabled.1;
}

unfoldable pub info : Registry → List PlatformInfo
unfolding list info_of
info r = map info_of (list r)

-- usable of api/internal/service/service.go: enabled by the server's configuration or by the
-- caller's keys
unfoldable pub usable : Connector → Credentials → Bool
usable c creds = elim c.enabled_with [ none ↦ c.enabled.0 | some with ↦ (with creds).0 ]
