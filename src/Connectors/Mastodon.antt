-- ===== src/Connectors/Mastodon.antt =====
-- api/internal/connectors/mastodon.go. url.Parse, the resolver and the HTTP exchange are parameters;
-- `request_of` is what Search sends, and `documents_of` what it makes of the answer.
pub mod Instance
use sentilyzer.Prelude.{
  ℕ, ◌+◌, ◌-◌, ◌*◌, ◌^◌, ◌%◌, ◌==◌, Bool, true, false, not, ◌&&◌, ◌||◌, Option, none, some, List,
  [], ◌∷◌, ◌++◌, Str, str_eq, ltb, leb, if◌then◌else◌,
}
use mathlib.Core.List.{reverse}
use sentilyzer.Prelude.Int.{ℤ, pos, negsuc}
use sentilyzer.Prelude.Text.{codes, is_empty, drop_while, itoa}
use sentilyzer.Errors.{GoError, text, wrap, Result, done, fail, ◌>>=◌}
use sentilyzer.Domain.{SourcedDocument}
use sentilyzer.Connectors.{Credentials, Query}
use sentilyzer.Connectors.Location.{and_location}
use sentilyzer.Connectors.Strip.{strip_html}

-- MastodonCreds of api/internal/config/config.go
pub record MastodonCreds : Type 0 where
  pub instance_url : Str
  pub access_token : Str

-- the parts of a parsed URL and of a resolved address that are looked at
pub record Url : Type 0 where
  pub scheme : Str
  pub host : Str

pub record Ip : Type 0 where
  pub loopback : Bool
  pub private : Bool
  pub link_local_unicast : Bool
  pub link_local_multicast : Bool
  pub is_unspecified : Bool

pub record MastodonStatus : Type 0 where
  pub id : Str
  pub content : Str
  pub url : Str
  pub created_at : ℕ
  pub username : Str

-- a GET of `base` with the search parameters and the bearer token
pub record SearchRequest : Type 0 where
  pub base : Str
  pub q : Str
  pub limit : ℕ
  pub token : Str

-- the answer's status, and what decoding its body gives
pub record Reply : Type 0 where
  pub code : ℕ
  pub body : Result (List MastodonStatus)

-- MastodonCreds.Enabled and EnabledWith
unfoldable pub enabled : MastodonCreds → Bool × Str
enabled m =
    if not (not (is_empty m.access_token))
    then (
      false,
      codes "missing MASTODON_ACCESS_TOKEN (or send an X-Sentilyzer-Mastodon-Token header)",
    )
    else (true, [])

unfoldable pub enabled_with : MastodonCreds → Credentials → Bool × Str
unfolding enabled
enabled_with m creds = if not (is_empty creds.mastodon_token) then (true, []) else enabled m

unfoldable pub is_public : Ip → Bool
is_public ip = not (
    ip.loopback || ip.private || ip.link_local_unicast || ip.link_local_multicast
    || ip.is_unspecified)

unfoldable pub all_public : List Ip → Bool
unfolding is_public
all_public [] = true
all_public (ip ∷ ips) = is_public ip && all_public ips

-- `limit`: 25 if it is not positive, at most 40
unfoldable pub clamp_limit : ℤ → ℕ
clamp_limit (pos n) = if n == 0 then 25 else if ltb 40 n then 40 else n
clamp_limit (negsuc n) = 25

-- strings.TrimRight(s, "/")
unfoldable pub trim_slashes : Str → Str
unfolding drop_while
trim_slashes s = reverse (drop_while (λ c. c == b'/') (reverse s))

unfoldable pub search_base : Str → Str
unfolding trim_slashes
search_base url = trim_slashes url ++ codes "/api/v2/search"

unfoldable pub token_for : MastodonCreds → Query → Str
token_for m q =
    if not (is_empty q.creds.mastodon_token) then q.creds.mastodon_token else m.access_token

-- `now` less so many seconds, as an int64 of nanoseconds; 0 is no cutoff
unfoldable pub cutoff_of : ℕ → ℤ → ℕ
cutoff_of now (negsuc n) = 0
cutoff_of now (pos n) =
    let back = n * 1_000_000_000 % 2 ^ 64 in
    if n == 0 then 0 else if leb back (2 ^ 63) then now - back else now + (2 ^ 64 - back)

module _ (parse_url : Str → Option Url) (resolve : Str → Result (List Ip)) where
  -- an error, or none
  unfoldable pub validate_caller_instance : Str → Option GoError
  unfolding all_public
  validate_caller_instance raw = elim (parse_url raw) [
    | none ↦ some (text (codes "not a valid URL"))
    | some u ↦
        let resolved : Option GoError = elim (resolve u.host) [
          | fail err ↦ some (wrap (codes "host does not resolve: ") err [])
          | done ips ↦
              if all_public ips
              then none
              else some (text (codes "host resolves to a non-public address"))
        ] in
        if not (str_eq u.scheme (codes "https"))
        then some (text (codes "must be https"))
        else if is_empty u.host
        then some (text (codes "missing host"))
        else resolved
  ]

  unfoldable pub instance_for : MastodonCreds → Query → Result Str
  unfolding validate_caller_instance
  instance_for m q =
      let own = q.creds.mastodon_instance in
      if not (is_empty q.creds.mastodon_token) && not (is_empty own)
      then elim (validate_caller_instance own) [
        | some err ↦ fail (wrap (codes "mastodon instance rejected: ") err [])
        | none ↦ done own
      ]
      else done m.instance_url

  -- what Search sends, if it sends anything
  unfoldable pub request_of : MastodonCreds → Query → Result (Option SearchRequest)
  unfolding enabled_with instance_for search_base token_for
  request_of m q =
      let asked : Result (Option SearchRequest) = (do
        url ← instance_for m q
        done (
            some (record {
              base = search_base url;
              q = and_location q.topic q.location;
              limit = clamp_limit q.limit;
              token = token_for m q;
            }))) in
      if not (enabled_with m q.creds).0
      then done none
      else if is_empty q.topic
      then done none
      else asked

-- the loop over the statuses
unfoldable pub documents_of : (Str → Str) → ℕ → List MastodonStatus → List SourcedDocument
documents_of unescape cutoff [] = []
documents_of unescape cutoff (s ∷ ss) =
    let rest = documents_of unescape cutoff ss in
    let body = strip_html unescape s.content in
    if not (cutoff == 0) && ltb s.created_at cutoff
    then rest
    else if is_empty body
    then rest
    else record {
      document = record {
        id = codes "mastodon-" ++ s.id;
        text = body;
        language = [];
        aspects = [];
        metadata = [];
      };
      platform = codes "mastodon";
      url = s.url;
      author = s.username;
      posted_at = s.created_at;
    }
      ∷ rest

-- after the exchange
unfoldable pub read_reply : (Str → Str) → ℕ → Query → Result Reply → Result (List SourcedDocument)
unfolding documents_of cutoff_of
read_reply unescape now q (fail err) = fail (wrap (codes "mastodon: ") err [])
read_reply unescape now q (done r) =
    if not (r.code == 200)
    then fail (text (codes "mastodon: status " ++ itoa r.code))
    else elim r.body [
      | fail err ↦ fail (wrap (codes "mastodon decode: ") err [])
      | done statuses ↦ done (documents_of unescape (cutoff_of now q.since_seconds) statuses)
    ]

unfoldable pub search :
    (Str → Option Url)
    → (Str → Result (List Ip))
    → (SearchRequest → Result Reply)
    → (Str → Str)
    → ℕ
    → MastodonCreds
    → Query
    → Result (List SourcedDocument)
unfolding request_of read_reply
search parse_url resolve exchange unescape now m q = do
  sent ← request_of parse_url resolve m q
  elim sent [ none ↦ done [] | some r ↦ read_reply unescape now q (exchange r) ]
