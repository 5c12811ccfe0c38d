-- ===== src/Connectors/Mastodon/Instance.antt =====
-- Where a Mastodon search is sent and with whose token, and which statuses it keeps
-- (api/internal/connectors/mastodon.go).
use sentilyzer.Prelude.{
  ◌≡◌, ◌⊎◌, inl, inr, true, false, not, ◌&&◌, Option, none, some, List, Str, str_eq_iff, arith,
  Bool-cases, Option-cases,
}
use sentilyzer.Prelude.Text.{codes, is_empty}
use sentilyzer.Errors.{Result, done, Result-cases}
use sentilyzer.Connectors.{Query}
use sentilyzer.Connectors.Mastodon.{
  MastodonCreds, Url, Ip, SearchRequest, all_public, search_base, token_for,
  validate_caller_instance, instance_for, request_of,
}

module _ (parse_url : Str → Option Url) (resolve : Str → Result (List Ip)) where
  -- An https URL whose host resolves to public addresses only.
  abbrev pub PublicInstance : Str → Type 0
  PublicInstance raw =
      (u : Url) × (ips : List Ip) × (parse_url raw ≡ some u)
      × (u.scheme ≡ codes "https")
      × (is_empty u.host ≡ false)
      × (resolve u.host ≡ done ips)
      × (all_public ips ≡ true)

  validate_caller_instance-PublicInstance :
      (raw : Str) → validate_caller_instance parse_url resolve raw ≡ none → PublicInstance raw
  unfolding validate_caller_instance
  validate_caller_instance-PublicInstance raw h = elim (Option-cases (parse_url raw)) [
    | inl bad ↦ absurd (ground (arith, bad))
    | inr (u, parsed) ↦ elim (Result-cases (resolve u.host)) [
      | inr (err, lost) ↦ absurd (ground (arith, parsed, lost))
      | inl (ips, found) ↦ (
        u,
        ips,
        parsed,
        ground (arith, parsed, found, str_eq_iff u.scheme (codes "https")),
        ground (arith, parsed, found),
        found,
        ground (arith, parsed, found),
      )
    ]
  ]

  -- A request that the connector sends goes to the operator's instance, or with the caller's own
  -- token to the instance that the caller names: then that is an https URL whose host resolves to
  -- public addresses only.
  pub request_of_lem :
      (m : MastodonCreds) (q : Query) {r : SearchRequest}
      → request_of parse_url resolve m q ≡ done (some r)
      → ((r.base ≡ search_base m.instance_url) × (r.token ≡ token_for m q))
        ⊎ ((r.base ≡ search_base q.creds.mastodon_instance)
            × (r.token ≡ q.creds.mastodon_token)
            × (is_empty r.token ≡ false)
            × PublicInstance q.creds.mastodon_instance)
  unfolding request_of instance_for token_for
  request_of_lem m q {r} h =
      let own = q.creds.mastodon_instance in
      elim (Bool-cases (not (is_empty q.creds.mastodon_token) && not (is_empty own))) [
        | inr theirs ↦ inl (ground (arith, theirs))
        | inl mine ↦ elim (Option-cases (validate_caller_instance parse_url resolve own)) [
          | inr (err, bad) ↦ absurd (ground (arith, mine, bad))
          | inl valid ↦ inr (
            ground (arith, mine, valid),
            ground (arith, mine, valid),
            ground (arith, mine, valid),
            validate_caller_instance-PublicInstance own valid,
          )
        ]
      ]
