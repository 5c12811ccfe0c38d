-- ===== src/Server/Creds/Agree.antt =====
-- REST and gRPC read the same keys (api/internal/server/creds.go).
use sentilyzer.Prelude.{
  ◌≡◌, sym, List-cases, refl, true, none, some, List, [], ◌∷◌, Str, arith, inl, inr, Bool-cases,
}
use sentilyzer.Prelude.Text.{to_lower, ascii_lower, trim_space, is_empty, trim_func, drop_while}
use sentilyzer.Connectors.{Credentials, no_credentials, is_zero}
use sentilyzer.Server.Creds.{
  creds_from_context, creds_from_header, with_credentials, first_value, creds_from_grpc,
  header_youtube_api_key, header_mastodon_token, header_mastodon_instance,
}

-- http.Header.Get, from the values of a header under its lower-case name
abbrev pub header_of : (Str → List Str) → Str → Str
header_of metadata name = elim (metadata (to_lower ascii_lower name)) [ [] ↦ [] | v ∷ vs ↦ v ]

empty-is_empty : (s : Str) → is_empty s ≡ true → s ≡ []
empty-is_empty [] h = refl
empty-is_empty (c ∷ s) h = cc

no_credentials-is_zero : (c : Credentials) → is_zero c ≡ true → c ≡ no_credentials
unfolding is_zero
no_credentials-is_zero c h = ground (
  arith,
  empty-is_empty c.youtube_api_key,
  empty-is_empty c.mastodon_token,
  empty-is_empty c.mastodon_instance,
)

first_value-header_of :
    (metadata : Str → List Str) (name : Str)
    → first_value (metadata (to_lower ascii_lower name)) ≡ trim_space (header_of metadata name)
unfolding first_value trim_space trim_func drop_while
first_value-header_of metadata name = elim (List-cases (metadata (to_lower ascii_lower name))) [
  | inl none' ↦ rw (header_of, none') refl
  | inr (v, vs, some') ↦ rw (header_of, some') refl
]

-- The same values, sent as headers to REST or as metadata to gRPC, give the handler the same
-- credentials.
pub creds_from_context-with_credentials :
    (metadata : Str → List Str)
    → creds_from_context (with_credentials (header_of metadata) none)
      ≡ creds_from_grpc (some metadata)
unfolding creds_from_context with_credentials creds_from_header creds_from_grpc
creds_from_context-with_credentials metadata =
    let found = creds_from_header (header_of metadata) in
    rw
      (
        first_value-header_of metadata header_youtube_api_key,
        first_value-header_of metadata header_mastodon_token,
        first_value-header_of metadata header_mastodon_instance,
      )
      (elim (Bool-cases (is_zero found)) [
        | inl blank ↦ rw blank (sym (no_credentials-is_zero found blank))
        | inr given ↦ rw given refl
      ])
