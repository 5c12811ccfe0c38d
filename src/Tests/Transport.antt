-- ===== src/Tests/Transport.antt =====
-- Witnesses on the protocol surfaces (api/internal/server).
use sentilyzer.Prelude.{
  ◌∷◌, [], arith, List, ◌≡◌, ◌⊎◌, inl, refl, ℕ, Str, true, ltb, leb, Option, some, none,
  if◌then◌else◌,
}
use sentilyzer.Prelude.Text.{codes, is_empty}
use sentilyzer.Prelude.Maps.{Map}
use sentilyzer.Prelude.Members.{In}
use sentilyzer.Errors.{GoError, text, wrap, wrap_two, sentinel}
use sentilyzer.Errors
use sentilyzer.Server.Status.Table.{answer, look_up, cause_table, answer-eq-look_up}
use sentilyzer.Server.Negotiate.{
  Quality, AcceptRange, pick, quality, mime_json, mime_html, offers, negotiate_media, proceed,
  reject,
}
use sentilyzer.Server.Negotiate.Ranked.{IsLess, Tops, acceptable, pick_lem, negotiate_media_lem}
use sentilyzer.Server.Creds.{creds_from_context, with_credentials, creds_from_grpc}
use sentilyzer.Server.Creds.Agree.{header_of, creds_from_context-with_credentials}
use sentilyzer.Tests.{lower}

-- q-values in tenths
abbrev tenths : Quality
tenths = record {
  Q = ℕ;
  zero_q = 0;
  one_q = 10;
  le = leb;
  lt = ltb;
  parse_float = λ s. if is_empty s then none else some 5;
}

tenths-IsLess : IsLess tenths
tenths-IsLess = record { irrefl = λ p. ground arith; trans = λ p q r h k. ground arith }

abbrev ranges : List (AcceptRange tenths)
ranges =
    record { typ = codes "application"; sub = codes "xml"; q = 9 }
    ∷ record { typ = codes "*"; sub = codes "*"; q = 1 }
    ∷ []

pick_lem_example :
    let best = pick tenths ranges offers in
    ((best ≡ []) × Tops tenths ranges 0 offers)
    ⊎ ((best ≡ mime_json) × ((quality tenths mime_html ranges).1 ≡ some 2))
    ⊎ (In best offers
        × (acceptable tenths ranges best ≡ true)
        × Tops tenths ranges (quality tenths best ranges).0 offers)
pick_lem_example = pick_lem tenths ranges tenths-IsLess offers

-- A parser that knows one type.
abbrev parse_media : Str → Option (Str × Map Str Str)
parse_media s = some (s, [])

negotiate_media_lem_example :
    ((media : Str) × In media offers
      × (negotiate_media tenths lower parse_media offers [] (codes "application/xml")
          ≡ proceed media))
    ⊎ (negotiate_media tenths lower parse_media offers [] (codes "application/xml") ≡ reject 406)
negotiate_media_lem_example =
    negotiate_media_lem tenths tenths-IsLess lower parse_media offers [] (codes "application/xml")
      (inl refl)

abbrev down : GoError
down = wrap [] (sentinel Errors.all_connectors_failed) (codes ": news: down")

abbrev slow : GoError
slow = sentinel Errors.Sentinel.deadline_exceeded

answer-eq-look_up_example :
    (answer (some down) ≡ look_up cause_table down)
    × (answer none ≡ (500, Errors.Code.internal))
    × ((before after : Str) → answer (some (Errors.wrap before down after)) ≡ answer (some down))
answer-eq-look_up_example = answer-eq-look_up down

abbrev metadata : Str → List Str
metadata k = codes " key " ∷ []

creds_from_context-with_credentials_example :
    creds_from_context (with_credentials (header_of metadata) none)
    ≡ creds_from_grpc (some metadata)
creds_from_context-with_credentials_example = creds_from_context-with_credentials metadata
