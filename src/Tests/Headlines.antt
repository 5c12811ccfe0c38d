-- ===== src/Tests/Headlines.antt =====
-- Witnesses on the GDELT and Reddit connectors (api/internal/connectors/gdelt.go, fips.go, reddit.go).
use sentilyzer.Prelude.{ℕ, ◌+◌, ◌*◌, ◌≤◌, ◌<◌, ◌≡◌, ◌⊎◌, List, [], ◌∷◌, ◌++◌, Str, arith}
use sentilyzer.Prelude.Int.{pos}
use sentilyzer.Prelude.Text.{codes, itoa}
use sentilyzer.Connectors.{Query, no_credentials}
use sentilyzer.Connectors.Location.{remove_char}
use sentilyzer.Connectors.Gdelt.{min_interval, gdelt_query}
use sentilyzer.Connectors.Gdelt.Timespan.{gdelt_timespan, IsUnit, gdelt_timespan-covers}
use sentilyzer.Connectors.Gdelt.Slots.{slots, Spaced, Served, slots-throttled}
use sentilyzer.Connectors.Gdelt.Quoted.{quotes, PlaceClause, LangClause, gdelt_query_lem}
use sentilyzer.Connectors.Reddit.{Turn}
use sentilyzer.Connectors.Reddit.Tokens.{AllUsable, token_for-AllUsable}
use sentilyzer.Errors.{text, done, fail}
use sentilyzer.Tests.{lower}

gdelt_timespan-covers_example :
    (n : ℕ) × (k : ℕ) × (name : Str) × IsUnit name k
    × (gdelt_timespan (pos 100_000) ≡ itoa n ++ name)
    × (100_000 ≤ n * k)
    × ((n * k < 100_000 + k) ⊎ (n * k ≡ 900))
gdelt_timespan-covers_example = gdelt_timespan-covers 100_000 (omega arith)

-- Three calls in one second.
abbrev burst : List ℕ
burst = 10_000_000_000 ∷ 10_200_000_000 ∷ 10_100_000_000 ∷ []

slots-throttled_example :
    Spaced min_interval 0 (slots min_interval 0 burst)
    × Served min_interval 11_000_000_000 burst (slots min_interval 0 burst)
slots-throttled_example =
    slots-throttled min_interval 0 11_000_000_000 burst (omega arith) (omega arith)

abbrev in_germany : Query
in_germany = record {
  topic = codes "rail \" OR \" strike";
  limit = pos 10;
  language = codes "DE";
  since_seconds = pos 3600;
  location = codes " Germany";
  creds = no_credentials;
}

gdelt_query_lem_example :
    (place : Str) × (lang : Str) × (gdelt_query lower in_germany
      ≡ codes "\"" ++ (remove_char b'"' in_germany.topic ++ (codes "\"" ++ (place ++ lang))))
    × (quotes (remove_char b'"' in_germany.topic) ≡ 0)
    × PlaceClause lower in_germany place
    × LangClause lower in_germany lang
gdelt_query_lem_example = gdelt_query_lem lower in_germany

-- A token of an hour, an hour less 20 s later, and then an endpoint that fails.
abbrev answers : List Turn
answers =
    (record {
      now = 0;
      reply = done (record {
        code = 200;
        body = done (record { access_token = codes "a"; expires_in = pos 3600 });
      });
      answered = 1_000_000_000;
    })
    ∷ (record {
      now = 60_000_000_000;
      reply = fail (text (codes "down"));
      answered = 60_000_000_000;
    })
    ∷ (record {
      now = 3_580_000_000_000;
      reply = fail (text (codes "down"));
      answered = 3_580_000_000_000;
    })
    ∷ []

token_for-AllUsable_example : AllUsable answers [] (record { token = []; token_exp = 0 })
token_for-AllUsable_example = token_for-AllUsable answers 0
