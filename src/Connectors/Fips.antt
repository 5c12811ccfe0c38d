-- ===== src/Connectors/Fips.antt =====
-- api/internal/connectors/fips.go: the FIPS 10-4 code of a country that a location names. The table
-- stands in the child modules; unicode.ToLower on one rune is the parameter `lower`.
pub mod One
pub mod Two
pub mod Three
pub mod Four
use sentilyzer.Prelude.{ℕ, ◌++◌, Option, Str, str_instance}
use sentilyzer.Prelude.Text.{to_lower, trim_space}
use sentilyzer.Prelude.Maps.{Map, lookup}
use sentilyzer.Connectors.Fips.One.{fips_one}
use sentilyzer.Connectors.Fips.Two.{fips_two}
use sentilyzer.Connectors.Fips.Three.{fips_three}
use sentilyzer.Connectors.Fips.Four.{fips_four}

-- A key of a Go map literal stands once, so the order of the entries means nothing.
unfoldable pub fips_country : Map Str Str
fips_country = fips_one ++ (fips_two ++ (fips_three ++ fips_four))

-- The second result of the source says whether there is a code.
unfoldable pub country_fips : (ℕ → ℕ) → Str → Option Str
unfolding fips_country lookup trim_space
country_fips lower location = lookup (to_lower lower (trim_space location)) fips_country
