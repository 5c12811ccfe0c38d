-- ===== src/Service/Select.antt =====
-- selectPlatforms of api/internal/service/service.go.
pub mod Selected
use sentilyzer.Prelude.{
  ℕ, Bool, true, false, not, ◌&&◌, ◌||◌, List, [], ◌∷◌, map, Str, str_eq, if◌then◌else◌,
}
use sentilyzer.Prelude.Text.{to_lower, trim_space}
use sentilyzer.Connectors.{Credentials, Connector, Registry, list, usable}

-- `_, ok := wanted[k]`
unfoldable pub has : Str → List Str → Bool
has k [] = false
has k (w ∷ ws) = str_eq w k || has k ws

unfoldable pub usable_only : Credentials → List Connector → List Connector
usable_only creds [] = []
usable_only creds (c ∷ cs) =
    let rest = usable_only creds cs in if usable c creds then c ∷ rest else rest

module _ (lower : ℕ → ℕ) where
  unfoldable pub wanted_of : List Str → List Str
  unfolding trim_space
  wanted_of want = map (λ w. to_lower lower (trim_space w)) want

  unfoldable pub wanted_only : List Str → Credentials → List Connector → List Connector
  unfolding has
  wanted_only wanted creds [] = []
  wanted_only wanted creds (c ∷ cs) =
      let rest = wanted_only wanted creds cs in
      if not (has (to_lower lower c.id) wanted)
      then rest
      else if not (usable c creds)
      then rest
      else c ∷ rest

  unfoldable pub select_platforms : Registry → List Str → Credentials → List Connector
  unfolding usable_only wanted_only wanted_of
  select_platforms r [] creds = usable_only creds (list r)
  select_platforms r (w ∷ ws) creds = wanted_only (wanted_of (w ∷ ws)) creds (list r)
