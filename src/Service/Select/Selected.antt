-- ===== src/Service/Select/Selected.antt =====
-- Which connectors a request runs (api/internal/service/service.go, selectPlatforms).
use sentilyzer.Prelude.{ℕ, ◌≡◌, refl, ◌↔◌, Bool, true, false, ◌&&◌, ◌||◌, List, [], ◌∷◌, Str, arith}
use sentilyzer.Prelude.Members.{In, SubList, keep_if, In-keep_if, keep_if-SubList}
use sentilyzer.Prelude.Text.{to_lower}
use sentilyzer.Connectors.{Credentials, Connector, Registry, list, usable}
use sentilyzer.Service.Select.{has, usable_only, wanted_of, wanted_only, select_platforms}

abbrev pub nothing_wanted : List Str → Bool
nothing_wanted [] = true
nothing_wanted (w ∷ ws) = false

module _ (lower : ℕ → ℕ) where
  -- The request asks for no platform, or for this one, whatever the case and the spaces around.
  abbrev pub asked_for : List Str → Connector → Bool
  asked_for want c = nothing_wanted want || has (to_lower lower c.id) (wanted_of lower want)

  usable_only-eq-keep_if :
      (creds : Credentials) (cs : List Connector)
      → usable_only creds cs ≡ keep_if (λ c. true && usable c creds) cs
  unfolding usable_only keep_if
  usable_only-eq-keep_if creds [] = refl
  usable_only-eq-keep_if creds (c ∷ cs) = ground (arith, usable_only-eq-keep_if creds cs)

  wanted_only-eq-keep_if :
      (wanted : List Str) (creds : Credentials) (cs : List Connector)
      → wanted_only lower wanted creds cs
        ≡ keep_if (λ c. has (to_lower lower c.id) wanted && usable c creds) cs
  unfolding wanted_only keep_if
  wanted_only-eq-keep_if wanted creds [] = refl
  wanted_only-eq-keep_if wanted creds (c ∷ cs) =
      ground (arith, wanted_only-eq-keep_if wanted creds cs)

  select-eq-keep_if :
      (r : Registry) (want : List Str) (creds : Credentials)
      → select_platforms lower r want creds
        ≡ keep_if (λ c. asked_for want c && usable c creds) (list r)
  unfolding select_platforms
  select-eq-keep_if r [] creds = usable_only-eq-keep_if creds (list r)
  select-eq-keep_if r (w ∷ ws) creds =
      wanted_only-eq-keep_if (wanted_of lower (w ∷ ws)) creds (list r)

  -- The connectors of a request are exactly the registered ones that it asks for and that the
  -- server's configuration or the caller's keys enable, in the order of the registry's list.
  pub select_platforms_lem :
      (r : Registry) (want : List Str) (creds : Credentials) (c : Connector)
      → (In c (select_platforms lower r want creds)
          ↔ (In c (list r) × ((asked_for want c && usable c creds) ≡ true)))
        × SubList (select_platforms lower r want creds) (list r)
  select_platforms_lem r want creds c = rw (select-eq-keep_if r want creds) (
    In-keep_if (λ c'. asked_for want c' && usable c' creds) c (list r),
    keep_if-SubList (λ c'. asked_for want c' && usable c' creds) (list r),
  )
