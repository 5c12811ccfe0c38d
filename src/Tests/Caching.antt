-- ===== src/Tests/Caching.antt =====
-- Witnesses on the cache (api/internal/cache/cache.go).
use sentilyzer.Prelude.{str_eq, ◌∷◌, [], List, ◌≡◌, refl, ℕ, Str, some, str_instance}
use sentilyzer.Prelude.Int.{pos}
use sentilyzer.Prelude.Text.{codes}
use sentilyzer.Prelude.Maps.{lookup, insert}
use sentilyzer.Cache.{Entry, TtlCache, get, set, new}
use sentilyzer.Cache.Expiry.{Call, get_at, set_at, run, history, Until, get-after_run}
use sentilyzer.Tests.{ample, ample-IsLru}

abbrev cold : TtlCache {K = Str} {V = ℕ} (ample (Entry ℕ))
cold = record { ttl = pos 10; lru = [] }

abbrev calls : List (Call Str ℕ)
calls = set_at 1 (codes "k") 6 ∷ get_at 4 (codes "k") ∷ set_at 5 (codes "k") 7 ∷ []

created : new {K = Str} {V = ℕ} (ample (Entry ℕ)) 8 (pos 10) ≡ some cold
unfolding new
created = refl

served : (get (ample (Entry ℕ)) (run (ample (Entry ℕ)) cold calls) 12 (codes "k")).0 ≡ some 7
unfolding run get set lookup insert str_eq
served = refl

get-after_run_example :
    (x : Entry ℕ) × (lookup (codes "k") (history (ample (Entry ℕ)) (pos 10) [] calls) ≡ some x)
    × (x.value ≡ 7)
    × Until 12 x.expires_at
get-after_run_example =
    get-after_run (ample (Entry ℕ)) (ample-IsLru (Entry ℕ)) 8 (pos 10) cold calls 12 (codes "k") 7
      created served
