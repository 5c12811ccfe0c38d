-- ===== src/Server/Limits.antt =====
-- api/internal/server/ratelimit.go: which limiters a configuration installs, and their keys. The
-- limiter itself is the third-party package httprate.
use sentilyzer.Prelude.{List, [], ◌∷◌, ◌++◌, Str, Option, none, some, if◌then◌else◌}
use sentilyzer.Prelude.Int.{ℤ, is_positive}
use sentilyzer.Prelude.Text.{codes}

pub record RateLimitConfig : Type 0 where
  pub per_ip_per_minute : ℤ
  pub global_per_minute : ℤ

-- A limiter of so many requests a minute for each key.
pub data Limiter : Type 0 where
  global : ℤ → Limiter
  per_ip : ℤ → Limiter

-- net.SplitHostPort is the parameter: the host, if the address has the form.
unfoldable pub client_ip_key : (Str → Option Str) → Str → Str
client_ip_key split_host remote_addr = elim (split_host remote_addr) [
  | none ↦ remote_addr
  | some host ↦ host
]

unfoldable pub limiter_key : (Str → Option Str) → Limiter → Str → Str
unfolding client_ip_key
limiter_key split_host (global n) remote_addr = codes "*"
limiter_key split_host (per_ip n) remote_addr = client_ip_key split_host remote_addr

unfoldable pub rate_limiters : RateLimitConfig → List Limiter
rate_limiters cfg =
    (if is_positive cfg.global_per_minute then global cfg.global_per_minute ∷ [] else [])
    ++ (if is_positive cfg.per_ip_per_minute then per_ip cfg.per_ip_per_minute ∷ [] else [])
