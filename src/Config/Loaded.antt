-- ===== src/Config/Loaded.antt =====
-- What a configuration that was loaded guarantees (api/internal/config/config.go).
use sentilyzer.Prelude.{ℕ, ◌+◌, ◌≡◌, refl, true, false, Str, [], arith, inl, inr, Option-cases}
use sentilyzer.Prelude.Int.{ℤ, pos, negsuc, is_positive}
use sentilyzer.Prelude.Text.{codes, is_empty}
use sentilyzer.Errors.{Result, done, fail, wrap, Result-cases}
use sentilyzer.Config.{
  Parsers, Config, is_negative, getenv, getenv_int, getenv_int_non_neg, read_env, load,
}

module _ (os_getenv : Str → Str) (p : Parsers) where
  getenv_set :
      (key fallback : Str)
      → is_empty fallback ≡ false
      → is_empty (getenv os_getenv p key fallback) ≡ false
  unfolding getenv
  getenv_set key fallback h = ground (arith, h)

  getenv_int_positive :
      (key : Str) (n : ℕ) → is_positive (getenv_int os_getenv p key (pos (n + 1))) ≡ true
  unfolding getenv_int
  getenv_int_positive key n = elim (Option-cases (p.atoi (os_getenv key))) [
    | inl bad ↦ ground (arith, bad)
    | inr (pos m, read) ↦ ground (arith, read)
    | inr (negsuc m, read) ↦ ground (arith, read)
  ]

  getenv_int_non_neg_lem :
      (key : Str) (n : ℕ) → is_negative (getenv_int_non_neg os_getenv p key (pos n)) ≡ false
  unfolding getenv_int_non_neg
  getenv_int_non_neg_lem key n = elim (Option-cases (p.atoi (os_getenv key))) [
    | inl bad ↦ ground (arith, bad)
    | inr (pos m, read) ↦ ground (arith, read)
    | inr (negsuc m, read) ↦ ground (arith, read)
  ]

  -- What Load returns, from the parsed time to live.
  abbrev pub loaded : Result ℤ → Result Config
  loaded (fail err) = fail (wrap (codes "invalid SENTILYZER_CACHE_TTL: ") err [])
  loaded (done ttl) = done (read_env os_getenv p ttl)

  -- Whatever the environment holds, loading fails only where the time to live does not parse, and
  -- then with that error (the check for two empty addresses never fires). Every configuration that is
  -- read has both addresses set, at least one item in a batch, and no negative rate limit.
  pub load_lem :
      (load os_getenv p
        ≡ loaded
            (p.parse_duration (getenv os_getenv p (codes "SENTILYZER_CACHE_TTL") (codes "10m"))))
      × ((ttl : ℤ)
          → let cfg = read_env os_getenv p ttl in
            (is_empty cfg.http_addr ≡ false)
            × (is_empty cfg.grpc_addr ≡ false)
            × (is_positive cfg.ml_max_batch ≡ true)
            × (is_negative cfg.rate_ip_per_min ≡ false)
            × (is_negative cfg.rate_global_per_min ≡ false))
  unfolding load read_env
  load_lem =
      let http = getenv_set (codes "SENTILYZER_HTTP_ADDR") (codes ":8080") refl in
      let ttl =
        p.parse_duration (getenv os_getenv p (codes "SENTILYZER_CACHE_TTL") (codes "10m")) in
      (
        elim (Result-cases ttl) [
          | inl (d, parsed) ↦ rw (load, parsed, http) refl
          | inr (err, bad) ↦ rw (load, bad) refl
        ],
        λ d. (
          http,
          getenv_set (codes "SENTILYZER_GRPC_ADDR") (codes ":9090") refl,
          getenv_int_positive (codes "SENTILYZER_ML_MAX_BATCH") 31,
          getenv_int_non_neg_lem (codes "SENTILYZER_RATE_IP_RPM") 120,
          getenv_int_non_neg_lem (codes "SENTILYZER_RATE_GLOBAL_RPM") 1200,
        ),
      )
