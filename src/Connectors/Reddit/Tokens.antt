-- ===== src/Connectors/Reddit/Tokens.antt =====
-- The tokens that tokenFor hands out over a run of calls (api/internal/connectors/reddit.go).
use sentilyzer.Prelude.{
  ℕ, ◌+◌, ◌<◌, ◌≡◌, refl, ◌⊎◌, inl, inr, true, Bool-cases, List, [], ◌∷◌, Str, if◌then◌else◌, arith,
}
use sentilyzer.Prelude.Members.{In}
use sentilyzer.Prelude.Text.{is_empty}
use sentilyzer.Errors.{Result, Result-cases, done, fail}
use sentilyzer.Connectors.Reddit.{Turn, TokenCache, fetch_token, still_good, token_for}

-- The tokens with their expiry that the endpoint has issued, the latest first. It is asked if the cache does not serve.
abbrev pub Issued : Type 0
Issued = List (Str × ℕ)

abbrev pub issue : Turn → TokenCache → Issued → Issued
issue turn c issued =
    if still_good c turn.now
    then issued
    else elim (fetch_token turn) [ done e ↦ e ∷ issued | fail err ↦ issued ]

-- A token was issued in this very call, or before it with 30 s and more to go; an error is that of this call.
abbrev pub Usable : Turn → Issued → Result Str → Type 0
Usable turn issued (done token) =
    ((exp : ℕ) × (fetch_token turn ≡ done (token, exp)))
    ⊎ ((exp : ℕ) × In (token, exp) issued × (turn.now + 30_000_000_000 < exp))
Usable turn issued (fail err) = fetch_token turn ≡ fail err

-- The answers of tokenFor, call after call.
abbrev pub AllUsable : List Turn → Issued → TokenCache → Type 0
AllUsable [] issued c = Unit
AllUsable (turn ∷ turns) issued c =
    Usable turn issued (token_for turn c).0
    × AllUsable turns (issue turn c issued) (token_for turn c).1

-- The cache is empty or holds a token that was issued.
abbrev pub Cached : Issued → TokenCache → Type 0
Cached issued c = (is_empty c.token ≡ true) ⊎ In (c.token, c.token_exp) issued

still_good_lem :
    (issued : Issued) (c : TokenCache) (now : ℕ)
    → Cached issued c
    → still_good c now ≡ true
    → In (c.token, c.token_exp) issued × (now + 30_000_000_000 < c.token_exp)
unfolding still_good
still_good_lem issued c now (inl e) h = ground arith
still_good_lem issued c now (inr m) h = (m, ground arith)

token_for-Usable :
    (turn : Turn) (issued : Issued) (c : TokenCache)
    → Cached issued c
    → Usable turn issued (token_for turn c).0 × Cached (issue turn c issued) (token_for turn c).1
unfolding token_for
token_for-Usable turn issued c h = elim (Bool-cases (still_good c turn.now)) [
  | inl good ↦
      let (m, soon) = still_good_lem issued c turn.now h good in
      rw good (inr (c.token_exp, m, soon), h)
  | inr stale ↦ elim (Result-cases (fetch_token turn)) [
    | inl (e, got) ↦ rw (stale, got) (inl (e.1, got), inr (inl refl))
    | inr (err, failed) ↦ rw (stale, failed) (failed, h)
  ]
]

run_usable :
    (turns : List Turn) (issued : Issued) (c : TokenCache)
    → Cached issued c
    → AllUsable turns issued c
run_usable [] issued c h = tt
run_usable (turn ∷ turns) issued c h =
    let (usable, kept) = token_for-Usable turn issued c h in
    (usable, run_usable turns (issue turn c issued) (token_for turn c).1 kept)

-- Over any run of calls that starts with no token in the cache, whatever the clock and the endpoint do: each token that
-- tokenFor returns was issued in that call, or in an earlier one and has more than 30 s to go when the cache is checked;
-- each error is that of asking for a token in that call.
pub token_for-AllUsable :
    (turns : List Turn) (exp : ℕ) → AllUsable turns [] (record { token = []; token_exp = exp })
token_for-AllUsable turns exp =
    run_usable turns [] (record { token = []; token_exp = exp }) (inl refl)
