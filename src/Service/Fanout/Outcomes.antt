-- ===== src/Service/Fanout/Outcomes.antt =====
-- What fanout returns (api/internal/service/service.go), whatever order the goroutines finish in.
use sentilyzer.Prelude.{
  ℕ, zero, suc, ◌+◌, ◌<◌, ◌≤◌, ◌==◌, ◌≡◌, refl, sym, ◌∙◌, Bool, true, false, ◌&&◌, List, [], ◌∷◌,
  ◌++◌, map, length, length-map, length-replicate, get_elem?, replicate, Str, if◌then◌else◌, some,
  arith,
}
use sentilyzer.Prelude.Slices.{scatter, scatter-eq, elem}
use sentilyzer.Errors.{Result, done, fail}
use sentilyzer.Domain.{SourcedDocument, Warning}
use sentilyzer.Connectors.{Connector, Query}
use sentilyzer.Service.Fanout.{FanoutResult, no_result, search_one, search_at, collect, fanout}

-- Every platform has its goroutine.
abbrev pub Covers : List ℕ → List Connector → Type 0
Covers schedule platforms = (j : ℕ) → j < length platforms → elem j schedule ≡ true

abbrev pub failed {ℓ} : {A : Type ℓ} → Result A → Bool
failed (done a) = false
failed (fail e) = true

abbrev pub documents : Result (List SourcedDocument) → List SourcedDocument
documents (done docs) = docs
documents (fail e) = []

-- Of results in platform order: whether all failed, how many and which did, and what was found.
abbrev pub all_failed : List FanoutResult → Bool
all_failed [] = true
all_failed (r ∷ rs) = failed r.answer && all_failed rs

abbrev pub failures : List FanoutResult → ℕ
failures [] = 0
failures (r ∷ rs) = (if failed r.answer then 1 else 0) + failures rs

-- the ids of the platforms that failed
abbrev pub dropped : List FanoutResult → List Str
dropped [] = []
dropped (r ∷ rs) = if failed r.answer then r.platform ∷ dropped rs else dropped rs

abbrev pub found : List FanoutResult → List SourcedDocument
found [] = []
found (r ∷ rs) = documents r.answer ++ found rs

docs-collect : (rs : List FanoutResult) → (collect rs).docs ≡ found rs
unfolding collect
docs-collect [] = refl
docs-collect (r ∷ rs) = ground (arith, docs-collect rs)

warnings-collect :
    (rs : List FanoutResult) → map (λ w. w.platform) (collect rs).warnings ≡ dropped rs
unfolding collect
warnings-collect [] = refl
warnings-collect (r ∷ rs) = ground (arith, warnings-collect rs)

errs-collect : (rs : List FanoutResult) → length (collect rs).errs ≡ failures rs
unfolding collect
errs-collect [] = refl
errs-collect (r ∷ rs) = ground (arith, errs-collect rs)

failures-le : (rs : List FanoutResult) → failures rs ≤ length rs
failures-le [] = omega arith
failures-le (r ∷ rs) = ground (arith, failures-le rs)

all_failed-failures : (rs : List FanoutResult) → (failures rs == length rs) ≡ all_failed rs
all_failed-failures [] = refl
all_failed-failures (r ∷ rs) = ground (arith, all_failed-failures rs, failures-le rs)

module _ (timeout : ℕ) (timeout_text : Str) (q : Query) where
  -- What each platform answers, in the order of the platforms.
  abbrev pub answers : List Connector → List FanoutResult
  answers = map (search_one timeout timeout_text q)

  get_elem?-answers :
      (cs : List Connector) (j : ℕ)
      → j < length (answers cs)
      → get_elem? (answers cs) j ≡ some (search_at timeout timeout_text q cs j)
  unfolding search_at
  get_elem?-answers [] j h = elim h [ ]
  get_elem?-answers (c ∷ cs) zero h = refl
  get_elem?-answers (c ∷ cs) (suc j) h = get_elem?-answers cs j (omega arith)

  slots-eq-answers :
      (schedule : List ℕ) (cs : List Connector)
      → Covers schedule cs
      → scatter schedule (search_at timeout timeout_text q cs) (replicate (length cs) no_result)
        ≡ answers cs
  slots-eq-answers schedule cs covers =
      let n = length-map cs (search_one timeout timeout_text q) in
      scatter-eq schedule (search_at timeout timeout_text q cs) (answers cs)
        (replicate (length cs) no_result) (λ j h. covers j (omega arith))
        (length-replicate (length cs) no_result ∙ sym n) (get_elem?-answers cs)

  -- Two orders in which the goroutines may finish, each with one for every platform, give one
  -- result: documents, warnings and error text do not depend on the interleaving.
  pub fanout_deterministic :
      (schedule other : List ℕ) (platforms : List Connector)
      → Covers schedule platforms
      → Covers other platforms
      → fanout timeout timeout_text schedule platforms q
        ≡ fanout timeout timeout_text other platforms q
  unfolding fanout
  fanout_deterministic schedule other platforms c d =
      rw (slots-eq-answers schedule platforms c, slots-eq-answers other platforms d)

  -- Where every platform has its goroutine, the call fails exactly when every platform failed.
  pub failed-fanout :
      (schedule : List ℕ) (platforms : List Connector)
      → Covers schedule platforms
      → failed (fanout timeout timeout_text schedule platforms q) ≡ all_failed (answers platforms)
  unfolding fanout
  failed-fanout schedule platforms c = rw (slots-eq-answers schedule platforms c) (
      ground (
        arith,
        errs-collect (answers platforms),
        all_failed-failures (answers platforms),
        length-map platforms (search_one timeout timeout_text q),
      ))

  -- Where every platform has its goroutine and the call succeeds, the documents are those of the
  -- platforms that answered, in the order of the platforms, and the warnings name exactly the
  -- platforms that failed, in that order.
  pub fanout-found :
      (schedule : List ℕ) (platforms : List Connector) {docs : List SourcedDocument}
      {ws : List Warning}
      → Covers schedule platforms
      → fanout timeout timeout_text schedule platforms q ≡ done (docs, ws)
      → (docs ≡ found (answers platforms))
        × (map (λ w. w.platform) ws ≡ dropped (answers platforms))
  unfolding fanout
  fanout-found schedule platforms c h =
      let e = rw (slots-eq-answers schedule platforms c) at h in
      ground (arith, docs-collect (answers platforms), warnings-collect (answers platforms))
