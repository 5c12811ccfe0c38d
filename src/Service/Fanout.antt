-- ===== src/Service/Fanout.antt =====
-- fanout of api/internal/service/service.go. The goroutines may finish in any order: `schedule` is
-- the order in which they write their slots of `results`. `timeout_text` is `%s` of the timeout.
pub mod Outcomes
use sentilyzer.Prelude.{
  ℕ, ◌==◌, Bool, true, false, ◌&&◌, List, [], ◌∷◌, ◌++◌, map, length, get_elem?, replicate, Str,
  if◌then◌else◌, Option, none, some,
}
use sentilyzer.Prelude.Text.{codes, join}
use sentilyzer.Prelude.Slices.{scatter}
use sentilyzer.Errors.{
  GoError, text, wrap, sentinel, all_connectors_failed, message, Result, done, fail,
}
use sentilyzer.Domain.{SourcedDocument, Warning}
use sentilyzer.Connectors.{Connector, Query, Searched}

pub record FanoutResult : Type 0 where
  pub platform : Str
  pub answer : Result (List SourcedDocument)

-- the zero value of a slot
abbrev pub no_result : FanoutResult
no_result = record { platform = []; answer = done [] }

-- An error after the deadline is reported as the timeout.
unfoldable pub settle : Str → Searched → Result (List SourcedDocument)
settle timeout_text s = elim s.answer [
  | done docs ↦ done docs
  | fail err ↦
      if s.deadline_passed then fail (text (codes "timed out after " ++ timeout_text)) else fail err
]

-- the body of a goroutine
unfoldable pub search_one : ℕ → Str → Query → Connector → FanoutResult
unfolding settle
search_one timeout timeout_text q c = record {
  platform = c.id;
  answer = settle timeout_text (c.search timeout q);
}

unfoldable pub search_at : ℕ → Str → Query → List Connector → ℕ → FanoutResult
unfolding search_one
search_at timeout timeout_text q platforms i = elim (get_elem? platforms i) [
  | none ↦ no_result
  | some c ↦ search_one timeout timeout_text q c
]

pub record Collected : Type 0 where
  pub docs : List SourcedDocument
  pub warnings : List Warning
  pub errs : List Str

-- the loop over `results`
unfoldable pub collect : List FanoutResult → Collected
collect [] = record { docs = []; warnings = []; errs = [] }
collect (r ∷ rs) =
    let rest = collect rs in
    elim r.answer [
      | fail err ↦ record {
        docs = rest.docs;
        warnings = record { platform = r.platform; message = message err } ∷ rest.warnings;
        errs = (r.platform ++ (codes ": " ++ message err)) ∷ rest.errs;
      }
      | done docs ↦ record rest { docs = docs ++ rest.docs }
    ]

unfoldable pub fanout :
    ℕ → Str → List ℕ → List Connector → Query → Result (List SourcedDocument × List Warning)
unfolding search_at scatter collect join
fanout timeout timeout_text schedule platforms q =
    let results =
      scatter schedule (search_at timeout timeout_text q platforms)
        (replicate (length platforms) no_result) in
    let c = collect results in
    if length c.errs == length platforms
    then fail (wrap [] (sentinel all_connectors_failed) (codes ": " ++ join (codes "; ") c.errs))
    else done (c.docs, c.warnings)
