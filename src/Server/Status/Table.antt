-- ===== src/Server/Status/Table.antt =====
-- The statuses of errors in either protocol (api/internal/server/errors.go), as one table.
use sentilyzer.Prelude.{
  ℕ, ◌≡◌, refl, ap, Bool, true, false, ◌||◌, List, [], ◌∷◌, Option, none, some, Str, if◌then◌else◌,
}
use sentilyzer.Errors.{GoError, Sentinel, Code, wrap, is, status_code}
use sentilyzer.Server.Status.{
  classify_code, classify, classify-wrap, Category, bad_request, unsupported, upstream, timeout,
  no_capacity, http_status_of, grpc_code_of, http_status_for, grpc_code_for,
}

-- The statuses of the causes, the first that is found in the chain of an error first.
abbrev pub cause_table : List (Sentinel × (ℕ × Code))
cause_table =
    (Sentinel.topic_required, (400, Code.invalid_argument))
    ∷ (Sentinel.invalid_request, (400, Code.invalid_argument))
    ∷ (Sentinel.yaml_request_body, (415, Code.invalid_argument))
    ∷ (Sentinel.no_platforms, (503, Code.failed_precondition))
    ∷ (Sentinel.all_connectors_failed, (502, Code.unavailable))
    ∷ (Sentinel.deadline_exceeded, (504, Code.deadline_exceeded))
    ∷ []

-- The statuses of an error with none of these causes, by its gRPC code.
abbrev pub code_table : Code → ℕ × Code
code_table Code.invalid_argument = (400, Code.invalid_argument)
code_table Code.unavailable = (502, Code.unavailable)
code_table Code.deadline_exceeded = (504, Code.deadline_exceeded)
code_table _ = (500, Code.internal)

abbrev pub look_up : List (Sentinel × (ℕ × Code)) → GoError → ℕ × Code
look_up [] err = code_table (status_code err)
look_up ((cause, statuses) ∷ rows) err = if is err cause then statuses else look_up rows err

abbrev pub answer : Option GoError → ℕ × Code
answer err = (http_status_for err, grpc_code_for err)

abbrev answer_to : Category → ℕ × Code
answer_to c = (http_status_of c, grpc_code_of c)

by_code : (c : Code) → answer_to (classify_code c) ≡ code_table c
unfolding classify_code
by_code Code.ok = refl
by_code Code.unknown = refl
by_code Code.invalid_argument = refl
by_code Code.deadline_exceeded = refl
by_code Code.failed_precondition = refl
by_code Code.resource_exhausted = refl
by_code Code.internal = refl
by_code Code.unavailable = refl
by_code Code.other = refl

by_rows :
    (topic request yaml none_there all_failed late : Bool) (c : Category) {rest : ℕ × Code}
    → answer_to c ≡ rest
    → answer_to (
        if topic || request
        then bad_request
        else if yaml
        then unsupported
        else if none_there
        then no_capacity
        else if all_failed
        then upstream
        else if late
        then timeout
        else c)
      ≡ (if topic
          then (400, Code.invalid_argument)
          else if request
          then (400, Code.invalid_argument)
          else if yaml
          then (415, Code.invalid_argument)
          else if none_there
          then (503, Code.failed_precondition)
          else if all_failed
          then (502, Code.unavailable)
          else if late
          then (504, Code.deadline_exceeded)
          else rest)
by_rows true request yaml none_there all_failed late c h = refl
by_rows false true yaml none_there all_failed late c h = refl
by_rows false false true none_there all_failed late c h = refl
by_rows false false false true all_failed late c h = refl
by_rows false false false false true late c h = refl
by_rows false false false false false true c h = refl
by_rows false false false false false false c h = h

-- The HTTP status and the gRPC code of an error are those of the first row of one table whose cause is in its chain, or
-- else those that go with the first gRPC code in its chain; no error at all has 500 and Internal; and text put around an
-- error on its way up changes neither.
pub answer-eq-look_up :
    (err : GoError)
    → (answer (some err) ≡ look_up cause_table err)
      × (answer none ≡ (500, Code.internal))
      × ((before after : Str) → answer (some (wrap before err after)) ≡ answer (some err))
unfolding http_status_for grpc_code_for classify
answer-eq-look_up err = (
  by_rows (is err Sentinel.topic_required) (is err Sentinel.invalid_request)
      (is err Sentinel.yaml_request_body) (is err Sentinel.no_platforms)
      (is err Sentinel.all_connectors_failed) (is err Sentinel.deadline_exceeded)
      (classify_code (status_code err)) (by_code (status_code err)),
  refl,
  λ before after. ap answer_to (classify-wrap before after err),
)
