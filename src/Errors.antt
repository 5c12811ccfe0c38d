-- ===== src/Errors.antt =====
-- Go errors as values: the sentinels that package service exports, the errors of the libraries, and
-- the wrapping of `fmt.Errorf` with `%w` (api/internal/service/service.go, api/internal/server).
use sentilyzer.Prelude.{
  Bool, true, false, ◌||◌, ◌++◌, Str, Option, none, some, ◌≡◌, refl, ◌⊎◌, inl, inr,
}
use sentilyzer.Prelude.Text.{codes}

-- The values that `errors.Is` is asked about.
pub data Sentinel : Type 0 where
  invalid_request topic_required no_platforms all_connectors_failed : Sentinel
  yaml_request_body deadline_exceeded canceled : Sentinel

-- The gRPC codes that the program reads or sends; `other` stands for the rest.
pub data Code : Type 0 where
  ok unknown invalid_argument deadline_exceeded failed_precondition : Code
  resource_exhausted internal unavailable other : Code

-- `status` is an error made by the gRPC library, `text` an error of `errors.New` or of another
-- library, `wrap before e after` an error that wraps `e` with text around it, and `wrap_two` is
-- `fmt.Errorf("%w: %w", e, f)`.
pub data GoError : Type 0 where
  sentinel : Sentinel → GoError
  status : Code → Str → GoError
  text : Str → GoError
  wrap : Str → GoError → Str → GoError
  wrap_two : GoError → GoError → GoError

abbrev pub same_sentinel : Sentinel → Sentinel → Bool
same_sentinel Sentinel.invalid_request Sentinel.invalid_request = true
same_sentinel Sentinel.topic_required Sentinel.topic_required = true
same_sentinel Sentinel.no_platforms Sentinel.no_platforms = true
same_sentinel Sentinel.all_connectors_failed Sentinel.all_connectors_failed = true
same_sentinel Sentinel.yaml_request_body Sentinel.yaml_request_body = true
same_sentinel Sentinel.deadline_exceeded Sentinel.deadline_exceeded = true
same_sentinel Sentinel.canceled Sentinel.canceled = true
same_sentinel _ _ = false

-- errors.Is
unfoldable pub is : GoError → Sentinel → Bool
is (sentinel s) t = same_sentinel s t
is (status c m) t = false
is (text m) t = false
is (wrap before e after) t = is e t
is (wrap_two e f) t = is e t || is f t

-- The first gRPC status in the chain, as errors.As finds it.
unfoldable pub find_status : GoError → Option Code
find_status (sentinel s) = none
find_status (status c m) = some c
find_status (text m) = none
find_status (wrap before e after) = find_status e
find_status (wrap_two e f) = elim (find_status e) [ none ↦ find_status f | some c ↦ some c ]

-- status.Code of an error that is not nil
unfoldable pub status_code : GoError → Code
unfolding find_status
status_code e = elim (find_status e) [ none ↦ unknown | some c ↦ c ]

abbrev pub sentinel_text : Sentinel → Str
sentinel_text Sentinel.invalid_request = codes "invalid request"
sentinel_text Sentinel.topic_required = codes "topic is required"
sentinel_text Sentinel.no_platforms =
    codes "no platforms enabled — set credentials or SENTILYZER_USE_MOCK=true"
sentinel_text Sentinel.all_connectors_failed = codes "all connectors failed"
sentinel_text Sentinel.yaml_request_body =
    codes
      "YAML request bodies are not supported — send application/json or application/xml. To receive YAML, use ?format=yaml or Accept: application/yaml"
sentinel_text Sentinel.deadline_exceeded = codes "context deadline exceeded"
sentinel_text Sentinel.canceled = codes "context canceled"

-- err.Error()
unfoldable pub message : GoError → Str
message (sentinel s) = sentinel_text s
message (status c m) = m
message (text m) = m
message (wrap before e after) = before ++ (message e ++ after)
message (wrap_two e f) = message e ++ (codes ": " ++ message f)

-- A pair `(value, error)` in which one of the two is nil.
pub data Result {ℓ} (A : Type ℓ) : Type ℓ where
  done : A → Result A
  fail : GoError → Result A

infixl 5 ◌>>=◌
abbrev pub ◌>>=◌ {ℓ κ} : {A : Type ℓ} {B : Type κ} → Result A → (A → Result B) → Result B
done a >>= f = f a
fail e >>= f = fail e

-- A chain that succeeds has a first step that does.
pub >>=-eq-done {ℓ κ} :
    {A : Type ℓ} {B : Type κ} (m : Result A) (f : A → Result B) {b : B}
    → (m >>= f) ≡ done b
    → (a : A) × (m ≡ done a) × (f a ≡ done b)
>>=-eq-done (done a) f h = (a, refl, h)
>>=-eq-done (fail e) f h = cc

pub Result-cases {ℓ} :
    {A : Type ℓ} (r : Result A) → ((a : A) × (r ≡ done a)) ⊎ ((e : GoError) × (r ≡ fail e))
Result-cases (done a) = inl (a, refl)
Result-cases (fail e) = inr (e, refl)
