-- ===== src/Server/Status.antt =====
-- api/internal/server/errors.go: one category for each error, and its status in either protocol.
-- An error that may be nil is an `Option`.
pub mod Table
use sentilyzer.Prelude.{ℕ, ◌≡◌, refl, ◌||◌, Option, none, some, Str, if◌then◌else◌, arith}
use sentilyzer.Errors.{GoError, Sentinel, wrap, Code, is, status_code}

pub data Category : Type 0 where
  internal bad_request unsupported upstream timeout no_capacity : Category

-- the `switch` on the gRPC code
unfoldable pub classify_code : Code → Category
classify_code Code.deadline_exceeded = timeout
classify_code Code.unavailable = upstream
classify_code Code.resource_exhausted = internal
classify_code Code.invalid_argument = bad_request
classify_code _ = internal

unfoldable pub classify : Option GoError → Category
unfolding classify_code
classify none = internal
classify (some err) =
    if is err Sentinel.topic_required || is err Sentinel.invalid_request
    then bad_request
    else if is err Sentinel.yaml_request_body
    then unsupported
    else if is err Sentinel.no_platforms
    then no_capacity
    else if is err Sentinel.all_connectors_failed
    then upstream
    else if is err Sentinel.deadline_exceeded
    then timeout
    else classify_code (status_code err)

abbrev pub http_status_of : Category → ℕ
http_status_of bad_request = 400
http_status_of unsupported = 415
http_status_of upstream = 502
http_status_of timeout = 504
http_status_of no_capacity = 503
http_status_of internal = 500

unfoldable pub http_status_for : Option GoError → ℕ
http_status_for err = http_status_of (classify err)

abbrev pub grpc_code_of : Category → Code
grpc_code_of bad_request = Code.invalid_argument
grpc_code_of unsupported = Code.invalid_argument
grpc_code_of upstream = Code.unavailable
grpc_code_of timeout = Code.deadline_exceeded
grpc_code_of no_capacity = Code.failed_precondition
grpc_code_of internal = Code.internal

unfoldable pub grpc_code_for : Option GoError → Code
grpc_code_for err = grpc_code_of (classify err)

-- Text put around an error on its way up changes neither status.
pub classify-wrap :
    (before after : Str) (e : GoError) → classify (some (wrap before e after)) ≡ classify (some e)
unfolding classify is status_code
classify-wrap before after e = refl
