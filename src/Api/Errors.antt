-- ===== src/Api/Errors.antt =====
-- apps/api/src/errors: `PillarError` with its factories, and the envelope that `renderError` sends.
use canton_pillar.Base.{ℕ, Option, none, some, String, Bool, if◌then◌else◌, or_else}

pub data ErrorType : Type 0 where
  invalid_request_error authentication_error permission_error not_found_error idempotency_error :
      ErrorType
  rate_limit_error version_error ledger_error projection_error webhook_error api_error : ErrorType

pub record PillarError : Type 0 where
  pub type : ErrorType
  pub code : String
  pub status_code : ℕ
  pub message : String
  pub param : Option String

abbrev pub pillar_error : ErrorType → String → ℕ → String → Option String → PillarError
pillar_error type code status_code message param = record {
  type = type;
  code = code;
  status_code = status_code;
  message = message;
  param = param;
}

abbrev pub invalid : String → String → Option String → PillarError
invalid code message param = pillar_error invalid_request_error code 400 message param

abbrev pub auth : String → PillarError
auth message = pillar_error authentication_error "authentication_required" 401 message none

abbrev pub permission : String → PillarError
permission message = pillar_error permission_error "permission_denied" 403 message none

abbrev pub not_found : String → PillarError
not_found message = pillar_error not_found_error "resource_missing" 404 message none

abbrev pub idempotency : String → String → ℕ → PillarError
idempotency code message status = pillar_error idempotency_error code status message none

abbrev pub rate_limit : PillarError
rate_limit = pillar_error rate_limit_error "rate_limit_exceeded" 429 "Too many requests." none

abbrev pub version : PillarError
version = pillar_error version_error "api_version_unsupported" 400 "Unsupported API version." none

abbrev pub projection : String → String → PillarError
projection code message = pillar_error projection_error code 503 message none

abbrev pub api : String → PillarError
api message = pillar_error api_error "internal_error" 500 message none

-- What a handler may throw: the API's own error, a Zod error with its first issue, or another.
pub data Thrown : Type 0 where
  pillar : PillarError → Thrown
  zod : (message path : Option String) → Thrown
  other : (message : Option String) → Thrown

pub record Envelope : Type 0 where
  pub status : ℕ
  pub type : ErrorType
  pub code : String
  pub message : String
  pub param : Option String
  pub request_id : String

unfoldable pub to_pillar_error : Bool → Thrown → PillarError
to_pillar_error debug (pillar e) = e
to_pillar_error debug (zod message path) =
    invalid "invalid_parameter" (or_else message "Invalid request.") path
to_pillar_error debug (other none) = api "Internal API error."
to_pillar_error debug (other (some message)) =
    api (if debug then message else "Internal API error.")

-- `debug` is LOG_LEVEL === 'debug'. The link doc_url is a function of the code.
unfoldable pub render_error : Bool → Option String → Thrown → Envelope
unfolding to_pillar_error
render_error debug request_id error =
    let e = to_pillar_error debug error in
    record {
      status = e.status_code;
      type = e.type;
      code = e.code;
      message = e.message;
      param = e.param;
      request_id = or_else request_id "req_unknown";
    }
