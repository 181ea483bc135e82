-- ===== src/Auth/HttpError.antt =====
-- `toHTTPError` of internal/auth/handler.go: the API error of a service error.

pub mod Coverage
pub mod Typed
pub mod Statuses
use passwordless_auth_servic.Prelude.{ℕ, String, Option, none, some, ◌==◌, if◌then◌else◌}
use passwordless_auth_servic.Auth.Domain.{Time}
use passwordless_auth_servic.Auth.Failure.{
  Error, account_exists, no_account, incorrect_code, expired, send_failed, invalid_phone,
  resend_cooldown, not_found, unsupported_intent, google_failed, no_session, invalid_range,
  errors_is, as_incorrect_code, as_locked,
}

-- `apiError`
pub record ApiError : Type 0 where
  pub status : ℕ
  pub code : String
  pub message : String
  pub attempts_remaining : Option ℕ
  pub locked_until : Option Time

abbrev pub api_error : ℕ → String → String → ApiError
api_error status code message = record {
  status = status;
  code = code;
  message = message;
  attempts_remaining = none;
  locked_until = none;
}

-- `codeForStatus`
abbrev code_for_status : ℕ → String
code_for_status status =
    if status == 400
    then "bad_request"
    else if status == 401
    then "unauthorized"
    else if status == 403
    then "forbidden"
    else if status == 404
    then "not_found"
    else if status == 422
    then "unprocessable_entity"
    else if status == 501
    then "not_implemented"
    else "internal_error"

-- The function that `useTypedErrors` installs as `huma.NewError`, without its side effect.
abbrev pub new_error : ℕ → String → ApiError
new_error status message = api_error status (code_for_status status) message

-- `notFoundError`
abbrev pub not_found_error : ApiError
not_found_error = api_error 404 "not_found" "not found"

-- The cases below the one of `*LockedError`. The last is `huma.Error500InternalServerError`.
unfoldable pub other_error : Error → ApiError
other_error e =
    if errors_is e expired
    then api_error 410 "expired" "the verification code has expired"
    else if errors_is e resend_cooldown
    then api_error 429 "cooldown_active" "please wait before requesting another code"
    else if errors_is e send_failed
    then api_error 502 "send_failed" "could not send the verification code; please retry"
    else if errors_is e not_found
    then not_found_error
    else if errors_is e unsupported_intent
    then api_error 501 "not_implemented" "this authentication flow is not yet supported"
    else if errors_is e google_failed
    then api_error 401 "google_failed" "could not verify the Google account"
    else if errors_is e no_session
    then api_error 401 "unauthorized" "no valid session"
    else if errors_is e invalid_range
    then api_error 422 "invalid_range" "range must be one of 24h, 7d, 30d"
    else new_error 500 "internal error"

-- The cases from `errors.As(err, &lockErr)` on.
abbrev pub locked_or : Error → Option Time → ApiError
locked_or e (some t) =
    record (api_error 423 "locked" "too many attempts; the challenge is temporarily locked") {
      locked_until = some t;
    }
locked_or e none = other_error e

-- The cases from `errors.As(err, &incErr)` on.
abbrev pub incorrect_or : Error → Option ℕ → ApiError
incorrect_or e (some n) =
    record (api_error 422 "incorrect_code" "the verification code is incorrect") {
      attempts_remaining = some n;
    }
incorrect_or e none =
    if errors_is e incorrect_code
    then api_error 422 "incorrect_code" "the verification code is incorrect"
    else locked_or e (as_locked e)

unfoldable pub to_http_error : Error → ApiError
to_http_error e =
    if errors_is e invalid_phone
    then api_error 422 "invalid_phone" "not a valid Egyptian mobile number"
    else if errors_is e account_exists
    then api_error 409 "account_exists" "an account already exists for this phone number"
    else if errors_is e no_account
    then api_error 404 "no_account" "no account exists for this phone number"
    else incorrect_or e (as_incorrect_code e)
