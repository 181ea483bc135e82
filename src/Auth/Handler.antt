-- ===== src/Auth/Handler.antt =====
-- internal/auth/handler.go: the handlers that `Register` mounts, with the fields of their inputs as
-- arguments and their outputs as records. What huma does by the tags of the inputs is not modelled.
pub mod Outputs
pub mod Routes
pub mod Keeps
pub mod Costs
pub mod Integrity
pub mod Life
pub mod Operations
pub mod Redeemed
pub mod SignOut
pub mod Unlock
pub mod Entry
use passwordless_auth_servic.Prelude.{
  ℕ, String, Bool, true, false, Option, none, some, List, map, ℤ, str_eq, if◌then◌else◌,
}
use passwordless_auth_servic.Auth.Domain.{Time, Uuid, Role, Account, Verification, Intent}
use passwordless_auth_servic.Auth.Failure.{Error, Result, ok, err}
use passwordless_auth_servic.Auth.Phone.{cut_prefix}
use passwordless_auth_servic.Auth.Verification.{resend_available_at}
use passwordless_auth_servic.Auth.HttpError.{ApiError, new_error, not_found_error, to_http_error}
use passwordless_auth_servic.Platform.World.{Env, World, Exec}
use passwordless_auth_servic.Platform.Access.{
  Principal, AdminPrincipal, Context, Response, handled, session_middleware, admin_middleware,
}
use passwordless_auth_servic.Auth.Service.{Service}
use passwordless_auth_servic.Auth.Service.Request.{RequestVerificationParams, request_verification}
use passwordless_auth_servic.Auth.Service.Confirm.{ConfirmResult, confirm_verification}
use passwordless_auth_servic.Auth.Service.Google.{
  GoogleExchangeResult, resumed, no_account, google_exchange,
}
use passwordless_auth_servic.Auth.Service.Resend.{resend_verification}
use passwordless_auth_servic.Auth.Service.Sessions.{validate_session, account_of, revoke_session}
use passwordless_auth_servic.Auth.Service.Admin.{
  AccountListItem, AnalyticsResult, Quotient, list_accounts, clear_lockout, analytics,
}
use passwordless_auth_servic.Auth.Handler.Outputs.{
  RequestVerificationOutput, ResendVerificationOutput, AccountOutput, ConfirmVerificationOutput,
  GoogleExchangeOutput, AccountListItemDto, AnalyticsOutput,
}

-- A handler's reply: its output under the operation's default status, or a typed error.
pub data Reply {ℓ} (A : Type ℓ) : Type ℓ where
  reply : (status : ℕ) → A → Reply A
  problem : ApiError → Reply A

abbrev pub Handler {ℓ} : Type ℓ → Type ℓ
Handler A = World → Reply A × World

module _ {ℓ κ} {A : Type ℓ} {B : Type κ} where
  abbrev pub reply_of : ℕ → (A → B) → Result A → Reply B
  reply_of status f (ok a) = reply status (f a)
  reply_of status f (err e) = problem (to_http_error e)

  -- The call of the service, `if err != nil { return nil, toHTTPError(ctx, err) }`, and the output.
  abbrev pub respond : ℕ → (A → B) → Exec A → Handler B
  respond status f m w = let (r, w') = m w in (reply_of status f r, w')

-- `uuid.Parse` of the path, where a bad id is a 404.
abbrev pub with_id {ℓ} : {A : Type ℓ} → Option Uuid → (Uuid → Handler A) → Handler A
with_id none handler w = (problem not_found_error, w)
with_id (some id) handler w = handler id w

-- `strings.TrimPrefix(in.Authorization, "Bearer ")`
unfoldable pub trim_bearer : String → String
trim_bearer header = elim (cut_prefix "Bearer " header) [ none ↦ header | some token ↦ token ]

abbrev pub role_given : String → Option Role
role_given role = if str_eq role "" then none else some role

abbrev pub principal_id : Option Principal → String
principal_id none = ""
principal_id (some p) = p.account_id

abbrev pub admin_principal_id : Option AdminPrincipal → String
admin_principal_id none = ""
admin_principal_id (some p) = p.id

-- A handler behind a middleware, which its operation mounts.
abbrev pub answered_by {ℓ} : {A : Type ℓ} → Handler A → World → Response (Reply A) × World
answered_by handler w = let (r, w') = handler w in (handled r, w')

abbrev pub behind_admin {ℓ} :
    {A : Type ℓ}
    → Service
    → (Context → Handler A)
    → String
    → Context
    → World
    → Response (Reply A) × World
behind_admin s handler =
    admin_middleware s.admin_api_key s.admin_id (λ ctx. answered_by (handler ctx))

module _ (env : Env) where
  abbrev pub account_output : Account → AccountOutput
  account_output a = record {
    id = env.uuid_string a.id;
    role = a.role;
    language = a.preferred_language;
  }

  abbrev pub verification_output : Verification → RequestVerificationOutput
  verification_output v = record {
    verification_id = env.uuid_string v.id;
    expires_at = v.expires_at;
    resend_available_at = resend_available_at v;
  }

  abbrev pub confirm_output : ConfirmResult → ConfirmVerificationOutput
  confirm_output res = record {
    session_token = res.session_token;
    account = account_output res.account;
    route = res.route;
  }

  abbrev pub google_output : GoogleExchangeResult → GoogleExchangeOutput
  google_output (no_account pending_link_token) = record {
    session_token = "";
    account = none;
    route = "";
    next = "verify_phone";
    phone_prefill = none;
    pending_link_token = pending_link_token;
  }
  google_output (resumed session_token account route) = record {
    session_token = session_token;
    account = some (account_output account);
    route = route;
    next = "";
    phone_prefill = none;
    pending_link_token = "";
  }

  abbrev pub item_output : AccountListItem → AccountListItemDto
  item_output item = record {
    id = env.uuid_string item.id;
    role = item.role;
    phone = item.phone;
    google_linked = item.google_linked;
    signup_method = item.signup_method;
    created_at = item.created_at;
    lockout_active = item.lockout_active;
  }

  abbrev pub analytics_output : AnalyticsResult → AnalyticsOutput
  analytics_output res = record {
    signups_by_method = res.signups_by_method;
    verification_failure_rate = res.verification_failure_rate;
    lockout_count = res.lockout_count;
  }

  unfoldable pub post_verification :
      Service → RequestVerificationParams → Handler RequestVerificationOutput
  post_verification s params = respond 201 verification_output (request_verification env s params)

  unfoldable pub post_resend : String → Handler ResendVerificationOutput
  post_resend path_id = with_id (env.parse_uuid path_id) λ id.
      respond 200 (λ v. record { resend_available_at = resend_available_at v })
        (resend_verification env id)

  unfoldable pub post_confirm : String → String → Handler ConfirmVerificationOutput
  post_confirm path_id code =
      with_id (env.parse_uuid path_id)
        λ id. respond 200 confirm_output (confirm_verification env id code)

  unfoldable pub post_google : Service → String → String → Handler GoogleExchangeOutput
  post_google s id_token role =
      respond 200 google_output (google_exchange env s id_token (role_given role))

  -- From the parsed id of the principal on.
  abbrev get_session_of : Option Uuid → Handler AccountOutput
  get_session_of none w = (problem (new_error 401 "invalid session"), w)
  get_session_of (some id) w = respond 200 account_output (account_of env id) w

  unfoldable pub get_session : Context → Handler AccountOutput
  get_session ctx = get_session_of (env.parse_uuid (principal_id ctx.principal))

  unfoldable pub delete_session : String → Handler (Unit {0})
  unfolding trim_bearer
  delete_session authorization =
      respond 204 (λ _. tt) (revoke_session env (trim_bearer authorization))

  unfoldable pub get_accounts : String → ℤ → ℤ → Handler (List AccountListItemDto)
  get_accounts phone limit offset =
      respond 200 (map item_output) (list_accounts env phone limit offset)

  -- The actor is the principal that the middleware attached.
  unfoldable pub post_clear_lockout : Context → String → Handler Bool
  post_clear_lockout ctx path_id = with_id (env.parse_uuid path_id) λ id.
      respond 200 (λ cleared. cleared)
        (clear_lockout env (admin_principal_id ctx.admin_principal) id)

  unfoldable pub get_analytics : String → Handler AnalyticsOutput
  get_analytics rng = respond 200 analytics_output (analytics env rng)

  abbrev pub behind_session {ℓ} :
      {A : Type ℓ} → (Context → Handler A) → String → Context → World → Response (Reply A) × World
  behind_session handler =
      session_middleware (validate_session env) (λ ctx. answered_by (handler ctx))
