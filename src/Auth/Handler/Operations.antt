-- ===== src/Auth/Handler/Operations.antt =====
-- The operations as `Register` of internal/auth/handler.go declares them to huma, and the statuses of
-- their responses.
pub mod Statuses
pub mod SessionPage
use passwordless_auth_servic.Prelude.{ℕ, String, Bool, List, [], ◌∷◌}
use passwordless_auth_servic.Platform.World.{Env, World}
use passwordless_auth_servic.Platform.Access.{Response, rejection, handled}
use passwordless_auth_servic.Auth.HttpError.{ApiError}
use passwordless_auth_servic.Auth.Service.{Service}
use passwordless_auth_servic.Auth.Handler.{
  Reply, reply, problem, behind_session, behind_admin, answered_by, post_verification, post_resend,
  post_confirm, post_google, get_session, delete_session, get_accounts, post_clear_lockout,
  get_analytics,
}
use passwordless_auth_servic.Auth.Handler.Routes.{
  background, Request, request_code, resend_code, confirm_code, exchange_google, read_session,
  sign_out, list_registered, clear_lock, read_analytics,
}

-- The fields of `huma.Operation` but its summary, its tags and its middlewares, which `serve_status` puts
-- before the handlers. Without a `DefaultStatus` it is huma's, 200.
pub record Operation : Type 0 where
  pub operation_id : String
  pub method : String
  pub path : String
  pub default_status : ℕ
  pub errors : List ℕ

abbrev request_verification_operation : Operation
request_verification_operation = record {
  operation_id = "request-verification";
  method = "POST";
  path = "/auth/verifications";
  default_status = 201;
  errors = 409 ∷ 404 ∷ 422 ∷ 429 ∷ 423 ∷ 502 ∷ 501 ∷ [];
}

abbrev resend_verification_operation : Operation
resend_verification_operation = record {
  operation_id = "resend-verification";
  method = "POST";
  path = "/auth/verifications/{id}/resend";
  default_status = 200;
  errors = 404 ∷ 410 ∷ 423 ∷ 429 ∷ 502 ∷ [];
}

abbrev confirm_verification_operation : Operation
confirm_verification_operation = record {
  operation_id = "confirm-verification";
  method = "POST";
  path = "/auth/verifications/{id}/confirm";
  default_status = 200;
  errors = 404 ∷ 410 ∷ 422 ∷ 423 ∷ [];
}

abbrev google_exchange_operation : Operation
google_exchange_operation = record {
  operation_id = "google-exchange";
  method = "POST";
  path = "/auth/google";
  default_status = 200;
  errors = 401 ∷ [];
}

abbrev get_session_operation : Operation
get_session_operation = record {
  operation_id = "get-session";
  method = "GET";
  path = "/auth/session";
  default_status = 200;
  errors = 401 ∷ [];
}

abbrev sign_out_operation : Operation
sign_out_operation = record {
  operation_id = "sign-out";
  method = "DELETE";
  path = "/auth/session";
  default_status = 204;
  errors = 401 ∷ [];
}

abbrev list_accounts_operation : Operation
list_accounts_operation = record {
  operation_id = "admin-list-accounts";
  method = "GET";
  path = "/admin/accounts";
  default_status = 200;
  errors = 401 ∷ [];
}

abbrev clear_lockout_operation : Operation
clear_lockout_operation = record {
  operation_id = "admin-clear-lockout";
  method = "POST";
  path = "/admin/accounts/{id}/clear-lockout";
  default_status = 200;
  errors = 401 ∷ 404 ∷ [];
}

abbrev analytics_operation : Operation
analytics_operation = record {
  operation_id = "admin-analytics";
  method = "GET";
  path = "/admin/analytics";
  default_status = 200;
  errors = 401 ∷ 422 ∷ [];
}

-- The operation that a request is for.
abbrev pub operation_of : Request → Operation
operation_of (request_code params) = request_verification_operation
operation_of (resend_code path_id) = resend_verification_operation
operation_of (confirm_code path_id code) = confirm_verification_operation
operation_of (exchange_google id_token role) = google_exchange_operation
operation_of (read_session authorization) = get_session_operation
operation_of (sign_out authorization) = sign_out_operation
operation_of (list_registered authorization phone limit offset) = list_accounts_operation
operation_of (clear_lock authorization path_id) = clear_lockout_operation
operation_of (read_analytics authorization rng) = analytics_operation

-- The status that goes out. An `apiError` carries its own (`GetStatus`).
module _ {ℓ} {A : Type ℓ} where
  abbrev pub reply_status : Reply A → ℕ
  reply_status (reply status out) = status
  reply_status (problem e) = e.status

  abbrev pub response_status : Response (Reply A) → ℕ
  response_status (rejection status message) = status
  response_status (handled r) = reply_status r

-- The status of the response to a request.
unfoldable pub serve_status : Env → Service → Request → World → ℕ
serve_status env s (request_code params) w = reply_status (post_verification env s params w).0
serve_status env s (resend_code path_id) w = reply_status (post_resend env path_id w).0
serve_status env s (confirm_code path_id code) w = reply_status (post_confirm env path_id code w).0
serve_status env s (exchange_google id_token role) w =
    reply_status (post_google env s id_token role w).0
serve_status env s (read_session authorization) w =
    response_status (behind_session env (get_session env) authorization background w).0
serve_status env s (sign_out authorization) w =
    response_status
      (behind_session env (λ _. delete_session env authorization) authorization background w).0
serve_status env s (list_registered authorization phone limit offset) w =
    response_status
      (behind_admin s (λ _. get_accounts env phone limit offset) authorization background w).0
serve_status env s (clear_lock authorization path_id) w =
    response_status
      (behind_admin s (λ ctx. post_clear_lockout env ctx path_id) authorization background w).0
serve_status env s (read_analytics authorization rng) w =
    response_status (behind_admin s (λ _. get_analytics env rng) authorization background w).0
