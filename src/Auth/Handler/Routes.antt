-- ===== src/Auth/Handler/Routes.antt =====
-- The operations that `Register` of internal/auth/handler.go mounts, each behind its middleware, and
-- the run of requests one after another.
use passwordless_auth_servic.Prelude.{String, none, List, [], ◌∷◌, ℤ}
use passwordless_auth_servic.Platform.World.{Env, World}
use passwordless_auth_servic.Platform.Access.{Context}
use passwordless_auth_servic.Auth.Service.{Service}
use passwordless_auth_servic.Auth.Service.Request.{RequestVerificationParams}
use passwordless_auth_servic.Auth.Handler.{
  behind_session, behind_admin, post_verification, post_resend, post_confirm, post_google,
  get_session, delete_session, get_accounts, post_clear_lockout, get_analytics,
}

-- A request to an operation, with the fields of its input; `authorization` is the header.
pub data Request : Type 0 where
  request_code : RequestVerificationParams → Request
  resend_code : (path_id : String) → Request
  confirm_code : (path_id code : String) → Request
  exchange_google : (id_token role : String) → Request
  read_session : (authorization : String) → Request
  sign_out : (authorization : String) → Request
  list_registered : (authorization phone : String) (limit offset : ℤ) → Request
  clear_lock : (authorization path_id : String) → Request
  read_analytics : (authorization rng : String) → Request

-- The context of a request before any middleware.
abbrev pub background : Context
background = record { principal = none; admin_principal = none }

module _ (env : Env) (s : Service) where
  unfoldable pub serve : Request → World → World
  serve (request_code params) w = (post_verification env s params w).1
  serve (resend_code path_id) w = (post_resend env path_id w).1
  serve (confirm_code path_id code) w = (post_confirm env path_id code w).1
  serve (exchange_google id_token role) w = (post_google env s id_token role w).1
  serve (read_session authorization) w =
      (behind_session env (get_session env) authorization background w).1
  serve (sign_out authorization) w =
      (behind_session env (λ _. delete_session env authorization) authorization background w).1
  serve (list_registered authorization phone limit offset) w =
      (behind_admin s (λ _. get_accounts env phone limit offset) authorization background w).1
  serve (clear_lock authorization path_id) w =
      (behind_admin s (λ ctx. post_clear_lockout env ctx path_id) authorization background w).1
  serve (read_analytics authorization rng) w =
      (behind_admin s (λ _. get_analytics env rng) authorization background w).1

  unfoldable pub serve_all : List Request → World → World
  serve_all [] w = w
  serve_all (r ∷ rs) w = serve_all rs (serve r w)
