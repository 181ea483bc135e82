-- ===== src/Auth/Handler/Costs.antt =====
-- How many outside calls the requests of internal/auth/handler.go make.
use passwordless_auth_servic.Prelude.{
  ℕ, ◌+◌, ◌≤◌, String, false, Option, none, some, str_eq, ◌≡◌, arith, Bool-cases, inl, inr,
}
use passwordless_auth_servic.Auth.Domain.{Uuid}
use passwordless_auth_servic.Platform.World.{Env, World}
use passwordless_auth_servic.Platform.World.Runs.{Result-cases}
use passwordless_auth_servic.Platform.HttpServer.{warns}
use passwordless_auth_servic.Platform.Access.{
  Context, bearer_token, context_with_principal, session_middleware,
}
use passwordless_auth_servic.Platform.Access.Guard.{admin_middleware_passes}
use passwordless_auth_servic.Auth.Service.{Service}
use passwordless_auth_servic.Auth.Service.Sessions.{validate_session}
use passwordless_auth_servic.Auth.Service.Costs.{
  request_verification-Costs, confirm_verification-Costs, resend_verification-Costs,
  google_exchange-Costs,
}
use passwordless_auth_servic.Auth.Service.Costs.Accounts.{
  validate_session-Costs, account_of-Costs, revoke_session-Costs, list_accounts-Costs,
  clear_lockout-Costs, analytics-Costs,
}
use passwordless_auth_servic.Auth.Handler.{
  Handler, with_id, get_session_of, principal_id, admin_principal_id, role_given, trim_bearer,
  post_verification, post_resend, post_confirm, post_google, get_session, delete_session,
  get_accounts, post_clear_lockout, get_analytics, behind_session, behind_admin, answered_by,
}
use passwordless_auth_servic.Auth.Handler.Routes.{
  Request, request_code, resend_code, confirm_code, exchange_google, read_session, sign_out,
  list_registered, clear_lock, read_analytics, background, serve,
}

-- A handler that makes at most `n` outside calls.
abbrev Within {ℓ} : {A : Type ℓ} → ℕ → Handler A → Type 0
Within n handler = (w : World) → (handler w).1.calls ≤ w.calls + n

with_id-Within {ℓ} :
    {A : Type ℓ} (n : ℕ) (o : Option Uuid) (handler : Uuid → Handler A)
    → ((id : Uuid) → Within n (handler id))
    → Within n (with_id o handler)
with_id-Within n none handler k w = omega (arith)
with_id-Within n (some id) handler k w = k id w

weaken : {a : ℕ} (b : ℕ) → a ≤ b + 6 → a ≤ b + 10
weaken b h = omega (arith)

module _ (env : Env) where
  get_session_of-Within : (o : Option Uuid) → Within 1 (get_session_of env o)
  get_session_of-Within none w = omega (arith)
  get_session_of-Within (some id) w = (account_of-Costs env id).at w

  behind_session-Within {ℓ} :
      {A : Type ℓ} (n : ℕ) (handler : Context → Handler A) (header : String) (ctx : Context)
      → ((c : Context) → Within n (handler c))
      → (w : World) → (behind_session env handler header ctx w).1.calls ≤ w.calls + (4 + n)
  unfolding session_middleware
  behind_session-Within n handler header ctx k w =
      elim (Bool-cases (str_eq (bearer_token header) "")) [
        | inl empty ↦ rw empty (omega (arith))
        | inr given ↦
            rw given (elim (Result-cases (validate_session env (bearer_token header) w).0) [
              | inl (p, good) ↦
                  let after =
                    k (context_with_principal ctx p)
                      (validate_session env (bearer_token header) w).1 in
                  rw good (omega (arith, after, validated))
              | inr (e, bad) ↦ rw bad (omega (arith, validated))
            ])
      ]
    where
      validated : (validate_session env (bearer_token header) w).1.calls ≤ w.calls + 4
      validated = (validate_session-Costs env (bearer_token header)).at w

  behind_admin-Within {ℓ} :
      {A : Type ℓ} (n : ℕ) (s : Service) (handler : Context → Handler A) (header : String)
      (ctx : Context)
      → ((c : Context) → Within n (handler c))
      → (w : World) → (behind_admin s handler header ctx w).1.calls ≤ w.calls + n
  behind_admin-Within n s handler header ctx k w =
      elim (admin_middleware_passes s.admin_api_key s.admin_id (λ c. answered_by (handler c)) header
        ctx w) [
          | inl (_, passed) ↦ rw passed (k _ w)
          | inr (_, rejected) ↦ rw rejected (omega (arith))
        ]

  serve_within : (s : Service) (r : Request) (w : World) → (serve env s r w).calls ≤ w.calls + 10
  unfolding serve post_verification post_resend post_confirm post_google get_session delete_session
      get_accounts post_clear_lockout get_analytics
  serve_within s (request_code params) w =
      omega (arith, (request_verification-Costs env s params).at w)
  serve_within s (resend_code path_id) w =
      weaken w.calls (
        with_id-Within 6 (env.parse_uuid path_id) _ (λ id. (resend_verification-Costs env id).at) w)
  serve_within s (confirm_code path_id code) w =
      with_id-Within 10 (env.parse_uuid path_id) _
        (λ id. (confirm_verification-Costs env id code).at) w
  serve_within s (exchange_google id_token role) w =
      omega (arith, (google_exchange-Costs env s id_token (role_given role)).at w)
  serve_within s (read_session authorization) w = omega (
    arith,
    behind_session-Within 1 (get_session env) authorization background
        (λ ctx. get_session_of-Within (env.parse_uuid (principal_id ctx.principal))) w,
  )
  serve_within s (sign_out authorization) w = omega (
    arith,
    behind_session-Within 2 (λ _. delete_session env authorization) authorization background
        (λ _. (revoke_session-Costs env (trim_bearer authorization)).at) w,
  )
  serve_within s (list_registered authorization phone limit offset) w = omega (
    arith,
    behind_admin-Within 3 s (λ _. get_accounts env phone limit offset) authorization background
        (λ _. (list_accounts-Costs env phone limit offset).at) w,
  )
  serve_within s (clear_lock authorization path_id) w = omega (
    arith,
    behind_admin-Within 9 s (λ ctx. post_clear_lockout env ctx path_id) authorization background
        (λ ctx.
          with_id-Within 9 (env.parse_uuid path_id) _
            (λ id. (clear_lockout-Costs env (admin_principal_id ctx.admin_principal) id).at))
        w,
  )
  serve_within s (read_analytics authorization rng) w = omega (
    arith,
    behind_admin-Within 5 s (λ _. get_analytics env rng) authorization background
        (λ _. (analytics-Costs env rng).at) w,
  )

  -- No request makes more than ten outside calls, however they are answered and however large the
  -- tables are, so that its statements, which are among those calls, never bring up the warning of an
  -- unusual number of them.
  pub serve_quiet :
      (s : Service) (r : Request) (w : World) (statements : ℕ)
      → w.calls + statements ≤ (serve env s r w).calls
      → ((serve env s r w).calls ≤ w.calls + 10) × (warns statements ≡ false)
  unfolding warns
  serve_quiet s r w statements among = let within = serve_within s r w in (within, ground arith)
