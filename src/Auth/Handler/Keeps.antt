-- ===== src/Auth/Handler/Keeps.antt =====
-- The requests of internal/auth/handler.go, and what they keep of the tables.
use passwordless_auth_servic.Prelude.{
  Bool-cases, inl, inr, String, Option, none, some, List, [], ◌∷◌, str_eq, Bool, true, false, ◌≡◌,
  refl,
}
use passwordless_auth_servic.Auth.Domain.{Uuid}
use passwordless_auth_servic.Platform.World.{Db, Env, World}
use passwordless_auth_servic.Platform.World.Runs.{Result-cases}
use passwordless_auth_servic.Platform.Access.Guard.{admin_middleware_passes}
use passwordless_auth_servic.Platform.Access.{
  context_with_principal, Context, bearer_token, session_middleware,
}
use passwordless_auth_servic.Postgres.Keeps.{Stable, StableOutside}
use passwordless_auth_servic.Auth.Service.{Service}
use passwordless_auth_servic.Auth.Service.Sessions.{validate_session}
use passwordless_auth_servic.Auth.Service.Keeps.{
  request_verification-Keeps, confirm_verification-Keeps, resend_verification-Keeps,
}
use passwordless_auth_servic.Auth.Service.Keeps.Accounts.{
  google_exchange-Keeps, validate_session-Keeps, account_of-Keeps, revoke_session-Keeps,
  list_accounts-Keeps, clear_lockout-Keeps, analytics-Keeps,
}
use passwordless_auth_servic.Auth.Handler.{
  Handler, with_id, get_session_of, principal_id, admin_principal_id, post_verification,
  post_resend, post_confirm, post_google, get_session, delete_session, get_accounts,
  post_clear_lockout, get_analytics, behind_session, behind_admin, answered_by, role_given,
  trim_bearer,
}
use passwordless_auth_servic.Auth.Handler.Routes.{
  background, Request, request_code, resend_code, confirm_code, exchange_google, read_session,
  sign_out, list_registered, clear_lock, read_analytics, serve, serve_all,
}

-- The requests whose use case writes the table of challenges.
unfoldable pub writes_challenge : Request → Bool
writes_challenge (request_code params) = true
writes_challenge (resend_code path_id) = true
writes_challenge (confirm_code path_id code) = true
writes_challenge (clear_lock authorization path_id) = true
writes_challenge (exchange_google id_token role) = false
writes_challenge (read_session authorization) = false
writes_challenge (sign_out authorization) = false
writes_challenge (list_registered authorization phone limit offset) = false
writes_challenge (read_analytics authorization rng) = false

-- A handler that leaves `P` true of the tables.
abbrev Preserves {ℓ κ} : {A : Type ℓ} → (Db → Type κ) → Handler A → Type κ
Preserves P handler = (w : World) → P w.db → P (handler w).1.db

with_id-Preserves {ℓ κ} :
    {A : Type ℓ} (P : Db → Type κ) (o : Option Uuid) (handler : Uuid → Handler A)
    → ((id : Uuid) → Preserves P (handler id))
    → Preserves P (with_id o handler)
with_id-Preserves P none handler k w h = h
with_id-Preserves P (some id) handler k w h = k id w h

module _ {κ} {P : Db → Type κ} (outside : StableOutside P) (env : Env) where
  get_session_of-Preserves : (o : Option Uuid) → Preserves P (get_session_of env o)
  get_session_of-Preserves none w h = h
  get_session_of-Preserves (some id) w h = (account_of-Keeps outside env id).at w h

  behind_session-Preserves {ℓ} :
      {A : Type ℓ} (handler : Context → Handler A) (header : String) (ctx : Context)
      → ((c : Context) → Preserves P (handler c))
      → (w : World) → P w.db
      → P (behind_session env handler header ctx w).1.db
  unfolding session_middleware
  behind_session-Preserves handler header ctx k w h =
      elim (Bool-cases (str_eq (bearer_token header) "")) [
        | inl empty ↦ rw empty h
        | inr given ↦
            rw given (elim (Result-cases (validate_session env (bearer_token header) w).0) [
              | inl (p, good) ↦ rw good (k (context_with_principal ctx p) _ valid)
              | inr (e, bad) ↦ rw bad valid
            ])
      ]
    where
      valid : P (validate_session env (bearer_token header) w).1.db
      valid = (validate_session-Keeps outside env (bearer_token header)).at w h

  behind_admin-Preserves {ℓ} :
      {A : Type ℓ} (s : Service) (handler : Context → Handler A) (header : String) (ctx : Context)
      → ((c : Context) → Preserves P (handler c))
      → (w : World) → P w.db
      → P (behind_admin s handler header ctx w).1.db
  behind_admin-Preserves s handler header ctx k w h =
      elim (admin_middleware_passes s.admin_api_key s.admin_id (λ c. answered_by (handler c)) header
        ctx w) [ inl (_, passed) ↦ rw passed (k _ w h) | inr (_, rejected) ↦ rw rejected h ]

  -- The requests that write no challenge.
  pub serve_outside-Keeps :
      (s : Service) (r : Request) (w : World)
      → writes_challenge r ≡ false
      → P w.db
      → P (serve env s r w).db
  unfolding serve post_google get_session delete_session get_accounts get_analytics writes_challenge
  serve_outside-Keeps s (request_code params) w e h = absurd (cc)
  serve_outside-Keeps s (resend_code path_id) w e h = absurd (cc)
  serve_outside-Keeps s (confirm_code path_id code) w e h = absurd (cc)
  serve_outside-Keeps s (clear_lock authorization path_id) w e h = absurd (cc)
  serve_outside-Keeps s (exchange_google id_token role) w e h =
      (google_exchange-Keeps outside env s id_token (role_given role)).at w h
  serve_outside-Keeps s (read_session authorization) w e h =
      behind_session-Preserves (get_session env) authorization background
        (λ ctx. get_session_of-Preserves (env.parse_uuid (principal_id ctx.principal))) w h
  serve_outside-Keeps s (sign_out authorization) w e h =
      behind_session-Preserves (λ _. delete_session env authorization) authorization background
        (λ _. (revoke_session-Keeps outside env (trim_bearer authorization)).at) w h
  serve_outside-Keeps s (list_registered authorization phone limit offset) w e h =
      behind_admin-Preserves s (λ _. get_accounts env phone limit offset) authorization background
        (λ _. (list_accounts-Keeps outside env phone limit offset).at) w h
  serve_outside-Keeps s (read_analytics authorization rng) w e h =
      behind_admin-Preserves s (λ _. get_analytics env rng) authorization background
        (λ _. (analytics-Keeps outside env rng).at) w h

module _ {κ} {P : Db → Type κ} (stable : Stable P) (env : Env) where
  pub serve-Keeps : (s : Service) (r : Request) (w : World) → P w.db → P (serve env s r w).db
  unfolding serve post_verification post_resend post_confirm post_clear_lockout writes_challenge
  serve-Keeps s (request_code params) w h = (request_verification-Keeps stable env s params).at w h
  serve-Keeps s (resend_code path_id) w h =
      with_id-Preserves P (env.parse_uuid path_id) _
        (λ id. (resend_verification-Keeps stable env id).at) w h
  serve-Keeps s (confirm_code path_id code) w h =
      with_id-Preserves P (env.parse_uuid path_id) _
        (λ id. (confirm_verification-Keeps stable env id code).at) w h
  serve-Keeps s (clear_lock authorization path_id) w h =
      behind_admin-Preserves stable.outside env s (λ ctx. post_clear_lockout env ctx path_id)
        authorization background
        (λ ctx.
          with_id-Preserves P (env.parse_uuid path_id) _
            (λ id. (clear_lockout-Keeps stable env (admin_principal_id ctx.admin_principal) id).at))
        w h
  serve-Keeps s (exchange_google id_token role) w h =
      serve_outside-Keeps stable.outside env s (exchange_google id_token role) w refl h
  serve-Keeps s (read_session authorization) w h =
      serve_outside-Keeps stable.outside env s (read_session authorization) w refl h
  serve-Keeps s (sign_out authorization) w h =
      serve_outside-Keeps stable.outside env s (sign_out authorization) w refl h
  serve-Keeps s (list_registered authorization phone limit offset) w h =
      serve_outside-Keeps stable.outside env s (list_registered authorization phone limit offset) w
        refl h
  serve-Keeps s (read_analytics authorization rng) w h =
      serve_outside-Keeps stable.outside env s (read_analytics authorization rng) w refl h

  pub serve_all-Keeps :
      (s : Service) (requests : List Request) (w : World)
      → P w.db
      → P (serve_all env s requests w).db
  unfolding serve_all
  serve_all-Keeps s [] w h = h
  serve_all-Keeps s (r ∷ rs) w h = serve_all-Keeps s rs (serve env s r w) (serve-Keeps s r w h)
