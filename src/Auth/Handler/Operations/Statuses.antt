-- ===== src/Auth/Handler/Operations/Statuses.antt =====
-- The statuses of the responses against those that the operations declare.
use mathlib.Core.Path.{subst}
use passwordless_auth_servic.Prelude.{
  ℕ, String, Bool, true, false, ◌&&◌, Option, none, some, List, [], ◌∷◌, ◌++◌, ◌==◌, ==_iff, map,
  ◌≡◌, refl, inl, inr, Bool-cases, str_eq,
}
use passwordless_auth_servic.Auth.Domain.{Uuid}
use passwordless_auth_servic.Auth.Failure.{
  Sentinel, account_exists, no_account, locked, incorrect_code, expired, send_failed, invalid_phone,
  resend_cooldown, not_found, unsupported_intent, google_failed, invalid_range, Result, ok, err,
}
use passwordless_auth_servic.Auth.HttpError.Statuses.{is_listed, statuses, to_http_error-listed}
use passwordless_auth_servic.Platform.World.{Env, World, Exec}
use passwordless_auth_servic.Platform.World.Runs.{Result-cases}
use passwordless_auth_servic.Platform.Uow.Raises.{ErrNames, Raises}
use passwordless_auth_servic.Platform.Access.{
  Context, bearer_token, session_middleware, context_with_principal,
}
use passwordless_auth_servic.Platform.Access.Guard.{admin_middleware_passes}
use passwordless_auth_servic.Auth.Service.{Service}
use passwordless_auth_servic.Auth.Service.Sessions.{validate_session}
use passwordless_auth_servic.Auth.Service.Raises.{SenderIsForeign, confirm_verification-Raises}
use passwordless_auth_servic.Auth.Service.Raises.Sending.{
  request_verification-Raises, resend_verification-Raises,
}
use passwordless_auth_servic.Auth.Service.Raises.Accounts.{
  VerifierBlamesGoogle, google_exchange-Raises, revoke_session-Raises, list_accounts-Raises,
  clear_lockout-Raises, analytics-Raises,
}
use passwordless_auth_servic.Auth.Handler.{
  Handler, reply_of, respond, with_id, role_given, trim_bearer, admin_principal_id, answered_by,
  resend_available_at, behind_session, behind_admin, post_verification, post_resend, post_confirm,
  post_google, get_session, delete_session, get_accounts, post_clear_lockout, get_analytics,
  verification_output, confirm_output, google_output, item_output, analytics_output,
}
use passwordless_auth_servic.Auth.Handler.Routes.{
  background, Request, request_code, resend_code, confirm_code, exchange_google, read_session,
  sign_out, list_registered, clear_lock, read_analytics,
}
use passwordless_auth_servic.Auth.Handler.Operations.SessionPage.{get_session-status}
use passwordless_auth_servic.Auth.Handler.Operations.{
  Operation, operation_of, reply_status, response_status, serve_status,
}

-- What an operation declares: its default status and its errors.
abbrev pub declared : Operation → List ℕ
declared op = op.default_status ∷ op.errors

-- What it answers besides: the generic 500, and a status of an error of its use case that it leaves out.
abbrev pub undeclared : Request → List ℕ
undeclared (request_code params) = 500 ∷ 401 ∷ []
undeclared (confirm_code path_id code) = 500 ∷ 409 ∷ []
undeclared _ = 500 ∷ []

abbrev pub answers_of : Request → List ℕ
answers_of r = declared (operation_of r) ++ undeclared r

abbrev is_within : List ℕ → List ℕ → Bool
is_within [] ks = true
is_within (n ∷ ns) ks = is_listed ks n && is_within ns ks

both : (a b : Bool) → (a && b) ≡ true → (a ≡ true) × (b ≡ true)
both true true e = (refl, refl)
both true false e = absurd (cc)
both false b e = absurd (cc)

is_within-is_listed :
    (ns ks : List ℕ) (n : ℕ)
    → is_within ns ks ≡ true
    → is_listed ns n ≡ true
    → is_listed ks n ≡ true
is_within-is_listed [] ks n within there = absurd (cc)
is_within-is_listed (k ∷ ns) ks n within there =
    let (first, rest) = both (is_listed ks k) (is_within ns ks) within in
    elim (Bool-cases (k == n)) [
      | inl same ↦ subst (λ m. is_listed ks m ≡ true) ((==_iff k n).0 same) first
      | inr other ↦ is_within-is_listed ns ks n rest (rw other at there)
    ]

-- The responses of a handler have statuses among the given ones.
abbrev Answers {ℓ} : {A : Type ℓ} → List ℕ → Handler A → Type 0
Answers ks handler = (w : World) → is_listed ks (reply_status (handler w).0) ≡ true

module _ (ks : List ℕ) where
  respond-Answers {ℓ κ} :
      {A : Type ℓ} {B : Type κ} {names : List Sentinel} (status : ℕ) (f : A → B) (m : Exec A)
      → Raises names m
      → is_within (status ∷ statuses names) ks ≡ true
      → Answers ks (respond status f m)
  respond-Answers {A = A} {names = names} status f m raises within w = go (m w).0 (raises.at w)
    where
      go :
          (r : Result A)
          → ErrNames names r
          → is_listed ks (reply_status (reply_of status f r)) ≡ true
      go (ok a) h = (both (is_listed ks status) _ within).0
      go (err e) h =
          is_within-is_listed (statuses names) ks _ (both (is_listed ks status) _ within).1
            (to_http_error-listed e h)

  with_id-Answers {ℓ} :
      {A : Type ℓ} (o : Option Uuid) (handler : Uuid → Handler A)
      → is_listed ks 404 ≡ true
      → ((id : Uuid) → Answers ks (handler id))
      → Answers ks (with_id o handler)
  with_id-Answers none handler missing k w = missing
  with_id-Answers (some id) handler missing k w = k id w

  behind_session-Answers {ℓ} :
      {A : Type ℓ} (env : Env) (handler : Context → Handler A) (header : String)
      → is_listed ks 401 ≡ true
      → ((c : Context) → Answers ks (handler c))
      → (w : World)
      → is_listed ks (response_status (behind_session env handler header background w).0) ≡ true
  unfolding session_middleware
  behind_session-Answers env handler header denied k w =
      elim (Bool-cases (str_eq (bearer_token header) "")) [
        | inl empty ↦ rw empty denied
        | inr given ↦
            rw given (elim (Result-cases (validate_session env (bearer_token header) w).0) [
              | inl (p, good) ↦ rw good (k (context_with_principal background p) _)
              | inr (e, bad) ↦ rw bad denied
            ])
      ]

  behind_admin-Answers {ℓ} :
      {A : Type ℓ} (s : Service) (handler : Context → Handler A) (header : String)
      → is_listed ks 401 ≡ true
      → ((c : Context) → Answers ks (handler c))
      → (w : World)
      → is_listed ks (response_status (behind_admin s handler header background w).0) ≡ true
  behind_admin-Answers s handler header denied k w =
      elim (admin_middleware_passes s.admin_api_key s.admin_id (λ c. answered_by (handler c)) header
        background w) [
          | inl (_, passed) ↦ rw passed (k _ w)
          | inr (_, rejected) ↦ rw rejected denied
        ]

module _ (env : Env) (foreign : SenderIsForeign env) (blames : VerifierBlamesGoogle env)
    (parses : (id : Uuid) → env.parse_uuid (env.uuid_string id) ≡ some id) (s : Service) where
  -- If the errors of the sender name none of the service's, those of the verifier at most
  -- `ErrGoogleFailed`, and parsing an id undoes printing it: the status of every response is one that its
  -- operation declares, or the generic 500, or one of two that the declarations leave out, a 401 of a
  -- request for a code and a 409 of a confirm.
  pub serve_status-declared :
      (r : Request) (w : World) → is_listed (answers_of r) (serve_status env s r w) ≡ true
  unfolding serve_status post_verification post_resend post_confirm post_google get_session
      delete_session get_accounts post_clear_lockout get_analytics
  serve_status-declared (request_code params) w =
      let ks = answers_of (request_code params) in
      respond-Answers ks 201 (verification_output env) _
        (request_verification-Raises
          {names = invalid_phone ∷ unsupported_intent ∷ account_exists ∷ no_account ∷ not_found
            ∷ google_failed ∷ locked ∷ resend_cooldown ∷ send_failed ∷ []}
          env foreign refl refl refl refl refl refl refl s params refl refl)
        refl w
  serve_status-declared (resend_code path_id) w =
      let ks = answers_of (resend_code path_id) in
      with_id-Answers ks (env.parse_uuid path_id) (λ id. _) refl
        (λ id.
          respond-Answers ks 200 (λ v. record { resend_available_at = resend_available_at v }) _
            (resend_verification-Raises
              {names = not_found ∷ locked ∷ expired ∷ resend_cooldown ∷ send_failed ∷ []} env
              foreign refl refl refl refl id refl)
            refl)
        w
  serve_status-declared (confirm_code path_id code) w =
      let ks = answers_of (confirm_code path_id code) in
      with_id-Answers ks (env.parse_uuid path_id) (λ id. _) refl
        (λ id.
          respond-Answers ks 200 (confirm_output env) _
            (confirm_verification-Raises
              {names = not_found ∷ locked ∷ incorrect_code ∷ expired ∷ no_account ∷ account_exists
                ∷ []}
              env refl refl refl refl refl refl id code)
            refl)
        w
  serve_status-declared (exchange_google id_token role) w =
      let ks = answers_of (exchange_google id_token role) in
      respond-Answers ks 200 (google_output env) _
        (google_exchange-Raises env s id_token (role_given role) blames) refl w
  serve_status-declared (read_session authorization) w =
      get_session-status env authorization w parses
  serve_status-declared (sign_out authorization) w =
      let ks = answers_of (sign_out authorization) in
      behind_session-Answers ks env (λ _. delete_session env authorization) authorization refl
        (λ _.
          respond-Answers ks 204 (λ _. tt) _
            (revoke_session-Raises {names = []} env (trim_bearer authorization)) refl)
        w
  serve_status-declared (list_registered authorization phone limit offset) w =
      let ks = answers_of (list_registered authorization phone limit offset) in
      behind_admin-Answers ks s (λ _. get_accounts env phone limit offset) authorization refl
        (λ _.
          respond-Answers ks 200 (map (item_output env)) _
            (list_accounts-Raises {names = []} env phone limit offset) refl)
        w
  serve_status-declared (clear_lock authorization path_id) w =
      let ks = answers_of (clear_lock authorization path_id) in
      behind_admin-Answers ks s (λ c. post_clear_lockout env c path_id) authorization refl
        (λ c.
          with_id-Answers ks (env.parse_uuid path_id) (λ id. _) refl
            (λ id.
              respond-Answers ks 200 (λ cleared. cleared) _
                (clear_lockout-Raises {names = not_found ∷ []} env refl
                  (admin_principal_id c.admin_principal) id)
                refl))
        w
  serve_status-declared (read_analytics authorization rng) w =
      let ks = answers_of (read_analytics authorization rng) in
      behind_admin-Answers ks s (λ _. get_analytics env rng) authorization refl
        (λ _.
          respond-Answers ks 200 (analytics_output env) _
            (analytics-Raises {names = invalid_range ∷ []} env rng refl) refl)
        w
