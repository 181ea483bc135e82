-- ===== src/Auth/Service/Costs.antt =====
-- How many outside calls the use cases of internal/auth/service.go make.
pub mod Accounts
use passwordless_auth_servic.Prelude.{
  ℕ, ◌+◌, ◌≤◌, arith, suc, ◌∷◌, String, Bool, true, false, Option, none, some, ℤ,
}
use passwordless_auth_servic.Auth.Domain.{
  Time, Uuid, Role, Intent, Account, Verification, Session, GoogleIdentity,
}
use passwordless_auth_servic.Auth.Failure.{Error, Result, ok, err}
use passwordless_auth_servic.Platform.World.{Env, World}
use passwordless_auth_servic.Platform.Uow.Costs.{Costs, Costs-bind}
use passwordless_auth_servic.Postgres.Costs.{repository_costs}
use passwordless_auth_servic.Auth.Service.{
  Service, generate_otp, hash_code, send_code, new_session_token, settle_send,
}
use passwordless_auth_servic.Auth.Service.Request.{
  RequestVerificationParams, check_account, check_latest, redeem, pending_link, trip_send_cap,
  send_fresh, send_within_cap, from_latest, from_clock, request_for, request_verification,
}
use passwordless_auth_servic.Auth.Service.Confirm.{
  existing_account, create_account, resolve_account, settle, complete, reject_code, confirm_loaded,
  confirm_verification,
}
use passwordless_auth_servic.Auth.Service.Resend.{
  lock_resend, send_again, resend_loaded, resend_verification,
}
use passwordless_auth_servic.Auth.Service.Google.{
  sign_pending_google_link, resume_account, offer_link, exchange_for, google_exchange,
}
use passwordless_auth_servic.Auth.Service.Sessions.{
  touch, admit, validate_session, account_of, revoke_session,
}
use passwordless_auth_servic.Auth.Service.Admin.{
  list_accounts, emit_audit_event, unlock_and_record, clear_latest, clear_lockout, analytics,
}

module _ {n : ℕ} where
  check_account-Costs :
      (intent : Intent) (found : Result Account) → Costs n (check_account intent found)
  unfolding check_account
  check_account-Costs intent (ok a) = search repository_costs
  check_account-Costs intent (err e) = search repository_costs

  check_latest-Costs : (now : Time) (prior : Result Verification) → Costs n (check_latest now prior)
  unfolding check_latest
  check_latest-Costs now (ok v) = search repository_costs
  check_latest-Costs now (err e) = search repository_costs

module _ (env : Env) where
  generate_otp-Costs : {n : ℕ} → Costs (suc n) (generate_otp env)
  unfolding generate_otp
  generate_otp-Costs = search repository_costs

  hash_code-Costs : {n : ℕ} (code : String) → Costs (suc n) (hash_code env code)
  unfolding hash_code
  hash_code-Costs code = search repository_costs

  new_session_token-Costs : {n : ℕ} → Costs (suc n) (new_session_token env)
  unfolding new_session_token
  new_session_token-Costs = search repository_costs

  send_code-Costs : {n : ℕ} (phone code : String) → Costs (suc n) (send_code env phone code)
  unfolding send_code
  send_code-Costs {n} phone code = record { at = λ w. paid (env.send_code w.calls phone code) w }
    where
      paid :
          (o : Option Error) (w : World)
          → (settle_send env o
              (record w { calls = suc w.calls; outbox = (phone, code) ∷ w.outbox })).1.calls
            ≤ w.calls + suc n
      paid none w = omega (arith)
      paid (some e) w = omega (arith)

  ruleset shared_costs = (
    repository_costs, check_account-Costs, check_latest-Costs, generate_otp-Costs, hash_code-Costs,
    new_session_token-Costs, send_code-Costs,
  )

  redeem-Costs :
      {n : ℕ} (s : Service) (now : Time) (b : Bool) (token : Option String)
      → Costs n (redeem env s now b token)
  unfolding redeem
  redeem-Costs s now true (some token) = search shared_costs
  redeem-Costs s now true none = search shared_costs
  redeem-Costs s now false token = search shared_costs

  pending_link-Costs :
      {n : ℕ} (s : Service) (params : RequestVerificationParams) (now : Time)
      → Costs n (pending_link env s params now)
  unfolding pending_link
  pending_link-Costs s params now = search (shared_costs, redeem-Costs)

  trip_send_cap-Costs :
      {n : ℕ} (latest : Option Verification) (now : Time)
      → Costs (suc n) (trip_send_cap env latest now)
  unfolding trip_send_cap
  trip_send_cap-Costs none now = search shared_costs
  trip_send_cap-Costs (some v) now = search shared_costs

  send_fresh-Costs :
      (params : RequestVerificationParams) (normalized : String) (link : Option (String × String))
      (now : Time)
      → Costs 5 (send_fresh env params normalized link now)
  unfolding send_fresh
  send_fresh-Costs params normalized link now = search shared_costs depth 12

  send_within_cap-Costs :
      (params : RequestVerificationParams) (normalized : String) (link : Option (String × String))
      (latest : Option Verification) (now : Time)
      → Costs 6 (send_within_cap env params normalized link latest now)
  unfolding send_within_cap
  send_within_cap-Costs params normalized link latest now =
      search (shared_costs, trip_send_cap-Costs, send_fresh-Costs)

  from_latest-Costs :
      (params : RequestVerificationParams) (normalized : String) (link : Option (String × String))
      (now : Time) (prior : Result Verification)
      → Costs 6 (from_latest env params normalized link now prior)
  unfolding from_latest
  from_latest-Costs params normalized link now prior = search (shared_costs, send_within_cap-Costs)

  from_clock-Costs :
      (s : Service) (params : RequestVerificationParams) (normalized : String)
      → Costs 8 (from_clock env s params normalized)
  unfolding from_clock
  from_clock-Costs s params normalized =
      search (shared_costs, pending_link-Costs, from_latest-Costs)

  request_for-Costs :
      (s : Service) (params : RequestVerificationParams) (normalized : String)
      → Costs 9 (request_for env s params normalized)
  unfolding request_for
  request_for-Costs s params normalized = search (shared_costs, from_clock-Costs)

  pub request_verification-Costs :
      (s : Service) (params : RequestVerificationParams)
      → Costs 9 (request_verification env s params)
  unfolding request_verification
  request_verification-Costs s params = search (shared_costs, request_for-Costs)

  resolve_account-Costs : (v : Verification) (now : Time) → Costs 2 (resolve_account env v now)
  unfolding resolve_account existing_account create_account
  resolve_account-Costs v now = search shared_costs

  settle-Costs :
      (v : Verification) (now : Time) (session : Session) → Costs 4 (settle env v now session)
  unfolding settle
  settle-Costs v now session =
      Costs-bind 2 2 (resolve_account env v now) _ (resolve_account-Costs v now)
        (λ a. search shared_costs)

  complete-Costs : (v : Verification) (now : Time) → Costs 8 (complete env v now)
  unfolding complete
  complete-Costs v now = search (shared_costs, settle-Costs) depth 12

  reject_code-Costs :
      {n : ℕ} (v : Verification) (now : Time) → Costs (suc n) (reject_code env v now)
  unfolding reject_code
  reject_code-Costs v now = search shared_costs

  confirm_loaded-Costs :
      (v : Verification) (now : Time) (code : String) → Costs 8 (confirm_loaded env v now code)
  unfolding confirm_loaded
  confirm_loaded-Costs v now code = search (shared_costs, complete-Costs, reject_code-Costs)

  pub confirm_verification-Costs :
      (id : Uuid) (code : String) → Costs 10 (confirm_verification env id code)
  unfolding confirm_verification
  confirm_verification-Costs id code = search (shared_costs, confirm_loaded-Costs)

  resend_loaded-Costs : (v : Verification) (now : Time) → Costs 4 (resend_loaded env v now)
  unfolding resend_loaded lock_resend send_again
  resend_loaded-Costs v now = search shared_costs depth 12

  pub resend_verification-Costs : (id : Uuid) → Costs 6 (resend_verification env id)
  unfolding resend_verification
  resend_verification-Costs id = search (shared_costs, resend_loaded-Costs)

  resume_account-Costs : (a : Account) → Costs 6 (resume_account env a)
  unfolding resume_account
  resume_account-Costs a = search shared_costs depth 12

  exchange_for-Costs :
      (s : Service) (identity : GoogleIdentity) (found : Result Account)
      → Costs 6 (exchange_for env s identity found)
  unfolding exchange_for offer_link sign_pending_google_link
  exchange_for-Costs s identity (ok a) = search (shared_costs, resume_account-Costs)
  exchange_for-Costs s identity (err e) = search shared_costs

  pub google_exchange-Costs :
      (s : Service) (id_token : String) (role : Option Role)
      → Costs 8 (google_exchange env s id_token role)
  unfolding google_exchange
  google_exchange-Costs s id_token role = search (shared_costs, exchange_for-Costs)
