-- ===== src/Auth/Service/Keeps.antt =====
-- The use cases of internal/auth/service.go, and what they keep of the tables.
pub mod Accounts
use passwordless_auth_servic.Prelude.{suc, ◌∷◌, String, Bool, true, false, Option, none, some, ℤ}
use passwordless_auth_servic.Auth.Domain.{
  Time, Uuid, Role, Intent, Account, Verification, Session, GoogleIdentity,
}
use passwordless_auth_servic.Auth.Failure.{Result, ok, err}
use passwordless_auth_servic.Platform.World.{Db, Env}
use passwordless_auth_servic.Platform.Uow.Keeps.{Keeps}
use passwordless_auth_servic.Postgres.Keeps.{Stable, StableOutside, repository_rules}
use passwordless_auth_servic.Auth.Service.{
  Service, generate_otp, hash_code, send_code, new_session_token, settle_send,
}
use passwordless_auth_servic.Auth.Service.Request.{
  RequestVerificationParams, check_account, check_latest, redeem, pending_link, trip_send_cap,
  send_fresh, send_within_cap, from_latest, from_clock, request_for, request_verification,
}
use passwordless_auth_servic.Auth.Service.Confirm.{
  existing_account, create_account, resolve_account, settle, complete, reject_code, confirm_loaded,
  confirm_verification,
}
use passwordless_auth_servic.Auth.Service.Resend.{
  lock_resend, send_again, resend_loaded, resend_verification,
}
use passwordless_auth_servic.Auth.Service.Google.{
  sign_pending_google_link, resume_account, offer_link, exchange_for, google_exchange,
}
use passwordless_auth_servic.Auth.Service.Sessions.{
  touch, admit, validate_session, account_of, revoke_session,
}
use passwordless_auth_servic.Auth.Service.Admin.{
  list_accounts, emit_audit_event, unlock_and_record, clear_latest, clear_lockout, analytics,
}

module _ {κ} {P : Db → Type κ} where
  check_account-Keeps :
      (intent : Intent) (found : Result Account) → Keeps P (check_account intent found)
  unfolding check_account
  check_account-Keeps intent (ok a) = search repository_rules
  check_account-Keeps intent (err e) = search repository_rules

  check_latest-Keeps : (now : Time) (prior : Result Verification) → Keeps P (check_latest now prior)
  unfolding check_latest
  check_latest-Keeps now (ok v) = search repository_rules
  check_latest-Keeps now (err e) = search repository_rules

module _ {κ} {P : Db → Type κ} (outside : StableOutside P) (env : Env) where
  generate_otp-Keeps : Keeps P (generate_otp env)
  unfolding generate_otp
  generate_otp-Keeps = search repository_rules

  hash_code-Keeps : (code : String) → Keeps P (hash_code env code)
  unfolding hash_code
  hash_code-Keeps code = search repository_rules

  new_session_token-Keeps : Keeps P (new_session_token env)
  unfolding new_session_token
  new_session_token-Keeps = search repository_rules

  send_code-Keeps : (phone code : String) → Keeps P (send_code env phone code)
  unfolding send_code
  send_code-Keeps phone code = record {
    at = λ w h.
        elim (env.send_code w.calls phone code)
          as (λ o.
            P
              (settle_send env o
                (record w { calls = suc w.calls; outbox = (phone, code) ∷ w.outbox })).1.db) [
                  | none ↦ h
                  | some e ↦ h
                ];
  }

ruleset shared_rules = (
  repository_rules, check_account-Keeps, check_latest-Keeps, generate_otp-Keeps, hash_code-Keeps,
  new_session_token-Keeps, send_code-Keeps,
)

module _ {κ} {P : Db → Type κ} (stable : Stable P) (env : Env) where
  redeem-Keeps :
      (s : Service) (now : Time) (b : Bool) (token : Option String)
      → Keeps P (redeem env s now b token)
  unfolding redeem
  redeem-Keeps s now true (some token) = search shared_rules
  redeem-Keeps s now true none = search shared_rules
  redeem-Keeps s now false token = search shared_rules

  pending_link-Keeps :
      (s : Service) (params : RequestVerificationParams) (now : Time)
      → Keeps P (pending_link env s params now)
  unfolding pending_link
  pending_link-Keeps s params now = search (shared_rules, redeem-Keeps)

  trip_send_cap-Keeps :
      (latest : Option Verification) (now : Time) → Keeps P (trip_send_cap env latest now)
  unfolding trip_send_cap
  trip_send_cap-Keeps none now = search shared_rules
  trip_send_cap-Keeps (some v) now = search shared_rules

  send_fresh-Keeps :
      (params : RequestVerificationParams) (normalized : String) (link : Option (String × String))
      (now : Time)
      → Keeps P (send_fresh env params normalized link now)
  unfolding send_fresh
  send_fresh-Keeps params normalized link now = search shared_rules depth 12

  send_within_cap-Keeps :
      (params : RequestVerificationParams) (normalized : String) (link : Option (String × String))
      (latest : Option Verification) (now : Time)
      → Keeps P (send_within_cap env params normalized link latest now)
  unfolding send_within_cap
  send_within_cap-Keeps params normalized link latest now =
      search (shared_rules, trip_send_cap-Keeps, send_fresh-Keeps)

  from_latest-Keeps :
      (params : RequestVerificationParams) (normalized : String) (link : Option (String × String))
      (now : Time) (prior : Result Verification)
      → Keeps P (from_latest env params normalized link now prior)
  unfolding from_latest
  from_latest-Keeps params normalized link now prior = search (shared_rules, send_within_cap-Keeps)

  from_clock-Keeps :
      (s : Service) (params : RequestVerificationParams) (normalized : String)
      → Keeps P (from_clock env s params normalized)
  unfolding from_clock
  from_clock-Keeps s params normalized =
      search (shared_rules, pending_link-Keeps, from_latest-Keeps)

  request_for-Keeps :
      (s : Service) (params : RequestVerificationParams) (normalized : String)
      → Keeps P (request_for env s params normalized)
  unfolding request_for
  request_for-Keeps s params normalized = search (shared_rules, from_clock-Keeps)

  pub request_verification-Keeps :
      (s : Service) (params : RequestVerificationParams)
      → Keeps P (request_verification env s params)
  unfolding request_verification
  request_verification-Keeps s params = search (shared_rules, request_for-Keeps)

  resolve_account-Keeps : (v : Verification) (now : Time) → Keeps P (resolve_account env v now)
  unfolding resolve_account existing_account create_account
  resolve_account-Keeps v now = search shared_rules

  settle-Keeps :
      (v : Verification) (now : Time) (session : Session) → Keeps P (settle env v now session)
  unfolding settle
  settle-Keeps v now session = search (shared_rules, resolve_account-Keeps)

  complete-Keeps : (v : Verification) (now : Time) → Keeps P (complete env v now)
  unfolding complete
  complete-Keeps v now = search (shared_rules, settle-Keeps) depth 12

  reject_code-Keeps : (v : Verification) (now : Time) → Keeps P (reject_code env v now)
  unfolding reject_code
  reject_code-Keeps v now = search shared_rules

  confirm_loaded-Keeps :
      (v : Verification) (now : Time) (code : String) → Keeps P (confirm_loaded env v now code)
  unfolding confirm_loaded
  confirm_loaded-Keeps v now code = search (shared_rules, complete-Keeps, reject_code-Keeps)

  pub confirm_verification-Keeps :
      (id : Uuid) (code : String) → Keeps P (confirm_verification env id code)
  unfolding confirm_verification
  confirm_verification-Keeps id code = search (shared_rules, confirm_loaded-Keeps)

  resend_loaded-Keeps : (v : Verification) (now : Time) → Keeps P (resend_loaded env v now)
  unfolding resend_loaded lock_resend send_again
  resend_loaded-Keeps v now = search shared_rules depth 12

  pub resend_verification-Keeps : (id : Uuid) → Keeps P (resend_verification env id)
  unfolding resend_verification
  resend_verification-Keeps id = search (shared_rules, resend_loaded-Keeps)
