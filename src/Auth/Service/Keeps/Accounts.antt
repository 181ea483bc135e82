-- ===== src/Auth/Service/Keeps/Accounts.antt =====
-- What the use cases on accounts and sessions, the exchange of a Google token among them, and those
-- for administrators of internal/auth/service.go keep of the tables.
use passwordless_auth_servic.Prelude.{String, Option, ℤ}
use passwordless_auth_servic.Auth.Domain.{
  Time, Uuid, Role, Account, Verification, Session, GoogleIdentity,
}
use passwordless_auth_servic.Auth.Failure.{Result, ok, err}
use passwordless_auth_servic.Platform.World.{Db, Env}
use passwordless_auth_servic.Platform.Uow.Keeps.{Keeps}
use passwordless_auth_servic.Postgres.Keeps.{Stable, StableOutside}
use passwordless_auth_servic.Auth.Service.Sessions.{
  touch, admit, validate_session, account_of, revoke_session,
}
use passwordless_auth_servic.Auth.Service.Admin.{
  list_accounts, emit_audit_event, unlock_and_record, clear_latest, clear_lockout, analytics,
}
use passwordless_auth_servic.Auth.Service.{Service}
use passwordless_auth_servic.Auth.Service.Google.{
  sign_pending_google_link, resume_account, offer_link, exchange_for, google_exchange,
}
use passwordless_auth_servic.Auth.Service.Keeps.{shared_rules}

module _ {κ} {P : Db → Type κ} (outside : StableOutside P) (env : Env) where
  admit-Keeps : (sess : Session) (now : Time) → Keeps P (admit env sess now)
  unfolding admit touch
  admit-Keeps sess now = search shared_rules depth 12

  pub validate_session-Keeps : (token : String) → Keeps P (validate_session env token)
  unfolding validate_session
  validate_session-Keeps token = search (shared_rules, admit-Keeps)

  pub account_of-Keeps : (id : Uuid) → Keeps P (account_of env id)
  unfolding account_of
  account_of-Keeps id = search shared_rules

  pub revoke_session-Keeps : (token : String) → Keeps P (revoke_session env token)
  unfolding revoke_session
  revoke_session-Keeps token = search shared_rules

  pub list_accounts-Keeps :
      (phone_filter : String) (limit offset : ℤ)
      → Keeps P (list_accounts env phone_filter limit offset)
  unfolding list_accounts
  list_accounts-Keeps phone_filter limit offset = search shared_rules

  pub analytics-Keeps : (rng : String) → Keeps P (analytics env rng)
  unfolding analytics
  analytics-Keeps rng = search shared_rules depth 12

  resume_account-Keeps : (a : Account) → Keeps P (resume_account env a)
  unfolding resume_account
  resume_account-Keeps a = search shared_rules depth 12

  exchange_for-Keeps :
      (s : Service) (identity : GoogleIdentity) (found : Result Account)
      → Keeps P (exchange_for env s identity found)
  unfolding exchange_for offer_link sign_pending_google_link
  exchange_for-Keeps s identity (ok a) = search (shared_rules, resume_account-Keeps)
  exchange_for-Keeps s identity (err e) = search shared_rules

  pub google_exchange-Keeps :
      (s : Service) (id_token : String) (role : Option Role)
      → Keeps P (google_exchange env s id_token role)
  unfolding google_exchange
  google_exchange-Keeps s id_token role = search (shared_rules, exchange_for-Keeps)

module _ {κ} {P : Db → Type κ} (stable : Stable P) (env : Env) where
  unlock_and_record-Keeps :
      (actor : String) (id : Uuid) (v : Verification) → Keeps P (unlock_and_record env actor id v)
  unfolding unlock_and_record emit_audit_event
  unlock_and_record-Keeps actor id v = search shared_rules

  clear_latest-Keeps :
      (actor : String) (id : Uuid) (now : Time) (latest : Result Verification)
      → Keeps P (clear_latest env actor id now latest)
  unfolding clear_latest
  clear_latest-Keeps actor id now (ok v) = search (shared_rules, unlock_and_record-Keeps)
  clear_latest-Keeps actor id now (err e) = search shared_rules

  pub clear_lockout-Keeps : (actor : String) (id : Uuid) → Keeps P (clear_lockout env actor id)
  unfolding clear_lockout
  clear_lockout-Keeps actor id = search (shared_rules, clear_latest-Keeps)
