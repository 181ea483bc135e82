-- ===== src/Auth/Service/Costs/Accounts.antt =====
-- How many calls the use cases on sessions and for administrators of internal/auth/service.go make.
use passwordless_auth_servic.Prelude.{String, ℤ}
use passwordless_auth_servic.Auth.Domain.{Time, Uuid, Verification, Session}
use passwordless_auth_servic.Auth.Failure.{Result, ok, err}
use passwordless_auth_servic.Platform.World.{Env}
use passwordless_auth_servic.Platform.Uow.Costs.{Costs}
use passwordless_auth_servic.Auth.Service.Sessions.{
  touch, admit, validate_session, account_of, revoke_session,
}
use passwordless_auth_servic.Auth.Service.Admin.{
  list_accounts, emit_audit_event, unlock_and_record, clear_latest, clear_lockout, analytics,
}
use passwordless_auth_servic.Auth.Service.Costs.{shared_costs}

module _ (env : Env) where
  admit-Costs : (sess : Session) (now : Time) → Costs 2 (admit env sess now)
  unfolding admit touch
  admit-Costs sess now = search shared_costs depth 12

  pub validate_session-Costs : (token : String) → Costs 4 (validate_session env token)
  unfolding validate_session
  validate_session-Costs token = search (shared_costs, admit-Costs)

  pub account_of-Costs : (id : Uuid) → Costs 1 (account_of env id)
  unfolding account_of
  account_of-Costs id = search shared_costs

  pub revoke_session-Costs : (token : String) → Costs 2 (revoke_session env token)
  unfolding revoke_session
  revoke_session-Costs token = search shared_costs

  pub list_accounts-Costs :
      (phone_filter : String) (limit offset : ℤ)
      → Costs 3 (list_accounts env phone_filter limit offset)
  unfolding list_accounts
  list_accounts-Costs phone_filter limit offset = search shared_costs

  unlock_and_record-Costs :
      (actor : String) (id : Uuid) (v : Verification) → Costs 4 (unlock_and_record env actor id v)
  unfolding unlock_and_record emit_audit_event
  unlock_and_record-Costs actor id v = search shared_costs

  clear_latest-Costs :
      (actor : String) (id : Uuid) (now : Time) (latest : Result Verification)
      → Costs 6 (clear_latest env actor id now latest)
  unfolding clear_latest
  clear_latest-Costs actor id now (ok v) = search (shared_costs, unlock_and_record-Costs)
  clear_latest-Costs actor id now (err e) = search shared_costs

  pub clear_lockout-Costs : (actor : String) (id : Uuid) → Costs 9 (clear_lockout env actor id)
  unfolding clear_lockout
  clear_lockout-Costs actor id = search (shared_costs, clear_latest-Costs)

  pub analytics-Costs : (rng : String) → Costs 5 (analytics env rng)
  unfolding analytics
  analytics-Costs rng = search shared_costs depth 12
