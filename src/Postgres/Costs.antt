-- ===== src/Postgres/Costs.antt =====
-- How many calls the repositories of internal/auth/postgres/repository.go make: one each.
use passwordless_auth_servic.Prelude.{ℕ, suc, String, List, [], ◌∷◌}
use passwordless_auth_servic.Auth.Domain.{
  Time, Uuid, Status, Account, Verification, Session, AuditEvent,
}
use passwordless_auth_servic.Auth.Failure.{Result, ok, err}
use passwordless_auth_servic.Platform.World.{Env}
use passwordless_auth_servic.Platform.Uow.Costs.{Costs, costs_rules}
use passwordless_auth_servic.Postgres.Accounts
use passwordless_auth_servic.Postgres.Accounts.{translate_create}
use passwordless_auth_servic.Postgres.Verifications
use passwordless_auth_servic.Postgres.Verifications.{require_rows}
use passwordless_auth_servic.Postgres.Sessions

module _ {n : ℕ} where
  require_rows-Costs : (rows : ℕ) → Costs n (require_rows rows)
  require_rows-Costs rows = search costs_rules

  translate_create-Costs : (r : Result ℕ) → Costs n (translate_create r)
  translate_create-Costs (ok rows) = search costs_rules
  translate_create-Costs (err e) = search costs_rules

module _ {n : ℕ} (env : Env) where
  pub find_by_phone-Costs : (phone : String) → Costs (suc n) (Accounts.find_by_phone env phone)
  unfolding Accounts.find_by_phone
  find_by_phone-Costs phone = search costs_rules

  pub find_by_id-Costs : (id : Uuid) → Costs (suc n) (Accounts.find_by_id env id)
  unfolding Accounts.find_by_id
  find_by_id-Costs id = search costs_rules

  pub find_by_google_subject-Costs :
      (subject : String) → Costs (suc n) (Accounts.find_by_google_subject env subject)
  unfolding Accounts.find_by_google_subject
  find_by_google_subject-Costs subject = search costs_rules

  pub list-Costs :
      (phone_filter : String) (limit : ℕ) (offset : ℕ)
      → Costs (suc n) (Accounts.list env phone_filter limit offset)
  unfolding Accounts.list
  list-Costs phone_filter limit offset = search costs_rules

  pub count_created_since-Costs :
      (since : Time) → Costs (suc n) (Accounts.count_created_since env since)
  unfolding Accounts.count_created_since
  count_created_since-Costs since = search costs_rules

  pub create_account-Costs : (a : Account) → Costs (suc n) (Accounts.create env a)
  unfolding Accounts.create
  create_account-Costs a = search (costs_rules, translate_create-Costs)

  pub create_verification-Costs : (v : Verification) → Costs (suc n) (Verifications.create env v)
  unfolding Verifications.create
  create_verification-Costs v = search costs_rules

  pub get-Costs : (id : Uuid) → Costs (suc n) (Verifications.get env id)
  unfolding Verifications.get
  get-Costs id = search costs_rules

  pub find_latest_by_phone-Costs :
      (phone : String) → Costs (suc n) (Verifications.find_latest_by_phone env phone)
  unfolding Verifications.find_latest_by_phone
  find_latest_by_phone-Costs phone = search costs_rules

  pub locked_phones-Costs :
      (phones : List String) (now : Time)
      → Costs (suc n) (Verifications.locked_phones env phones now)
  unfolding Verifications.locked_phones
  locked_phones-Costs [] now = search costs_rules
  locked_phones-Costs (p ∷ ps) now = search costs_rules

  pub count_sends_since-Costs :
      (phone : String) (since : Time)
      → Costs (suc n) (Verifications.count_sends_since env phone since)
  unfolding Verifications.count_sends_since
  count_sends_since-Costs phone since = search costs_rules

  pub sum_failed_attempts_since-Costs :
      (since : Time) → Costs (suc n) (Verifications.sum_failed_attempts_since env since)
  unfolding Verifications.sum_failed_attempts_since
  sum_failed_attempts_since-Costs since = search costs_rules

  pub count_by_status_since-Costs :
      (status : Status) (since : Time)
      → Costs (suc n) (Verifications.count_by_status_since env status since)
  unfolding Verifications.count_by_status_since
  count_by_status_since-Costs status since = search costs_rules

  pub save_verification-Costs : (v : Verification) → Costs (suc n) (Verifications.save env v)
  unfolding Verifications.save
  save_verification-Costs v = search (costs_rules, require_rows-Costs)

  pub create_session-Costs : (s : Session) → Costs (suc n) (Sessions.create env s)
  unfolding Sessions.create
  create_session-Costs s = search costs_rules

  pub find_by_token_hash-Costs :
      (token_hash : String) → Costs (suc n) (Sessions.find_by_token_hash env token_hash)
  unfolding Sessions.find_by_token_hash
  find_by_token_hash-Costs token_hash = search costs_rules

  pub save_session-Costs : (s : Session) → Costs (suc n) (Sessions.save env s)
  unfolding Sessions.save
  save_session-Costs s = search (costs_rules, require_rows-Costs)

  pub revoke_by_token_hash-Costs :
      (token_hash : String) (revoked_at : Time)
      → Costs (suc n) (Sessions.revoke_by_token_hash env token_hash revoked_at)
  unfolding Sessions.revoke_by_token_hash
  revoke_by_token_hash-Costs token_hash revoked_at = search costs_rules

  pub create_audit_event-Costs :
      (e : AuditEvent) → Costs (suc n) (Sessions.create_audit_event env e)
  unfolding Sessions.create_audit_event
  create_audit_event-Costs e = search costs_rules

pub ruleset repository_costs = (
  costs_rules, find_by_phone-Costs, find_by_id-Costs, find_by_google_subject-Costs, list-Costs,
  count_created_since-Costs, create_account-Costs, create_verification-Costs, get-Costs,
  find_latest_by_phone-Costs, locked_phones-Costs, count_sends_since-Costs,
  sum_failed_attempts_since-Costs, count_by_status_since-Costs, save_verification-Costs,
  create_session-Costs, find_by_token_hash-Costs, save_session-Costs, revoke_by_token_hash-Costs,
  create_audit_event-Costs,
)
