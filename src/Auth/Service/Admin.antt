-- ===== src/Auth/Service/Admin.antt =====
-- The admin use cases of internal/auth/service.go: `ListAccounts`, `ClearLockout`, `Analytics` and
-- what they call.
pub mod Figures
pub mod Relocking
pub mod Listing
pub mod Clearing
use passwordless_auth_servic.Prelude.{
  ℕ, zero, suc, ◌+◌, ◌-◌, ◌*◌, String, Bool, true, false, ltb, str_eq, Option, none, some, List, [],
  ◌∷◌, map, not, lookup_or, if◌then◌else◌, ℤ, pos, negsuc,
}
use passwordless_auth_servic.Auth.Domain.{
  Time, Uuid, Role, Account, Verification, AuditEvent, pending, verified, locked, is_nil, hour,
  signup_method_phone, signup_method_google, audit_action_clear_lockout,
}
use passwordless_auth_servic.Auth.Failure.{
  Error, Result, ok, err, sentinel, invalid_range, not_found, wrapped, errors_is,
}
use passwordless_auth_servic.Auth.Verification.{is_locked}
use passwordless_auth_servic.Platform.World.{
  Env, Exec, ◌>>=◌, ◌>>◌, pure, raise, attempt, lift, on_error, observe,
}
use passwordless_auth_servic.Platform.Uow.{in_tx}
use passwordless_auth_servic.Postgres.Accounts
use passwordless_auth_servic.Postgres.Verifications
use passwordless_auth_servic.Postgres.Sessions
use passwordless_auth_servic.Auth.Service.{keep_not_found}

abbrev pub default_account_list_limit : ℕ
default_account_list_limit = 50

pub record AccountListItem : Type 0 where
  pub id : Uuid
  pub role : Role
  pub phone : String
  pub google_linked : Bool
  pub signup_method : String
  pub created_at : Time
  pub lockout_active : Bool

-- `signupMethod`
unfoldable pub signup_method : Option String → String
signup_method none = signup_method_phone
signup_method (some _) = signup_method_google

-- `if limit <= 0 { limit = defaultAccountListLimit }`
unfoldable pub effective_limit : ℤ → ℕ
effective_limit (pos zero) = default_account_list_limit
effective_limit (pos (suc n)) = suc n
effective_limit (negsuc _) = default_account_list_limit

-- `if offset < 0 { offset = 0 }`
unfoldable pub effective_offset : ℤ → ℕ
effective_offset (pos n) = n
effective_offset (negsuc _) = 0

unfoldable pub list_item : List (String × Bool) → Account → AccountListItem
unfolding signup_method
list_item lockouts a = record {
  id = a.id;
  role = a.role;
  phone = a.phone;
  google_linked = not (is_nil a.google_subject);
  signup_method = signup_method a.google_subject;
  created_at = a.created_at;
  lockout_active = lookup_or false a.phone lockouts;
}

-- The row after an administrator's unlock.
unfoldable pub unlock : Verification → Verification
unlock v = record v { locked_until = none; sends_in_window = 0; status = pending }

-- A float64 quotient of two counts, kept exact: its rounding is not modelled.
pub record Quotient : Type 0 where
  pub numerator : ℕ
  pub denominator : ℕ

pub record AnalyticsResult : Type 0 where
  pub signups_by_method : List (String × ℕ)
  pub verification_failure_rate : Quotient
  pub lockout_count : ℕ

-- `rangeWindow`
unfoldable pub range_window : String → Result ℕ
range_window rng =
    if str_eq rng "24h"
    then ok (24 * hour)
    else if str_eq rng "7d"
    then ok (7 * 24 * hour)
    else if str_eq rng "30d"
    then ok (30 * 24 * hour)
    else err (sentinel invalid_range)

-- The rate is 0 where nothing was counted.
unfoldable pub failure_rate : ℕ → ℕ → Quotient
failure_rate failed confirmed =
    if ltb 0 (failed + confirmed)
    then record { numerator = failed; denominator = failed + confirmed }
    else record { numerator = 0; denominator = 1 }

module _ (env : Env) where
  unfoldable pub list_accounts : String → ℤ → ℤ → Exec (List AccountListItem)
  unfolding effective_limit effective_offset
  list_accounts phone_filter limit offset = do
    accounts ←
        on_error (wrapped "auth: list accounts")
          (Accounts.list env phone_filter (effective_limit limit) (effective_offset offset))
    now ← observe env.now
    lockouts ←
        on_error (wrapped "auth: list accounts: locked phones")
          (Verifications.locked_phones env (map (λ a. a.phone) accounts) now)
    pure (map (list_item lockouts) accounts)

  unfoldable pub emit_audit_event :
      String → String → Uuid → List (String × String) → Exec (Unit {0})
  emit_audit_event actor_admin_id action target_account_id metadata = do
    id ← observe env.new_uuid
    now ← observe env.now
    on_error (wrapped "auth: emit audit event") (
        Sessions.create_audit_event env (record {
          id = id;
          actor_admin_id = actor_admin_id;
          action = action;
          target_account_id = target_account_id;
          created_at = now;
          metadata = metadata;
        }))

  -- The body of the transaction of `ClearLockout`.
  unfoldable pub unlock_and_record : String → Uuid → Verification → Exec (Unit {0})
  unlock_and_record actor_admin_id account_id v = do
    on_error (wrapped "auth: clear lockout: update verification")
        (Verifications.save env (unlock v))
    emit_audit_event actor_admin_id audit_action_clear_lockout account_id
        (("verification_id", env.uuid_string v.id) ∷ [])

  -- What follows the lookup of the phone's latest challenge.
  unfoldable pub clear_latest : String → Uuid → Time → Result Verification → Exec Bool
  unfolding errors_is
  clear_latest actor_admin_id account_id now (ok v) =
      if not (is_locked v now)
      then pure false
      else in_tx env (unlock_and_record actor_admin_id account_id v) >>= λ _. pure true
  clear_latest actor_admin_id account_id now (err e) =
      if errors_is e not_found
      then pure false
      else raise (wrapped "auth: clear lockout: find latest verification" e)

  unfoldable pub clear_lockout : String → Uuid → Exec Bool
  unfolding keep_not_found
  clear_lockout actor_admin_id account_id = do
    account ←
        on_error (keep_not_found "auth: clear lockout: find account")
          (Accounts.find_by_id env account_id)
    now ← observe env.now
    latest ← attempt (Verifications.find_latest_by_phone env account.phone)
    clear_latest actor_admin_id account_id now latest

  unfoldable pub analytics : String → Exec AnalyticsResult
  unfolding range_window failure_rate
  analytics rng = do
    window ← lift (range_window rng)
    now ← observe env.now
    let since = now - window
    signups ←
        on_error (wrapped "auth: analytics: count accounts")
          (Accounts.count_created_since env since)
    failed ←
        on_error (wrapped "auth: analytics: sum failed attempts")
          (Verifications.sum_failed_attempts_since env since)
    confirmed ←
        on_error (wrapped "auth: analytics: count verified")
          (Verifications.count_by_status_since env verified since)
    lockouts ←
        on_error (wrapped "auth: analytics: count locked")
          (Verifications.count_by_status_since env locked since)
    pure (record {
      signups_by_method = (signup_method_phone, signups.0) ∷ (signup_method_google, signups.1) ∷ [];
      verification_failure_rate = failure_rate failed confirmed;
      lockout_count = lockouts;
    })
