-- ===== src/Auth/Service/Confirm.antt =====
-- `ConfirmVerification` of internal/auth/service.go.
pub mod Effect
pub mod Outcomes
pub mod Once
pub mod Rejection
pub mod Overlap
pub mod Twice
pub mod Progress
pub mod Admitted
use passwordless_auth_servic.Prelude.{String, Bool, Option, none, some, if◌then◌else◌}
use passwordless_auth_servic.Auth.Domain.{
  Time, Uuid, Account, Verification, Session, is_signin, verified, status_eq, is_nil, route_home,
  route_onboarding,
}
use passwordless_auth_servic.Auth.Failure.{
  Error, Result, sentinel, locked_error, incorrect_code_error, account_exists, no_account,
  not_found, incorrect_code, expired, wrapped, errors_is,
}
use passwordless_auth_servic.Auth.Verification.{
  is_locked, is_expired, register_failure, remaining_attempts, mark_verified,
}
use passwordless_auth_servic.Platform.World.{Env, Exec, ◌>>=◌, ◌>>◌, pure, raise, on_error, observe}
use passwordless_auth_servic.Platform.Uow.{in_tx}
use passwordless_auth_servic.Postgres.Accounts
use passwordless_auth_servic.Postgres.Verifications
use passwordless_auth_servic.Postgres.Sessions
use passwordless_auth_servic.Auth.Service.{
  locked_until, keep_not_found, fresh_session, new_session_token,
}

pub record ConfirmResult : Type 0 where
  pub session_token : String
  pub account : Account
  pub route : String

-- The account of a confirmed signup challenge. The email is linked only with a subject.
unfoldable pub new_account : Verification → Uuid → Time → Account
new_account v id now = record {
  id = id;
  role = v.pending_role;
  phone = v.phone;
  google_subject = v.pending_google_subject;
  google_email = if is_nil v.pending_google_subject then none else v.pending_google_email;
  preferred_language = v.pending_language;
  created_at = now;
}

unfoldable pub route_of : Verification → String
route_of v = if is_signin v.intent then route_home else route_onboarding

unfoldable pub missing_account : Error → Error
unfolding errors_is
missing_account e =
    if errors_is e not_found
    then wrapped "auth: confirm verification: signin account missing" (sentinel no_account)
    else wrapped "auth: confirm verification: find account" e

unfoldable pub duplicate_account : Error → Error
unfolding errors_is
duplicate_account e =
    if errors_is e account_exists
    then sentinel account_exists
    else wrapped "auth: confirm verification: create account" e

-- What is returned for an error of the transaction.
unfoldable pub confirm_failure : Error → Error
unfolding errors_is
confirm_failure e =
    if errors_is e account_exists
    then sentinel account_exists
    else if errors_is e no_account
    then sentinel no_account
    else e

module _ (env : Env) where
  unfoldable pub existing_account : Verification → Exec Account
  unfolding missing_account
  existing_account v = on_error missing_account (Accounts.find_by_phone env v.phone)

  unfoldable pub create_account : Verification → Time → Exec Account
  unfolding duplicate_account
  create_account v now = do
    id ← observe env.new_uuid
    let account = new_account v id now
    on_error duplicate_account (Accounts.create env account)
    pure account

  unfoldable pub resolve_account : Verification → Time → Exec Account
  unfolding existing_account create_account
  resolve_account v now = if is_signin v.intent then existing_account v else create_account v now

  -- The body of the transaction.
  unfoldable pub settle : Verification → Time → Session → Exec Account
  settle v now session = do
    account ← resolve_account v now
    on_error (wrapped "auth: confirm verification: create session")
        (Sessions.create env (record session { account_id = account.id }))
    on_error (wrapped "auth: confirm verification: update")
        (Verifications.save env (mark_verified v))
    pure account

  -- From the correct code on.
  unfoldable pub complete : Verification → Time → Exec ConfirmResult
  unfolding confirm_failure
  complete v now = do
    minted ← new_session_token env
    id ← observe env.new_uuid
    account ← on_error confirm_failure (in_tx env (settle v now (fresh_session id minted.1 now)))
    pure (record { session_token = minted.0; account = account; route = route_of v })

  -- The branch on a wrong code.
  unfoldable pub reject_code : Verification → Time → Exec ConfirmResult
  unfolding locked_until
  reject_code v now =
      let (v', locked) = register_failure v now in
      on_error (wrapped "auth: confirm verification: update") (Verifications.save env v')
      >> (if locked
          then raise (locked_error (locked_until v' now))
          else raise (incorrect_code_error (remaining_attempts v')))

  -- From the guards on.
  unfoldable pub confirm_loaded : Verification → Time → String → Exec ConfirmResult
  unfolding locked_until
  confirm_loaded v now code =
      if is_locked v now
      then raise (locked_error (locked_until v now))
      else if status_eq v.status verified
      then raise (sentinel incorrect_code)
      else if is_expired v now
      then raise (sentinel expired)
      else if env.compare_hash_and_password v.code_hash code
      then complete v now
      else reject_code v now

  unfoldable pub confirm_verification : Uuid → String → Exec ConfirmResult
  unfolding keep_not_found
  confirm_verification id code = do
    v ← on_error (keep_not_found "auth: confirm verification: get") (Verifications.get env id)
    now ← observe env.now
    confirm_loaded v now code
