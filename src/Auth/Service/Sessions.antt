-- ===== src/Auth/Service/Sessions.antt =====
-- `ValidateSession`, `Account` and `RevokeSession` of internal/auth/service.go.
pub mod Outcomes
pub mod Progress
pub mod Gate
use passwordless_auth_servic.Prelude.{String, Bool, not, if◌then◌else◌}
use passwordless_auth_servic.Auth.Domain.{Time, Uuid, Account, Session}
use passwordless_auth_servic.Auth.Failure.{
  Error, sentinel, no_session, not_found, wrapped, errors_is,
}
use passwordless_auth_servic.Auth.Session.{is_valid, extend, needs_extension}
use passwordless_auth_servic.Platform.World.{Env, Exec, ◌>>=◌, ◌>>◌, pure, raise, on_error, observe}
use passwordless_auth_servic.Platform.Access.{Principal}
use passwordless_auth_servic.Postgres.Accounts
use passwordless_auth_servic.Postgres.Sessions
use passwordless_auth_servic.Auth.Service.{keep_not_found, hash_token}

unfoldable pub session_missing : Error → Error
unfolding errors_is
session_missing e =
    if errors_is e not_found then sentinel no_session else wrapped "auth: validate session: find" e

module _ (env : Env) where
  -- The throttled extension.
  unfoldable pub touch : Session → Time → Exec (Unit {0})
  touch sess now =
      if needs_extension sess now
      then on_error (wrapped "auth: validate session: extend") (Sessions.save env (extend sess now))
      else pure tt

  -- From the check of the session on.
  unfoldable pub admit : Session → Time → Exec Principal
  admit sess now = if not (is_valid sess now) then raise (sentinel no_session) else do
    account ←
        on_error (wrapped "auth: validate session: find account")
          (Accounts.find_by_id env sess.account_id)
    touch sess now
    pure (record { account_id = env.uuid_string account.id; role = account.role })

  unfoldable pub validate_session : String → Exec Principal
  unfolding session_missing hash_token
  validate_session token = do
    sess ← on_error session_missing (Sessions.find_by_token_hash env (hash_token env token))
    now ← observe env.now
    admit sess now

  -- `Service.Account`
  unfoldable pub account_of : Uuid → Exec Account
  unfolding keep_not_found
  account_of id = on_error (keep_not_found "auth: account") (Accounts.find_by_id env id)

  -- The hash is taken first and then the clock is read, as Go evaluates the arguments.
  unfoldable pub revoke_session : String → Exec (Unit {0})
  unfolding hash_token
  revoke_session token = do
    now ← observe env.now
    on_error (wrapped "auth: revoke session")
        (Sessions.revoke_by_token_hash env (hash_token env token) now)
