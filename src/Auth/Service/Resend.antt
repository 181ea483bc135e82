-- ===== src/Auth/Service/Resend.antt =====
-- `ResendVerification` of internal/auth/service.go.
pub mod Outcomes
use passwordless_auth_servic.Prelude.{String, Bool, not, ◌||◌, if◌then◌else◌}
use passwordless_auth_servic.Auth.Domain.{Time, Uuid, Verification, verified, status_eq}
use passwordless_auth_servic.Auth.Failure.{
  sentinel, locked_error, expired, resend_cooldown, wrapped,
}
use passwordless_auth_servic.Auth.Verification.{
  is_locked, is_expired, resend_ready, send_cap_reached, lock, register_send,
}
use passwordless_auth_servic.Platform.World.{Env, Exec, ◌>>=◌, ◌>>◌, pure, raise, on_error, observe}
use passwordless_auth_servic.Postgres.Verifications
use passwordless_auth_servic.Auth.Service.{
  locked_until, keep_not_found, generate_otp, hash_code, send_code,
}

module _ (env : Env) where
  -- The branch on a reached cap.
  unfoldable pub lock_resend : Verification → Time → Exec Verification
  unfolding locked_until
  lock_resend v now = do
    on_error (wrapped "auth: resend verification: update") (Verifications.save env (lock v now))
    raise (locked_error (locked_until (lock v now) now))

  -- From `generateOTP` on.
  unfoldable pub send_again : Verification → Time → Exec Verification
  send_again v now = do
    code ← generate_otp env
    code_hash ← hash_code env code
    send_code env v.phone code
    let v' = register_send (record v { code_hash = code_hash }) now
    on_error (wrapped "auth: resend verification: update") (Verifications.save env v')
    pure v'

  -- From the guards on.
  unfoldable pub resend_loaded : Verification → Time → Exec Verification
  unfolding locked_until
  resend_loaded v now =
      if is_locked v now
      then raise (locked_error (locked_until v now))
      else if status_eq v.status verified || is_expired v now
      then raise (sentinel expired)
      else if not (resend_ready v now)
      then raise (sentinel resend_cooldown)
      else if send_cap_reached v
      then lock_resend v now
      else send_again v now

  unfoldable pub resend_verification : Uuid → Exec Verification
  unfolding keep_not_found
  resend_verification id = do
    v ← on_error (keep_not_found "auth: resend verification: get") (Verifications.get env id)
    now ← observe env.now
    resend_loaded v now
