-- ===== src/Auth/Service.antt =====
-- internal/auth/service.go: what the use cases share. Each use case is a child module.
pub mod Request
pub mod Confirm
pub mod Google
pub mod Resend
pub mod Sessions
pub mod Admin
pub mod Keeps
pub mod Life
pub mod Raises
pub mod Costs
pub mod Codes
use Prim.Native.Nat.{◌/◌, ◌%◌}
use Prim.Native.Char.{Char}
use Prim.Native.String.{[], ◌∷◌}
use passwordless_auth_servic.Prelude.{ℕ, zero, suc, ◌+◌, String, Option, none, some, if◌then◌else◌}
use passwordless_auth_servic.Prelude
use passwordless_auth_servic.Auth.Domain.{
  Time, Uuid, Verification, Session, lockout_duration, session_idle_window,
}
use passwordless_auth_servic.Auth.Failure.{
  Error, Result, ok, err, sentinel, not_found, send_failed, opaque, wrapped, joined, errors_is,
}
use passwordless_auth_servic.Platform.World.{
  Env, World, Exec, ◌>>=◌, pure, raise, observe, on_error, or_raise,
}

-- The fields of `Service` that are no ports: the ports are in `Env`.
pub record Service : Type 0 where
  pub link_secret : String
  pub admin_api_key : String
  pub admin_id : String

-- `Service.WithAdmin`
unfoldable pub with_admin : Service → String → String → Service
with_admin s api_key admin_id = record s { admin_api_key = api_key; admin_id = admin_id }

-- `lockedUntil`
unfoldable pub locked_until : Verification → Time → Time
locked_until v now = elim v.locked_until [ some t ↦ t | none ↦ now + lockout_duration ]

-- `if errors.Is(err, ErrNotFound) { return ErrNotFound }`, and else a wrapped error
unfoldable pub keep_not_found : String → Error → Error
unfolding errors_is
keep_not_found op e = if errors_is e not_found then sentinel not_found else wrapped op e

abbrev digit : ℕ → Char
digit zero = "0"
digit (suc zero) = "1"
digit (suc (suc zero)) = "2"
digit (suc (suc (suc zero))) = "3"
digit (suc (suc (suc (suc zero)))) = "4"
digit (suc (suc (suc (suc (suc zero))))) = "5"
digit (suc (suc (suc (suc (suc (suc zero)))))) = "6"
digit (suc (suc (suc (suc (suc (suc (suc zero))))))) = "7"
digit (suc (suc (suc (suc (suc (suc (suc (suc zero)))))))) = "8"
digit (suc (suc (suc (suc (suc (suc (suc (suc (suc n))))))))) = "9"

-- `fmt.Sprintf("%0*d", OTPDigits, n)` below a million
unfoldable pub format_otp : ℕ → String
format_otp n =
    digit (n / 100_000 % 10)
    ∷ digit (n / 10_000 % 10)
    ∷ digit (n / 1_000 % 10)
    ∷ digit (n / 100 % 10)
    ∷ digit (n / 10 % 10)
    ∷ digit (n % 10)
    ∷ []

-- A session that `newSessionToken` and the caller make, before it has an account.
unfoldable pub fresh_session : Uuid → String → Time → Session
fresh_session id token_hash now = record {
  id = id;
  account_id = 0;
  token_hash = token_hash;
  device_label = none;
  created_at = now;
  last_active_at = now;
  expires_at = now + session_idle_window;
  revoked_at = none;
}

module _ (env : Env) where
  unfoldable pub generate_otp : Exec String
  unfolding format_otp
  generate_otp = do
    drawn ← observe env.random_int
    n ← or_raise (wrapped "auth: generate otp" (opaque "rand")) drawn
    pure (format_otp n)

  unfoldable pub hash_code : String → Exec String
  hash_code code = do
    hashed ← observe (λ k. env.generate_from_password k code)
    or_raise (wrapped "auth: hash code" (opaque "bcrypt")) hashed

  unfoldable pub hash_token : String → String
  hash_token token = env.sum256 token

  unfoldable pub new_session_token : Exec (String × String)
  unfolding hash_token
  new_session_token = do
    drawn ← observe env.random_token
    token ← or_raise (wrapped "auth: generate session token" (opaque "rand")) drawn
    pure (token, hash_token token)

  abbrev settle_send : Option Error → World → Result (Unit {0}) × World
  settle_send none w = (ok tt, w)
  settle_send (some e) w = (err (joined (sentinel send_failed) e), w)

  -- `SendCode`, and the wrapping of its error by both callers
  unfoldable pub send_code : String → String → Exec (Unit {0})
  send_code phone code w =
      settle_send (env.send_code w.calls phone code)
        (record w { calls = suc w.calls; outbox = Prelude.◌∷◌ (phone, code) w.outbox })
