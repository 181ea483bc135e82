-- ===== src/Auth/Service/Request.antt =====
-- `RequestVerification` of internal/auth/service.go, and the pending-link check of
-- internal/auth/google.go that it makes.
pub mod Sending
pub mod Guards
pub mod Capping
pub mod Outcomes
pub mod Progress
use passwordless_auth_servic.Prelude.{
  ℕ, ◌-◌, ◌+◌, String, Bool, true, false, not, ◌&&◌, Option, none, some, leb, if◌then◌else◌,
}
use passwordless_auth_servic.Auth.Domain.{
  Time, Uuid, Role, Language, Intent, Account, Verification, is_signup, is_signin, intent_valid,
  pending, is_nil, max_sends_per_window, send_cap_window, lockout_duration,
}
use passwordless_auth_servic.Auth.Failure.{
  Error, Result, ok, err, sentinel, locked_error, account_exists, no_account, not_found,
  resend_cooldown, unsupported_intent, google_failed, opaque, wrapped, joined, errors_is,
}
use passwordless_auth_servic.Auth.Phone.{normalize_phone}
use passwordless_auth_servic.Auth.Verification.{lock, is_locked, resend_ready, register_send}
use passwordless_auth_servic.Platform.World.{
  Env, LinkClaims, Token, Exec, ◌>>=◌, ◌>>◌, pure, raise, attempt, lift, on_error, observe,
  or_raise,
}
use passwordless_auth_servic.Postgres.Accounts
use passwordless_auth_servic.Postgres.Verifications
use passwordless_auth_servic.Auth.Service.{
  Service, locked_until, generate_otp, hash_code, send_code,
}

pub record RequestVerificationParams : Type 0 where
  pub intent : Intent
  pub phone : String
  pub role : Role
  pub language : Language
  pub google_link_token : Option String

-- The two early returns on the outcome of `FindByPhone`.
unfoldable pub check_account : Intent → Result Account → Exec (Unit {0})
unfolding errors_is
check_account intent (ok _) = if is_signup intent then raise (sentinel account_exists) else pure tt
check_account intent (err e) =
    if errors_is e not_found
    then (if is_signin intent then raise (sentinel no_account) else pure tt)
    else raise (wrapped "auth: request verification: find account" e)

-- The key function of `verifyPendingGoogleLink`.
unfoldable pub link_key : String → Token → Option String
link_key secret t = if t.method_is_hmac then some secret else none

-- What the guards on the phone's latest challenge return: that challenge, if any.
unfoldable pub check_latest : Time → Result Verification → Exec (Option Verification)
unfolding errors_is locked_until
check_latest now (ok v) =
    if is_locked v now
    then raise (locked_error (locked_until v now))
    else if not (resend_ready v now)
    then raise (sentinel resend_cooldown)
    else pure (some v)
check_latest now (err e) =
    if errors_is e not_found
    then pure none
    else raise (wrapped "auth: request verification: find latest" e)

abbrev only_signup {ℓ} : {A : Type ℓ} → Bool → A → A → A
only_signup b x zero_value = if b then x else zero_value

abbrev pub link_subject : Option (String × String) → Option String
link_subject none = none
link_subject (some (subject, _)) = some subject

abbrev pub link_email : Option (String × String) → Option String
link_email none = none
link_email (some (_, email)) = some email

-- The literal of the new challenge, with `RegisterSend`.
unfoldable pub new_verification :
    RequestVerificationParams
    → String
    → Option (String × String)
    → Uuid
    → String
    → Time
    → Verification
unfolding register_send
new_verification params normalized link id code_hash now =
    register_send
      (record {
        id = id;
        phone = normalized;
        intent = params.intent;
        code_hash = code_hash;
        pending_role = only_signup (is_signup params.intent) params.role "";
        pending_language = only_signup (is_signup params.intent) params.language "";
        pending_google_subject = only_signup (is_signup params.intent) (link_subject link) none;
        pending_google_email = only_signup (is_signup params.intent) (link_email link) none;
        sent_at = 0;
        expires_at = 0;
        failed_attempts = 0;
        sends_in_window = 0;
        locked_until = none;
        status = pending;
      })
      now

module _ (env : Env) where
  -- `verifyPendingGoogleLink`
  unfoldable pub verify_pending_google_link : String → String → Time → Result (String × String)
  unfolding link_key
  verify_pending_google_link secret token now =
      elim (env.parse_with_claims token (link_key secret) now) [
        | none ↦ err (joined (sentinel google_failed) (opaque "jwt"))
        | some claims ↦ ok (claims.subject, claims.email)
      ]

  -- Only a signup with a token redeems one.
  unfoldable pub redeem : Service → Time → Bool → Option String → Exec (Option (String × String))
  unfolding verify_pending_google_link
  redeem s now true (some token) =
      lift (verify_pending_google_link s.link_secret token now) >>= λ link. pure (some link)
  redeem s now true none = pure none
  redeem s now false _ = pure none

  unfoldable pub pending_link :
      Service → RequestVerificationParams → Time → Exec (Option (String × String))
  unfolding redeem
  pending_link s params now = redeem s now (is_signup params.intent) params.google_link_token

  -- The branch `sends >= MaxSendsPerWindow`.
  unfoldable pub trip_send_cap : Option Verification → Time → Exec Verification
  unfolding locked_until
  trip_send_cap none now = raise (locked_error (now + lockout_duration))
  trip_send_cap (some v) now = do
    on_error (wrapped "auth: request verification: lock") (Verifications.save env (lock v now))
    raise (locked_error (locked_until (lock v now) now))

  -- From `generateOTP` on.
  unfoldable pub send_fresh :
      RequestVerificationParams → String → Option (String × String) → Time → Exec Verification
  send_fresh params normalized link now = do
    code ← generate_otp env
    code_hash ← hash_code env code
    send_code env normalized code
    id ← observe env.new_uuid
    let v = new_verification params normalized link id code_hash now
    on_error (wrapped "auth: request verification: create") (Verifications.create env v)
    pure v

  -- The send cap, and what lies behind it.
  unfoldable pub send_within_cap :
      RequestVerificationParams
      → String
      → Option (String × String)
      → Option Verification
      → Time
      → Exec Verification
  send_within_cap params normalized link latest now = do
    sends ←
        on_error (wrapped "auth: request verification: count sends")
          (Verifications.count_sends_since env normalized (now - send_cap_window))
    if leb max_sends_per_window sends
        then trip_send_cap latest now
        else send_fresh params normalized link now

  -- From the outcome of `FindLatestByPhone` on.
  unfoldable pub from_latest :
      RequestVerificationParams
      → String
      → Option (String × String)
      → Time
      → Result Verification
      → Exec Verification
  from_latest params normalized link now prior = do
    latest ← check_latest now prior
    send_within_cap params normalized link latest now

  -- From the clock on.
  unfoldable pub from_clock : Service → RequestVerificationParams → String → Exec Verification
  from_clock s params normalized = do
    now ← observe env.now
    link ← pending_link s params now
    prior ← attempt (Verifications.find_latest_by_phone env normalized)
    from_latest params normalized link now prior

  -- What lies behind the phone check.
  unfoldable pub request_for : Service → RequestVerificationParams → String → Exec Verification
  request_for s params normalized = do
    found ← attempt (Accounts.find_by_phone env normalized)
    check_account params.intent found
    from_clock s params normalized

  unfoldable pub request_verification : Service → RequestVerificationParams → Exec Verification
  unfolding intent_valid
  request_verification s params =
      if intent_valid params.intent
      then lift (normalize_phone params.phone) >>= request_for s params
      else raise (sentinel unsupported_intent)
