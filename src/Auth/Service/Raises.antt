-- ===== src/Auth/Service/Raises.antt =====
-- Which errors the use cases of internal/auth/service.go can return: the shared steps and
-- `ConfirmVerification`.
pub mod Sending
pub mod Accounts
use passwordless_auth_servic.Prelude.{
  ℕ, Bool, true, false, Option, none, some, String, List, [], ◌∷◌, ◌≡◌, refl, inl, inr, Bool-cases,
  Option-cases, if◌then◌else◌, str_eq, ℤ, ◌==◌,
}
use passwordless_auth_servic.Auth.Domain.{
  Time, Uuid, Role, Intent, Account, Verification, Session, GoogleIdentity, intent_valid, is_signup,
}
use passwordless_auth_servic.Auth.Failure.{
  Sentinel, account_exists, no_account, locked, incorrect_code, expired, send_failed, invalid_phone,
  resend_cooldown, not_found, unsupported_intent, google_failed, invalid_range, Error, sentinel,
  wrapped, opaque, joined, errors_is, Result, ok, err,
}
use passwordless_auth_servic.Auth.Phone.{normalize_phone}
use passwordless_auth_servic.Platform.World.{Env, Exec, on_error, lift}
use passwordless_auth_servic.Platform.World.Runs.{Result-cases}
use passwordless_auth_servic.Platform.Uow.Raises.{
  among, Names, ErrNames, Raises, Names-sentinel, Names-wrapped, Names-joined, Names-opaque,
  Names-other, Raises-pure, Raises-raise, Raises-lift, Raises-on_error, Raises-attempt, Raises-bind,
}
use passwordless_auth_servic.Postgres.Raises.{
  Names-if, find_by_phone-Raises, find_by_google_subject-Raises, find_latest_by_phone-Raises,
  repository_errors,
}
use passwordless_auth_servic.Auth.Service.{
  Service, generate_otp, hash_code, send_code, settle_send, new_session_token, keep_not_found,
}
use passwordless_auth_servic.Auth.Service.Request.{
  RequestVerificationParams, check_account, check_latest, verify_pending_google_link, redeem,
  pending_link, trip_send_cap, send_fresh, send_within_cap, from_latest, from_clock, request_for,
  request_verification,
}
use passwordless_auth_servic.Auth.Service.Confirm.{
  missing_account, duplicate_account, confirm_failure, existing_account, create_account,
  resolve_account, settle, complete, reject_code, confirm_loaded, confirm_verification,
}
use passwordless_auth_servic.Auth.Service.Resend.{
  lock_resend, send_again, resend_loaded, resend_verification,
}

-- The sender's errors name none of the service's.
abbrev pub SenderIsForeign : Env → Type 0
SenderIsForeign env =
    (k : ℕ) (phone code : String) (e : Error) → env.send_code k phone code ≡ some e → Names [] e

module _ {names : List Sentinel} where
  Names-nothing : (e : Error) → Names [] e → Names names e
  Names-nothing e h = record { only = λ s is. absurd (let none_there = h.only s is in cc) }

  keep_not_found-Raises {ℓ} :
      {A : Type ℓ} (op : String) (m : Exec A)
      → among names not_found ≡ true
      → Raises names m
      → Raises names (on_error (keep_not_found op) m)
  unfolding keep_not_found
  keep_not_found-Raises op m missing = Raises-on_error (keep_not_found op) m (λ e h.
      Names-if (errors_is e not_found) _ _ (Names-sentinel not_found missing)
        (Names-wrapped op e h))

module _ {names : List Sentinel} (env : Env) where
  generate_otp-Raises : Raises names (generate_otp env)
  unfolding generate_otp
  generate_otp-Raises = search repository_errors

  hash_code-Raises : (code : String) → Raises names (hash_code env code)
  unfolding hash_code
  hash_code-Raises code = search repository_errors

  new_session_token-Raises : Raises names (new_session_token env)
  unfolding new_session_token
  new_session_token-Raises = search repository_errors

  send_code-Raises :
      (phone code : String)
      → SenderIsForeign env
      → among names send_failed ≡ true
      → Raises names (send_code env phone code)
  unfolding send_code
  send_code-Raises phone code foreign sending = record {
    at = λ w. elim (Option-cases (env.send_code w.calls phone code)) [
      | inl sent ↦ rw sent tt
      | inr (e, failed) ↦ rw failed (
          Names-joined (sentinel send_failed) e (Names-sentinel send_failed sending)
            (Names-nothing e (foreign w.calls phone code e failed)))
    ];
  }

ruleset shared_errors = (
  repository_errors, keep_not_found-Raises, generate_otp-Raises, hash_code-Raises,
  new_session_token-Raises, send_code-Raises,
)

module _ {names : List Sentinel} (env : Env) (missing : among names not_found ≡ true)
    (held : among names locked ≡ true) where
  -- `ConfirmVerification`
  module _ (exists : among names account_exists ≡ true) (unknown : among names no_account ≡ true)
      (wrong : among names incorrect_code ≡ true) (late : among names expired ≡ true) where
    existing_account-Raises : (v : Verification) → Raises names (existing_account env v)
    unfolding existing_account missing_account
    existing_account-Raises v =
        Raises-on_error missing_account _
          (λ e h.
            Names-if (errors_is e not_found) _ _
              (Names-wrapped _ _ (Names-sentinel no_account unknown)) (Names-wrapped _ e h))
          (find_by_phone-Raises env missing v.phone)

    duplicate_account-Raises :
        {A : Type 0} (m : Exec A) → Raises names m → Raises names (on_error duplicate_account m)
    unfolding duplicate_account
    duplicate_account-Raises m = Raises-on_error duplicate_account m (λ e h.
        Names-if (errors_is e account_exists) _ _ (Names-sentinel account_exists exists)
          (Names-wrapped _ e h))

    confirm_failure-Raises :
        {A : Type 0} (m : Exec A) → Raises names m → Raises names (on_error confirm_failure m)
    unfolding confirm_failure
    confirm_failure-Raises m = Raises-on_error confirm_failure m (λ e h.
        Names-if (errors_is e account_exists) _ _ (Names-sentinel account_exists exists)
          (Names-if (errors_is e no_account) _ _ (Names-sentinel no_account unknown) h))

    create_account-Raises :
        (v : Verification) (now : Time) → Raises names (create_account env v now)
    unfolding create_account
    create_account-Raises v now = search (shared_errors, duplicate_account-Raises)

    resolve_account-Raises :
        (v : Verification) (now : Time) → Raises names (resolve_account env v now)
    unfolding resolve_account
    resolve_account-Raises v now =
        search (shared_errors, existing_account-Raises, create_account-Raises)

    settle-Raises :
        (v : Verification) (now : Time) (session : Session)
        → Raises names (settle env v now session)
    unfolding settle
    settle-Raises v now session = search (shared_errors, resolve_account-Raises)

    complete-Raises : (v : Verification) (now : Time) → Raises names (complete env v now)
    unfolding complete
    complete-Raises v now = search (shared_errors, confirm_failure-Raises, settle-Raises) depth 12

    reject_code-Raises : (v : Verification) (now : Time) → Raises names (reject_code env v now)
    unfolding reject_code
    reject_code-Raises v now = search shared_errors

    confirm_loaded-Raises :
        (v : Verification) (now : Time) (code : String)
        → Raises names (confirm_loaded env v now code)
    unfolding confirm_loaded
    confirm_loaded-Raises v now code = search (shared_errors, complete-Raises, reject_code-Raises)

    pub confirm_verification-Raises :
        (id : Uuid) (code : String) → Raises names (confirm_verification env id code)
    unfolding confirm_verification
    confirm_verification-Raises id code = search (shared_errors, confirm_loaded-Raises)
