-- ===== src/Auth/Service/Raises/Sending.antt =====
-- Which errors `RequestVerification` and `ResendVerification` of internal/auth/service.go can return.
use passwordless_auth_servic.Prelude.{
  Bool, true, false, Option, none, some, String, List, ◌≡◌, if◌then◌else◌,
}
use passwordless_auth_servic.Auth.Domain.{Time, Uuid, Intent, Account, Verification}
use passwordless_auth_servic.Auth.Failure.{
  Sentinel, account_exists, no_account, locked, expired, send_failed, invalid_phone,
  resend_cooldown, not_found, unsupported_intent, google_failed, sentinel, opaque, joined, Result,
  ok, err,
}
use passwordless_auth_servic.Auth.Phone.{normalize_phone}
use passwordless_auth_servic.Platform.World.{Env, LinkClaims, attempt, lift, ◌>>=◌, ◌>>◌}
use passwordless_auth_servic.Postgres.Verifications
use passwordless_auth_servic.Platform.Uow.Raises.{
  among, ErrNames, Raises, Names-sentinel, Names-joined, Names-opaque, Raises-attempt, Raises-lift,
}
use passwordless_auth_servic.Postgres.Raises.{find_by_phone-Raises, find_latest_by_phone-Raises}
use passwordless_auth_servic.Auth.Service.{Service}
use passwordless_auth_servic.Auth.Service.Raises.{SenderIsForeign, shared_errors}
use passwordless_auth_servic.Auth.Service.Request.{
  RequestVerificationParams, check_account, check_latest, link_key, verify_pending_google_link,
  redeem, pending_link, trip_send_cap, send_fresh, send_within_cap, from_latest, from_clock,
  request_for, request_verification,
}
use passwordless_auth_servic.Auth.Service.Resend.{
  lock_resend, send_again, resend_loaded, resend_verification,
}

module _ {names : List Sentinel} (env : Env) (foreign : SenderIsForeign env)
    (missing : among names not_found ≡ true) (held : among names locked ≡ true)
    (early : among names resend_cooldown ≡ true) (unsent : among names send_failed ≡ true) where
  resend_loaded-Raises :
      (v : Verification) (now : Time)
      → among names expired ≡ true
      → Raises names (resend_loaded env v now)
  unfolding resend_loaded lock_resend send_again
  resend_loaded-Raises v now late = search shared_errors depth 12

  pub resend_verification-Raises :
      (id : Uuid) → among names expired ≡ true → Raises names (resend_verification env id)
  unfolding resend_verification
  resend_verification-Raises id late = search (shared_errors, resend_loaded-Raises)

  check_latest-Raises :
      (now : Time) (prior : Result Verification)
      → ErrNames names prior
      → Raises names (check_latest now prior)
  unfolding check_latest
  check_latest-Raises now (ok v) h = search shared_errors
  check_latest-Raises now (err e) h = search shared_errors

  trip_send_cap-Raises :
      (latest : Option Verification) (now : Time) → Raises names (trip_send_cap env latest now)
  unfolding trip_send_cap
  trip_send_cap-Raises none now = search shared_errors
  trip_send_cap-Raises (some v) now = search shared_errors

  send_fresh-Raises :
      (params : RequestVerificationParams) (normalized : String) (link : Option (String × String))
      (now : Time)
      → Raises names (send_fresh env params normalized link now)
  unfolding send_fresh
  send_fresh-Raises params normalized link now = search shared_errors depth 12

  send_within_cap-Raises :
      (params : RequestVerificationParams) (normalized : String) (link : Option (String × String))
      (latest : Option Verification) (now : Time)
      → Raises names (send_within_cap env params normalized link latest now)
  unfolding send_within_cap
  send_within_cap-Raises params normalized link latest now =
      search (shared_errors, trip_send_cap-Raises, send_fresh-Raises)

  from_latest-Raises :
      (params : RequestVerificationParams) (normalized : String) (link : Option (String × String))
      (now : Time) (prior : Result Verification)
      → ErrNames names prior
      → Raises names (from_latest env params normalized link now prior)
  unfolding from_latest
  from_latest-Raises params normalized link now prior h =
      search (shared_errors, check_latest-Raises, send_within_cap-Raises)

  -- `RequestVerification`
  module _ (unvouched : among names google_failed ≡ true) where
    verified_link-Raises :
        (secret token : String) (now : Time)
        → Raises names (lift (verify_pending_google_link env secret token now))
    unfolding verify_pending_google_link
    verified_link-Raises secret token now =
        Raises-lift _ (read (env.parse_with_claims token (link_key secret) now))
      where
        read :
            (o : Option LinkClaims)
            → ErrNames {A = String × String} names (elim o [
              | none ↦ err (joined (sentinel google_failed) (opaque "jwt"))
              | some claims ↦ ok (claims.subject, claims.email)
            ])
        read none = Names-joined _ _ (Names-sentinel google_failed unvouched) (Names-opaque "jwt")
        read (some claims) = tt

    redeem-Raises :
        (s : Service) (now : Time) (b : Bool) (token : Option String)
        → Raises names (redeem env s now b token)
    unfolding redeem
    redeem-Raises s now true (some token) = search (shared_errors, verified_link-Raises)
    redeem-Raises s now true none = search shared_errors
    redeem-Raises s now false token = search shared_errors

    pending_link-Raises :
        (s : Service) (params : RequestVerificationParams) (now : Time)
        → Raises names (pending_link env s params now)
    unfolding pending_link
    pending_link-Raises s params now = search (shared_errors, redeem-Raises)

    looked_up-Raises :
        (params : RequestVerificationParams) (normalized : String) (link : Option (String × String))
        (now : Time)
        → Raises names (
            attempt (Verifications.find_latest_by_phone env normalized)
            >>= from_latest env params normalized link now)
    looked_up-Raises params normalized link now =
        Raises-attempt names _ _ (find_latest_by_phone-Raises env missing normalized)
          (λ r h. from_latest-Raises params normalized link now r h)

    from_clock-Raises :
        (s : Service) (params : RequestVerificationParams) (normalized : String)
        → Raises names (from_clock env s params normalized)
    unfolding from_clock
    from_clock-Raises s params normalized =
        search (shared_errors, pending_link-Raises, looked_up-Raises)

    module _ (exists : among names account_exists ≡ true)
        (unknown : among names no_account ≡ true) where
      check_account-Raises :
          (intent : Intent) (found : Result Account)
          → ErrNames names found
          → Raises names (check_account intent found)
      unfolding check_account
      check_account-Raises intent (ok a) h = search shared_errors
      check_account-Raises intent (err e) h = search shared_errors

      account_checked-Raises :
          (s : Service) (params : RequestVerificationParams) (normalized : String)
          (r : Result Account)
          → ErrNames names r
          → Raises names (check_account params.intent r >> from_clock env s params normalized)
      account_checked-Raises s params normalized r h =
          search (shared_errors, check_account-Raises, from_clock-Raises)

      request_for-Raises :
          (s : Service) (params : RequestVerificationParams) (normalized : String)
          → Raises names (request_for env s params normalized)
      unfolding request_for
      request_for-Raises s params normalized =
          Raises-attempt names _ _ (find_by_phone-Raises env missing normalized)
            (account_checked-Raises s params normalized)

      normalized-Raises :
          (raw : String)
          → among names invalid_phone ≡ true
          → Raises names (lift (normalize_phone raw))
      unfolding normalize_phone
      normalized-Raises raw bad = Raises-lift _ (refused_or _ _)
        where
          refused_or :
              (b : Bool) (p : String)
              → ErrNames {A = String} names (if b then err (sentinel invalid_phone) else ok p)
          refused_or true p = Names-sentinel invalid_phone bad
          refused_or false p = tt

      pub request_verification-Raises :
          (s : Service) (params : RequestVerificationParams)
          → among names invalid_phone ≡ true
          → among names unsupported_intent ≡ true
          → Raises names (request_verification env s params)
      unfolding request_verification
      request_verification-Raises s params bad unsupported =
          search (shared_errors, request_for-Raises, normalized-Raises)
