-- ===== src/Auth/Service/Raises/Accounts.antt =====
-- Which errors the exchange of a Google token, the use cases on accounts and sessions and those for
-- administrators of internal/auth/service.go can return.
use passwordless_auth_servic.Prelude.{
  ℕ, Bool, true, false, String, Option, List, [], ◌∷◌, ◌≡◌, refl, inl, inr, Bool-cases,
  if◌then◌else◌, str_eq, ℤ, ◌*◌,
}
use passwordless_auth_servic.Auth.Domain.{
  Time, Uuid, Role, Account, Verification, GoogleIdentity, hour,
}
use passwordless_auth_servic.Auth.Failure.{
  Sentinel, not_found, google_failed, invalid_range, sentinel, errors_is, Result, ok, err,
}
use passwordless_auth_servic.Platform.World.{Env, attempt, lift, ◌>>=◌}
use passwordless_auth_servic.Platform.Uow.Raises.{
  among, ErrNames, Raises, Names-sentinel, Names-wrapped, Names-other, Raises-raise, Raises-lift,
  Raises-wrapped, Raises-bind, Raises-attempt,
}
use passwordless_auth_servic.Postgres.Driver.{counted}
use passwordless_auth_servic.Postgres.Accounts
use passwordless_auth_servic.Postgres.Verifications
use passwordless_auth_servic.Postgres.Raises.{
  find_by_google_subject-Raises, find_latest_by_phone-Raises,
}
use passwordless_auth_servic.Auth.Service.{Service}
use passwordless_auth_servic.Auth.Service.Raises.{shared_errors}
use passwordless_auth_servic.Auth.Service.Google.{
  sign_pending_google_link, resume_account, offer_link, exchange_for, google_exchange,
}
use passwordless_auth_servic.Auth.Service.Sessions.{revoke_session}
use passwordless_auth_servic.Auth.Service.Admin.{
  list_accounts, emit_audit_event, unlock_and_record, clear_latest, clear_lockout, range_window,
  analytics,
}

-- The verifier's errors name `ErrGoogleFailed` at most.
abbrev pub VerifierBlamesGoogle : Env → Type 0
VerifierBlamesGoogle env =
    (k : ℕ) (id_token : String) → ErrNames (google_failed ∷ []) (env.verify_identity k id_token)

module _ {names : List Sentinel} (env : Env) where
  pub revoke_session-Raises : (token : String) → Raises names (revoke_session env token)
  unfolding revoke_session
  revoke_session-Raises token = search shared_errors

  pub list_accounts-Raises :
      (phone_filter : String) (limit offset : ℤ)
      → Raises names (list_accounts env phone_filter limit offset)
  unfolding list_accounts
  list_accounts-Raises phone_filter limit offset = search shared_errors

  range-Raises :
      (rng : String) → among names invalid_range ≡ true → Raises names (lift (range_window rng))
  unfolding range_window
  range-Raises rng bad =
      Raises-lift _ (window (str_eq rng "24h") (str_eq rng "7d") (str_eq rng "30d"))
    where
      window :
          (a b c : Bool)
          → ErrNames {A = ℕ} names (
              if a
              then ok (24 * hour)
              else if b
              then ok (7 * 24 * hour)
              else if c
              then ok (30 * 24 * hour)
              else err (sentinel invalid_range))
      window true b c = tt
      window false true c = tt
      window false false true = tt
      window false false false = Names-sentinel invalid_range bad

  pub analytics-Raises :
      (rng : String) → among names invalid_range ≡ true → Raises names (analytics env rng)
  unfolding analytics
  analytics-Raises rng bad = search (shared_errors, range-Raises) depth 12

  module _ (missing : among names not_found ≡ true) where
    unlock_and_record-Raises :
        (actor : String) (id : Uuid) (v : Verification)
        → Raises names (unlock_and_record env actor id v)
    unfolding unlock_and_record emit_audit_event
    unlock_and_record-Raises actor id v = search shared_errors

    clear_latest-Raises :
        (actor : String) (id : Uuid) (now : Time) (latest : Result Verification)
        → ErrNames names latest
        → Raises names (clear_latest env actor id now latest)
    unfolding clear_latest
    clear_latest-Raises actor id now (ok v) h = search (shared_errors, unlock_and_record-Raises)
    clear_latest-Raises actor id now (err e) h = search shared_errors

    looked_up-Raises :
        (actor : String) (id : Uuid) (now : Time) (phone : String)
        → Raises names (
            attempt (Verifications.find_latest_by_phone env phone)
            >>= clear_latest env actor id now)
    looked_up-Raises actor id now phone =
        Raises-attempt names _ _ (find_latest_by_phone-Raises env missing phone)
          (clear_latest-Raises actor id now)

    pub clear_lockout-Raises :
        (actor : String) (id : Uuid) → Raises names (clear_lockout env actor id)
    unfolding clear_lockout
    clear_lockout-Raises actor id = search (shared_errors, looked_up-Raises)

  -- `GoogleExchange`
  resume_account-Raises : (a : Account) → Raises names (resume_account env a)
  unfolding resume_account
  resume_account-Raises a = search shared_errors depth 12

  offer_link-Raises :
      (s : Service) (identity : GoogleIdentity) → Raises names (offer_link env s identity)
  unfolding offer_link sign_pending_google_link
  offer_link-Raises s identity = search shared_errors

  exchange_for-Raises :
      (s : Service) (identity : GoogleIdentity) (found : Result Account)
      → ErrNames (not_found ∷ names) found
      → Raises names (exchange_for env s identity found)
  unfolding exchange_for
  exchange_for-Raises s identity (ok a) h = resume_account-Raises a
  exchange_for-Raises s identity (err e) h = elim (Bool-cases (errors_is e not_found)) [
    | inl missing ↦ rw missing (offer_link-Raises s identity)
    | inr other ↦ rw other (Raises-raise _ (Names-wrapped _ e (Names-other not_found e other h)))
  ]

  found_for-Raises :
      (s : Service) (identity : GoogleIdentity)
      → Raises names (
          attempt (Accounts.find_by_google_subject env identity.subject)
          >>= exchange_for env s identity)
  found_for-Raises s identity =
      Raises-attempt (not_found ∷ names) _ _
        (find_by_google_subject-Raises env refl identity.subject) (exchange_for-Raises s identity)

pub google_exchange-Raises :
    (env : Env) (s : Service) (id_token : String) (role : Option Role)
    → VerifierBlamesGoogle env
    → Raises (google_failed ∷ []) (google_exchange env s id_token role)
unfolding google_exchange
google_exchange-Raises env s id_token role blames = record {
  at = λ w.
      let verdict = env.verify_identity w.calls id_token in
      let verified =
        Raises-wrapped "auth: google exchange: verify" (lift verdict)
          (Raises-lift verdict (blames w.calls id_token)) in
      (Raises-bind _ _ verified (λ identity. found_for-Raises env s identity)).at (counted w);
}
