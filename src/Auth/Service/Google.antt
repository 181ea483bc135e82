-- ===== src/Auth/Service/Google.antt =====
-- `GoogleExchange` of internal/auth/service.go, and the pending-link token of
-- internal/auth/google.go that it signs.
pub mod Outcomes
pub mod Redeem
use passwordless_auth_servic.Prelude.{◌+◌, String, Option, if◌then◌else◌}
use passwordless_auth_servic.Auth.Domain.{Time, Role, Account, GoogleIdentity, route_home, otp_ttl}
use passwordless_auth_servic.Auth.Failure.{Result, ok, err, not_found, opaque, wrapped, errors_is}
use passwordless_auth_servic.Platform.World.{
  Env, LinkClaims, Exec, ◌>>=◌, ◌>>◌, pure, raise, attempt, lift, on_error, observe, or_raise,
}
use passwordless_auth_servic.Platform.Uow.{in_tx}
use passwordless_auth_servic.Postgres.Accounts
use passwordless_auth_servic.Postgres.Sessions
use passwordless_auth_servic.Auth.Service.{Service, fresh_session, new_session_token}

abbrev pub pending_google_link_ttl : Time
pending_google_link_ttl = otp_ttl

-- `GoogleExchangeResult`: `NoAccount` tells the two forms apart. `PhonePrefill` is always nil.
pub data GoogleExchangeResult : Type 0 where
  resumed : (session_token : String) → Account → (route : String) → GoogleExchangeResult
  no_account : (pending_link_token : String) → GoogleExchangeResult

unfoldable pub link_claims : GoogleIdentity → Time → LinkClaims
link_claims identity now = record {
  subject = identity.subject;
  email = identity.email;
  issued_at = now;
  expires_at = now + pending_google_link_ttl;
}

module _ (env : Env) where
  -- `signPendingGoogleLink`
  unfoldable pub sign_pending_google_link : String → GoogleIdentity → Time → Exec String
  unfolding link_claims
  sign_pending_google_link secret identity now =
      or_raise (wrapped "auth: sign pending google link" (opaque "jwt"))
        (env.signed_string secret (link_claims identity now))

  unfoldable pub resume_account : Account → Exec GoogleExchangeResult
  resume_account account = do
    now ← observe env.now
    minted ← new_session_token env
    id ← observe env.new_uuid
    in_tx env (
        on_error (wrapped "auth: google exchange: create session") (
          Sessions.create env (record (fresh_session id minted.1 now) { account_id = account.id })))
    pure (resumed minted.0 account route_home)

  unfoldable pub offer_link : Service → GoogleIdentity → Exec GoogleExchangeResult
  offer_link s identity = do
    now ← observe env.now
    token ← sign_pending_google_link s.link_secret identity now
    pure (no_account token)

  unfoldable pub exchange_for :
      Service → GoogleIdentity → Result Account → Exec GoogleExchangeResult
  unfolding errors_is
  exchange_for s identity (ok account) = resume_account account
  exchange_for s identity (err e) =
      if errors_is e not_found
      then offer_link s identity
      else raise (wrapped "auth: google exchange: find account" e)

  -- The role is not used, as in the source.
  unfoldable pub google_exchange : Service → String → Option Role → Exec GoogleExchangeResult
  google_exchange s id_token role = do
    verdict ← observe (λ k. env.verify_identity k id_token)
    identity ← on_error (wrapped "auth: google exchange: verify") (lift verdict)
    found ← attempt (Accounts.find_by_google_subject env identity.subject)
    exchange_for s identity found
