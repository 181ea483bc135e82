-- ===== src/Auth/Service/Google/Redeem.antt =====
-- The pending-link token of internal/auth/google.go, from the exchange that offers it to the request
-- that redeems it.
use Prim.Native.Nat.{◌/◌}
use passwordless_auth_servic.Prelude.{
  suc, ◌+◌, ◌*◌, ◌<◌, ◌≤◌, String, true, Option, none, some, find, ◌≡◌, refl, ap, sym, ◌∙◌, arith,
  inl, inr,
}
use passwordless_auth_servic.Auth.Domain.{Time, Role, GoogleIdentity, second}
use passwordless_auth_servic.Auth.Failure.{ok}
use passwordless_auth_servic.Platform.World.{Env, LinkClaims, Token, World}
use passwordless_auth_servic.Platform.World.Runs.{ok-injective}
use passwordless_auth_servic.Postgres.Accounts.{has_subject}
use passwordless_auth_servic.Auth.Service.{Service}
use passwordless_auth_servic.Auth.Service.Request.{verify_pending_google_link, link_key}
use passwordless_auth_servic.Auth.Service.Google.{
  GoogleExchangeResult, resumed, no_account, google_exchange, link_claims, pending_google_link_ttl,
}
use passwordless_auth_servic.Auth.Service.Google.Outcomes.{google_exchange_cases}

-- What the JWT library promises: a token that was signed with a secret parses, under a key function
-- that gives that secret to an HMAC token, to the signed subject and email, until its expiry, which a
-- token carries in whole seconds.
abbrev pub ReadsBack : Env → Type 0
ReadsBack env =
    (secret token : String) (claims : LinkClaims) (keys : Token → Option String) (now : Time)
    → env.signed_string secret claims ≡ some token
    → keys (record { method_is_hmac = true }) ≡ some secret
    → now < claims.expires_at / second * second
    → (back : LinkClaims) × (env.parse_with_claims token keys now ≡ some back)
      × (back.subject ≡ claims.subject)
      × (back.email ≡ claims.email)

link_token : GoogleExchangeResult → String
link_token (resumed token a route) = token
link_token (no_account token) = token

whole_seconds : (now end : Time) → now + second ≤ end → now < end / second * second
whole_seconds now end h = omega (arith)

-- If the JWT library reads back what it signed, the link token that an exchange offers is for an
-- identity that Google vouched for and no account has, and the request that redeems it, up to a second
-- before its ten minutes are over, reads that identity's subject and email from it.
pub redeem-google_exchange :
    (env : Env) (s : Service) (id_token : String) (role : Option Role) (w : World) (token : String)
    (now : Time)
    → ReadsBack env
    → (google_exchange env s id_token role w).0 ≡ ok (no_account token)
    → now + second ≤ env.now (suc (suc w.calls)) + pending_google_link_ttl
    → (identity : GoogleIdentity) × (env.verify_identity w.calls id_token ≡ ok identity)
      × (find (has_subject identity.subject) w.db.accounts ≡ none)
      × (verify_pending_google_link env s.link_secret token now
          ≡ ok (identity.subject, identity.email))
unfolding link_claims link_key link_token verify_pending_google_link
redeem-google_exchange env s id_token role w token now reads offered soon =
    elim (google_exchange_cases env s id_token role w) [
      | inl (bad, _) ↦ absurd (cc)
      | inr (identity, vouched, inl (a, _, (other, _, _, inl good))) ↦ absurd (cc)
      | inr (identity, vouched, inl (a, _, (other, _, _, inr bad))) ↦ absurd (cc)
      | inr (identity, vouched, inr (missing, (other, signed, good, _))) ↦
          let same : other ≡ token = ap link_token (ok-injective (sym good ∙ offered)) in
          let (back, parsed, subject, email) =
            reads s.link_secret token (link_claims identity (env.now (suc (suc w.calls))))
              (link_key s.link_secret) now (signed ∙ ap some same) refl
              (whole_seconds now _ soon) in
          (identity, vouched, missing, rw (verify_pending_google_link, parsed, subject, email) refl)
    ]
