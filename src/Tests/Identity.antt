-- ===== src/Tests/Identity.antt =====
-- The theorems on the Google verifier and on the link token, with concrete parts in place of the
-- libraries.
use passwordless_auth_servic.Prelude.{
  ◌+◌, ◌*◌, String, true, false, none, some, [], ◌∷◌, find, str_eq, ◌≡◌, refl, sym, eq_iff,
  Bool-cases, arith, inl, inr, if◌then◌else◌,
}
use passwordless_auth_servic.Auth.Domain.{GoogleIdentity, minute}
use passwordless_auth_servic.Auth.Failure.{Result, ok, err, errors_is}
use passwordless_auth_servic.Platform.World.{Env, LinkClaims}
use passwordless_auth_servic.Postgres.Accounts
use passwordless_auth_servic.Postgres.Accounts.{has_subject}
use passwordless_auth_servic.Auth.GoogleVerifier
use passwordless_auth_servic.Auth.GoogleVerifier.{
  PublicKey, Cache, Claims, Claim, text, Parse, KeyFunc,
}
use passwordless_auth_servic.Auth.Service.Request.{verify_pending_google_link}
use passwordless_auth_servic.Auth.Service.Google.{
  no_account, google_exchange, exchange_for, offer_link, sign_pending_google_link, link_claims,
  pending_google_link_ttl,
}
use passwordless_auth_servic.Auth.Service.Google.Redeem.{ReadsBack, redeem-google_exchange}
use passwordless_auth_servic.Tests.{calm, noon, service, shop}

-- Google publishes one key, "k".
abbrev google : GoogleVerifier.Outside
google = record {
  get_certs = λ _. some "jwks";
  decode_jwks = λ _. some (record { kid = "k"; n = "n"; e = "e" } ∷ []);
  decode_base64 = λ _. some (1 ∷ []);
  now = λ _. noon;
}

abbrev empty_cache : Cache
empty_cache = record { keys = []; fetched_at = 0; readings = 0; fetches = 0 }

abbrev vouched_claims : Claims
vouched_claims name =
    if str_eq name "iss"
    then some (text "accounts.google.com")
    else if str_eq name "aud"
    then some (text "client")
    else if str_eq name "sub"
    then some (text "google-7")
    else none

-- A parse that finds the claims of every token signed with the key "k".
abbrev settle_parse : Result PublicKey × Cache → Result Claims × Cache
settle_parse (ok key, c) = (ok vouched_claims, c)
settle_parse (err e, c) = (err e, c)

abbrev parse_all : Parse
parse_all keys token c = settle_parse (keys (some "k") c)

abbrev IsAny : PublicKey → String → Claims → Type 0
IsAny k token claims = Unit

abbrev google_seven : GoogleIdentity
google_seven = record { subject = "google-7"; email = ""; email_verified = false }

-- A deployment with a toy JWT: a token is the secret, for one identity, and does not expire.
abbrev toy_claims : LinkClaims
toy_claims = record {
  subject = "google-9";
  email = "nine@example.com";
  issued_at = noon;
  expires_at = noon + pending_google_link_ttl;
}

abbrev linking : Env
linking = record calm {
  verify_identity = λ _ _.
      ok (record { subject = "google-9"; email = "nine@example.com"; email_verified = true });
  signed_string = λ secret claims.
      if str_eq claims.subject "google-9"
      then (if str_eq claims.email "nine@example.com" then some secret else none)
      else none;
  parse_with_claims = λ _ _ _. some toy_claims;
}

reads_back : ReadsBack linking
reads_back secret token claims keys now signed accepts soon =
    elim (Bool-cases (str_eq claims.subject "google-9")) [
      | inr other ↦ let unsigned = rw other at signed in absurd (cc)
      | inl subject ↦ elim (Bool-cases (str_eq claims.email "nine@example.com")) [
        | inr other ↦ let unsigned = rw (subject, other) at signed in absurd (cc)
        | inl email ↦ (toy_claims, refl, sym ((eq_iff _ _).0 subject), sym ((eq_iff _ _).0 email))
      ]
    ]

offers : (google_exchange linking service "id" none shop).0 ≡ ok (no_account "secret")
unfolding google_exchange exchange_for offer_link sign_pending_google_link link_claims
    Accounts.find_by_google_subject errors_is
offers = refl

redeem-google_exchange_example :
    (identity : GoogleIdentity) × (linking.verify_identity 0 "id" ≡ ok identity)
    × (find (has_subject identity.subject) shop.db.accounts ≡ none)
    × (verify_pending_google_link linking "secret" "secret" (noon + 5 * minute)
        ≡ ok (identity.subject, identity.email))
redeem-google_exchange_example =
    redeem-google_exchange linking service "id" none shop "secret" (noon + 5 * minute) reads_back
      offers (omega (arith))
