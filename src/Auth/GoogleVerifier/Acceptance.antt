-- ===== src/Auth/GoogleVerifier/Acceptance.antt =====
-- What an identity that `Verify` of internal/auth/google.go accepts rests on.
use passwordless_auth_servic.Prelude.{◌-◌, ◌<◌, String, Option, some, ◌≡◌, ◌≢◌, ◌⊎◌}
use passwordless_auth_servic.Auth.Domain.{hour, GoogleIdentity}
use passwordless_auth_servic.Auth.Failure.{ok}
use passwordless_auth_servic.Auth.GoogleVerifier.{
  PublicKey, Outside, Cache, lookup, Claims, string_claim, Parse, key_func,
}
use passwordless_auth_servic.Auth.GoogleVerifier.Keys.{JustFetched, Published}

-- The claims name Google as issuer, the client as audience, and a subject, which is the identity's.
abbrev pub Accepts : String → Claims → GoogleIdentity → Type 0
Accepts client_id claims identity =
    ((string_claim claims "iss" ≡ "https://accounts.google.com")
      ⊎ (string_claim claims "iss" ≡ "accounts.google.com"))
    × (client_id ≢ "")
    × (string_claim claims "aud" ≡ client_id)
    × (identity.subject ≢ "")
    × (identity.subject ≡ string_claim claims "sub")

module _ (o : Outside) (parse : Parse) (IsSigned : PublicKey → String → Claims → Type 0) where
  -- What jwt.Parse promises: claims that it returns are signed with a key that the key function gave
  -- for the token, at the state that the parse leaves.
  abbrev pub Promises : Type 0
  Promises =
      (id_token : String) (c : Cache) (claims : Claims)
      → (parse (key_func o) id_token c).0 ≡ ok claims
      → (kid : Option String) × (k : PublicKey) × (key_func o kid c
          ≡ (ok k, (parse (key_func o) id_token c).1))
        × IsSigned k id_token claims

  -- The token is signed with a key of the cache, whose keys Google published: they were fetched less
  -- than an hour before, or for this token.
  abbrev pub Vouched : String → Cache → Cache → Claims → Type 0
  Vouched id_token c c' claims =
      (kid : String) × (k : PublicKey) × IsSigned k id_token claims
      × (lookup kid c'.keys ≡ some k)
      × Published o c'
      × (((c'.keys ≡ c.keys) × (o.now c.readings - c.fetched_at < hour))
          ⊎ JustFetched o c.fetches c'.keys)
