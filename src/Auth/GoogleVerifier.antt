-- ===== src/Auth/GoogleVerifier.antt =====
-- `GoogleIdentityVerifier` of internal/auth/google.go: the check of an ID token, with the cache of
-- Google's signing keys. The HTTP client, the decoders and the clock are the fields of `Outside`, and
-- `jwt.Parse` is an argument. The mutex makes one state pass from call to call.
pub mod Keys
pub mod Acceptance
use Prim.Native.Nat.{◌%◌, ◌^◌}
use passwordless_auth_servic.Prelude.{
  ℕ, suc, ◌+◌, ◌-◌, ◌*◌, String, Bool, true, false, not, ◌&&◌, ◌||◌, Option, none, some, List, [],
  ◌∷◌, str_eq, ltb, if◌then◌else◌, ℤ, pos, negsuc,
}
use passwordless_auth_servic.Auth.Domain.{Time, hour, GoogleIdentity}
use passwordless_auth_servic.Auth.Failure.{
  Error, Result, ok, err, sentinel, google_failed, opaque, wrapped, joined,
}

-- `rsa.PublicKey`
pub record PublicKey : Type 0 where
  pub modulus : ℕ
  pub exponent : ℤ

pub record Jwk : Type 0 where
  pub kid : String
  pub n : String
  pub e : String

-- `http.Client.Do` of the JWKS request with the body of its response, `json.Decode` of the body,
-- `base64.RawURLEncoding.DecodeString`, and `time.Now`.
pub record Outside : Type 0 where
  pub get_certs : ℕ → Option String
  pub decode_jwks : String → Option (List Jwk)
  pub decode_base64 : String → Option (List ℕ)
  pub now : ℕ → Time

-- The mutable fields of the verifier, and the numbers of clock readings and of JWKS requests so far.
pub record Cache : Type 0 where
  pub keys : List (String × PublicKey)
  pub fetched_at : Time
  pub readings : ℕ
  pub fetches : ℕ

-- `v.keys[kid]`, in a map whose later entries stand first
abbrev pub lookup : String → List (String × PublicKey) → Option PublicKey
lookup kid [] = none
lookup kid ((other, key) ∷ keys) = if str_eq other kid then some key else lookup kid keys

-- `big.Int.SetBytes`, from the most significant byte on
abbrev pub set_bytes : ℕ → List ℕ → ℕ
set_bytes acc [] = acc
set_bytes acc (b ∷ bs) = set_bytes (acc * 256 + b) bs

-- `int(x.Int64())`: the low 64 bits, in two's complement
abbrev pub int64 : ℕ → ℤ
int64 x = let low = x % 2 ^ 64 in if ltb low (2 ^ 63) then pos low else negsuc (2 ^ 64 - 1 - low)

-- A claim of `jwt.MapClaims`, as far as its type assertions tell.
pub data Claim : Type 0 where
  text : String → Claim
  flag : Bool → Claim
  other : Claim

abbrev pub Claims : Type 0
Claims = String → Option Claim

-- `x, _ := claims[name].(string)` and `.(bool)`
abbrev pub string_claim : Claims → String → String
string_claim claims name = elim (claims name) [ some (text s) ↦ s | _ ↦ "" ]

abbrev pub bool_claim : Claims → String → Bool
bool_claim claims name = elim (claims name) [ some (flag b) ↦ b | _ ↦ false ]

-- `googleIssuers`
abbrev pub is_google_issuer : String → Bool
is_google_issuer iss = str_eq iss "https://accounts.google.com" || str_eq iss "accounts.google.com"

-- What follows the parse in `Verify`.
unfoldable pub identity_of : String → Claims → Result GoogleIdentity
identity_of client_id claims =
    if not (is_google_issuer (string_claim claims "iss"))
      || str_eq client_id ""
      || not (str_eq (string_claim claims "aud") client_id)
      || str_eq (string_claim claims "sub") ""
    then err (sentinel google_failed)
    else ok (record {
      subject = string_claim claims "sub";
      email = string_claim claims "email";
      email_verified = bool_claim claims "email_verified";
    })

-- A key function on the `kid` of a token's header, and a parse that calls it: `jwt.Parse` with the
-- one valid method RS256.
abbrev pub KeyFunc : Type 0
KeyFunc = Option String → Cache → Result PublicKey × Cache

abbrev pub Parse : Type 0
Parse = KeyFunc → String → Cache → Result Claims × Cache

module _ (o : Outside) where
  -- `rsaPublicKeyFromJWK`
  abbrev pub rsa_public_key_from_jwk : Jwk → Option PublicKey
  rsa_public_key_from_jwk k = elim (o.decode_base64 k.n) [
    | none ↦ none
    | some n_bytes ↦ elim (o.decode_base64 k.e) [
      | none ↦ none
      | some e_bytes ↦
          some (record { modulus = set_bytes 0 n_bytes; exponent = int64 (set_bytes 0 e_bytes) })
    ]
  ]

  -- The loop of `refreshKeysLocked`: a key that does not decode is left out.
  abbrev pub collect_keys : List (String × PublicKey) → List Jwk → List (String × PublicKey)
  collect_keys keys [] = keys
  collect_keys keys (k ∷ ks) = elim (rsa_public_key_from_jwk k) [
    | none ↦ collect_keys keys ks
    | some key ↦ collect_keys ((k.kid, key) ∷ keys) ks
  ]

  abbrev pub fetched : Cache → Cache
  fetched c = record c { fetches = suc c.fetches }

  abbrev pub store_keys : Option (List Jwk) → Cache → Result (Unit {0}) × Cache
  store_keys none c = (err (opaque "json"), c)
  store_keys (some ks) c = (
    ok tt,
    record c {
      keys = collect_keys [] ks;
      fetched_at = o.now c.readings;
      readings = suc c.readings;
    },
  )

  -- What `refreshKeysLocked` makes of the body of the response, whose status it does not look at.
  abbrev pub received : Option String → Cache → Result (Unit {0}) × Cache
  received none c = (err (opaque "http"), c)
  received (some body) c = store_keys (o.decode_jwks body) c

  -- `refreshKeysLocked`
  unfoldable pub refresh_keys : Cache → Result (Unit {0}) × Cache
  refresh_keys c = received (o.get_certs c.fetches) (fetched c)

  abbrev pub found_key : String → Option PublicKey → Cache → Result PublicKey × Cache
  found_key kid none c = (err (opaque "auth: unknown google signing key"), c)
  found_key kid (some key) c = (ok key, c)

  abbrev pub after_refresh : String → Result (Unit {0}) → Cache → Result PublicKey × Cache
  after_refresh kid (err e) c = (err (wrapped "auth: refresh google jwks" e), c)
  after_refresh kid (ok _) c = found_key kid (lookup kid c.keys) c

  abbrev pub key_of : String → Result (Unit {0}) × Cache → Result PublicKey × Cache
  key_of kid (r, c) = after_refresh kid r c

  abbrev pub refreshed_key : String → Cache → Result PublicKey × Cache
  refreshed_key kid c = key_of kid (refresh_keys c)

  abbrev pub read_clock : Cache → Cache
  read_clock c = record c { readings = suc c.readings }

  -- The first test of `publicKey`, which reads the clock only for a key that is there.
  abbrev pub cached_or : String → Option PublicKey → Cache → Result PublicKey × Cache
  cached_or kid none c = refreshed_key kid c
  cached_or kid (some key) c =
      if ltb (o.now c.readings - c.fetched_at) hour
      then (ok key, read_clock c)
      else refreshed_key kid (read_clock c)

  -- `publicKey`
  unfoldable pub public_key : String → Cache → Result PublicKey × Cache
  unfolding refresh_keys
  public_key kid c = cached_or kid (lookup kid c.keys) c

  -- `keyFunc`
  unfoldable pub key_func : KeyFunc
  key_func none c = (err (opaque "auth: google token missing kid"), c)
  key_func (some kid) c =
      if str_eq kid "" then (err (opaque "auth: google token missing kid"), c) else public_key kid c

  abbrev pub checked : String → Result Claims → Result GoogleIdentity
  checked client_id (err e) = err (joined (sentinel google_failed) e)
  checked client_id (ok claims) = identity_of client_id claims

  -- `Verify`
  unfoldable pub verify : Parse → String → String → Cache → Result GoogleIdentity × Cache
  verify parse client_id id_token c =
      let (r, c') = parse key_func id_token c in (checked client_id r, c')
