-- ===== src/Platform/World.antt =====
-- The state that a request works on, the outside world, and the monad of the code that talks to it.
-- `Env` holds what the repository does not implement: the clock, the database driver, the random
-- source, bcrypt, SHA-256, JWT, Google and the sender. Its operations take the number of outside
-- calls made so far, so that each call may be answered in its own way.
pub mod Runs
use passwordless_auth_servic.Prelude.{ℕ, suc, String, Bool, Option, none, some, List, ◌∷◌, [], ◌++◌}
use passwordless_auth_servic.Auth.Domain.{
  Time, Uuid, Account, Verification, Session, AuditEvent, GoogleIdentity,
}
use passwordless_auth_servic.Auth.Failure.{Error, Result, ok, err, opaque}

-- The four tables of migrations/, in the order of insertion.
pub record Db : Type 0 where
  pub accounts : List Account
  pub verifications : List Verification
  pub sessions : List Session
  pub audit_events : List AuditEvent

-- How a call of the database driver ends: with an answer, with an error before it took effect, or
-- with an error after it took effect (a lost connection).
pub data Outcome : Type 0 where
  answered failed lost : Outcome

-- The claims of a pending-link token. Its times are whole seconds in a JWT.
pub record LinkClaims : Type 0 where
  pub subject : String
  pub email : String
  pub issued_at : Time
  pub expires_at : Time

-- What a key function sees of a parsed token: whether its `alg` is an HMAC one.
pub record Token : Type 0 where
  pub method_is_hmac : Bool

pub record Env : Type 0 where
  pub now : ℕ → Time
  pub driver : ℕ → Outcome
  -- `rand.Int` below 1_000_000, and 32 bytes of `rand.Reader` in base64; `none` is an error
  pub random_int : ℕ → Option ℕ
  pub random_token : ℕ → Option String
  pub new_uuid : ℕ → Uuid
  -- `uuid.UUID.String` and `uuid.Parse`
  pub uuid_string : Uuid → String
  pub parse_uuid : String → Option Uuid
  -- bcrypt salts each hash, so that it depends on the call
  pub generate_from_password : ℕ → String → Option String
  pub compare_hash_and_password : String → String → Bool
  -- SHA-256 in hexadecimal
  pub sum256 : String → String
  -- `VerificationSender.SendCode`; `some e` is an error
  pub send_code : ℕ → String → String → Option Error
  -- `IdentityVerifier.Verify`
  pub verify_identity : ℕ → String → Result GoogleIdentity
  -- `SignedString` of an HS256 token, and `jwt.ParseWithClaims` with a key function and a time
  pub signed_string : String → LinkClaims → Option String
  pub parse_with_claims : String → (Token → Option String) → Time → Option LinkClaims

-- `outbox` lists the calls of the sender, the latest first.
pub record World : Type 0 where
  pub db : Db
  pub calls : ℕ
  pub outbox : List (String × String)

-- What was done before an error stays done, so the world comes back beside the error too.
abbrev pub Exec {ℓ} : Type ℓ → Type ℓ
Exec A = World → Result A × World

module _ {ℓ} {A : Type ℓ} where
  abbrev pub pure : A → Exec A
  pure a w = (ok a, w)

  abbrev pub raise : Error → Exec A
  raise e w = (err e, w)

  -- `x, err := m()`, with the error as a value
  abbrev pub attempt : Exec A → Exec (Result A)
  attempt m w = let (r, w') = m w in (ok r, w')

  abbrev pub lift : Result A → Exec A
  lift r w = (r, w)

  abbrev pub with_error : (Error → Error) → Result A → Result A
  with_error f (ok a) = ok a
  with_error f (err e) = err (f e)

  -- `if err != nil { return f(err) }`
  abbrev pub on_error : (Error → Error) → Exec A → Exec A
  on_error f m w = let (r, w') = m w in (with_error f r, w')

  -- An outside call whose answer depends on how many there were.
  abbrev pub observe : (ℕ → A) → Exec A
  observe f w = (ok (f w.calls), record w { calls = suc w.calls })

  abbrev pub or_raise : Error → Option A → Exec A
  or_raise e none = raise e
  or_raise e (some a) = pure a

module _ {ℓ κ} {A : Type ℓ} {B : Type κ} where
  abbrev pub continue : (A → Exec B) → Result A → World → Result B × World
  continue f (ok a) w = f a w
  continue f (err e) w = (err e, w)

  infixl 5 ◌>>=◌
  abbrev pub ◌>>=◌ : Exec A → (A → Exec B) → Exec B
  ◌>>=◌ m f w = let (r, w') = m w in continue f r w'

infixl 5 ◌>>◌
abbrev pub ◌>>◌ {ℓ} : {B : Type ℓ} → Exec (Unit {0}) → Exec B → Exec B
m >> k = m >>= λ _. k
