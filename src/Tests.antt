-- ===== src/Tests.antt =====
-- A concrete deployment, on which the properties are applied in the child modules: a toy hash, a clock
-- that stands still, a database that always answers, one registered account with a session and a
-- locked challenge, and one open signup challenge.
pub mod UseCases
pub mod Administration
pub mod Rules
pub mod Http
pub mod Life
pub mod Outside
pub mod Identity
pub mod Statuses
use passwordless_auth_servic.Prelude.{
  ℕ, ◌+◌, ◌-◌, ◌*◌, String, none, some, if◌then◌else◌, List, [], ◌∷◌, str_eq,
}
use passwordless_auth_servic.Auth.Domain.{
  Time, Account, Verification, Session, signup, signin, pending, locked, minute, hour, role_athlete,
  language_english,
}
use passwordless_auth_servic.Auth.Failure.{err, opaque}
use passwordless_auth_servic.Auth.Service.{Service}
use passwordless_auth_servic.Platform.World.{Env, World, answered}

abbrev pub noon : Time
noon = 5000 * hour

abbrev pub calm : Env
calm = record {
  now = λ _. noon;
  driver = λ _. answered;
  random_int = λ _. some 42;
  random_token = λ _. some "token";
  new_uuid = λ k. 100 + k;
  uuid_string = λ _. "uuid";
  parse_uuid = λ text. if str_eq text "uuid" then some 7 else none;
  generate_from_password = λ _ code. some code;
  compare_hash_and_password = str_eq;
  sum256 = λ token. token;
  send_code = λ _ _ _. none;
  verify_identity = λ _ _. err (opaque "google");
  signed_string = λ _ _. some "jwt";
  parse_with_claims = λ _ _ _. none;
}

abbrev pub service : Service
service = record { link_secret = "secret"; admin_api_key = "key"; admin_id = "root" }

abbrev pub alice : Account
alice = record {
  id = 7;
  role = role_athlete;
  phone = "+201012345678";
  google_subject = none;
  google_email = none;
  preferred_language = language_english;
  created_at = noon - 100 * hour;
}

abbrev pub open_challenge : Verification
open_challenge = record {
  id = 1;
  phone = "+201098765432";
  intent = signup;
  code_hash = "123456";
  pending_role = role_athlete;
  pending_language = language_english;
  pending_google_subject = none;
  pending_google_email = none;
  sent_at = noon - 5 * minute;
  expires_at = noon + 5 * minute;
  failed_attempts = 0;
  sends_in_window = 1;
  locked_until = none;
  status = pending;
}

abbrev pub locked_challenge : Verification
locked_challenge = record open_challenge {
  id = 2;
  phone = "+201012345678";
  intent = signin;
  failed_attempts = 5;
  locked_until = some (noon + 25 * minute);
  status = locked;
}

abbrev pub alice_challenge : Verification
alice_challenge = record open_challenge { id = 4; phone = "+201012345678"; intent = signin }

abbrev pub alice_session : Session
alice_session = record {
  id = 3;
  account_id = 7;
  token_hash = "old";
  device_label = none;
  created_at = noon - 48 * hour;
  last_active_at = noon - 48 * hour;
  expires_at = noon + 58 * 24 * hour;
  revoked_at = none;
}

abbrev pub shop : World
shop = record {
  db = record {
    accounts = alice ∷ [];
    verifications = open_challenge ∷ locked_challenge ∷ [];
    sessions = alice_session ∷ [];
    audit_events = [];
  };
  calls = 0;
  outbox = [];
}

-- The same, with an open signin challenge for the registered account.
abbrev pub returning : World
returning = record shop { db = record shop.db { verifications = alice_challenge ∷ [] } }
