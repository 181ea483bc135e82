-- ===== src/Tests/UseCases.antt =====
-- The theorems on the use cases, at the concrete deployment.
use passwordless_auth_servic.Prelude.{
  ℕ, any, inl, arith, if◌then◌else◌, String, true, false, none, find, some, ◌≡◌, refl, ◌⊎◌,
}
use passwordless_auth_servic.Auth.Domain.{
  GoogleIdentity, Account, Verification, Session, signup, role_athlete, language_english,
}
use passwordless_auth_servic.Auth.Failure.{Result, ok, err, sentinel, no_session}
use passwordless_auth_servic.Auth.Phone.{
  normalize_phone, is_space, trim_space, remove_all, cut_prefix, strip_prefix, every_digit,
  is_all_digits,
}
use passwordless_auth_servic.Auth.Verification.{is_locked, is_expired, mark_verified}
use passwordless_auth_servic.Platform.Access.{Principal}
use passwordless_auth_servic.Platform.World.{Env, World, answered}
use passwordless_auth_servic.Platform.Uow.{in_tx}
use passwordless_auth_servic.Postgres.Driver.{counted}
use passwordless_auth_servic.Postgres.Accounts
use passwordless_auth_servic.Postgres.Verifications
use passwordless_auth_servic.Postgres.Sessions
use passwordless_auth_servic.Postgres.Accounts.{account_list, has_subject}
use passwordless_auth_servic.Postgres.Verifications.{
  sends_since, has_id, find_latest, locked_phone_rows, locked_map,
}
use passwordless_auth_servic.Postgres.Sessions.{session_clashes, has_token_hash}
use passwordless_auth_servic.Auth.Service.{hash_token, format_otp, new_session_token, fresh_session}
use passwordless_auth_servic.Auth.Service.Request.{
  RequestVerificationParams, new_verification, request_verification,
}
use passwordless_auth_servic.Auth.Service.Request.Sending.{Stays}
use passwordless_auth_servic.Auth.Service.Request.Guards.{Eligible}
use passwordless_auth_servic.Auth.Service.Request.Progress.{Delivers, request_verification_succeeds}
use passwordless_auth_servic.Auth.Service.Request.Outcomes.{Ends, request_verification_cases}
use passwordless_auth_servic.Auth.Service.Confirm.{
  ConfirmResult, new_account, route_of, confirm_failure, duplicate_account, create_account,
  resolve_account, settle, complete, confirm_loaded, confirm_verification,
}
use passwordless_auth_servic.Auth.Service.Confirm.Outcomes.{
  Accepts, Refuses, Grants, confirm_verification_cases,
}
use passwordless_auth_servic.Auth.Service.Confirm.Progress.{confirm_signin_succeeds}
use passwordless_auth_servic.Auth.Service.Google.{GoogleExchangeResult, google_exchange}
use passwordless_auth_servic.Auth.Service.Google.Outcomes.{
  Declines, Resumes, Offers, google_exchange_cases,
}
use passwordless_auth_servic.Auth.Service.Resend.{resend_verification}
use passwordless_auth_servic.Auth.Service.Resend.Outcomes.{
  Caps, Resendable, Resends, resend_verification_cases,
}
use passwordless_auth_servic.Auth.Service.Sessions.{validate_session}
use passwordless_auth_servic.Auth.Service.Sessions.Progress.{validate_session_stored}
use passwordless_auth_servic.Auth.Session.{is_valid}
use passwordless_auth_servic.Auth.Service.Sessions.Outcomes.{
  Denies, Admits, principal_of, validate_session_cases,
}
use passwordless_auth_servic.Tests.{
  calm, noon, service, alice, alice_session, alice_challenge, returning, shop,
}

abbrev confirmed : Result ConfirmResult × World
confirmed = confirm_verification calm 1 "123456" shop

confirm_verification_cases_example :
    Refuses shop confirmed
    ⊎ ((v : Verification) × (find (has_id 1) shop.db.verifications ≡ some v)
        × Accepts calm v noon "123456"
        × Grants calm v noon shop confirmed)
confirm_verification_cases_example = confirm_verification_cases calm 1 "123456" shop

abbrev granted : ConfirmResult
granted = record {
  session_token = "token";
  account = record {
    id = 105;
    role = role_athlete;
    phone = "+201098765432";
    google_subject = none;
    google_email = none;
    preferred_language = language_english;
    created_at = noon;
  };
  route = "onboarding";
}

grants : confirmed ≡ (ok granted, confirmed.1)
unfolding confirm_verification confirm_loaded complete settle resolve_account create_account
    new_account route_of confirm_failure duplicate_account Verifications.get Verifications.save
    Sessions.create Accounts.create new_session_token fresh_session hash_token is_locked is_expired
    mark_verified in_tx
grants = refl

answers : (k : ℕ) → calm.driver k ≡ answered
answers k = refl

accepts : Accepts calm alice_challenge noon "123456"
unfolding is_locked is_expired
accepts = (refl, refl, refl, refl)

free_session :
    any
      (session_clashes (record (fresh_session 103 "token" noon) { account_id = 7 }))
      returning.db.sessions
    ≡ false
unfolding fresh_session
free_session = refl

confirm_signin_succeeds_example :
    (confirm_verification calm 4 "123456" returning).0
    ≡ ok (record { session_token = "token"; account = alice; route = "home" })
confirm_signin_succeeds_example =
    confirm_signin_succeeds calm answers 4 "123456" "token" returning alice_challenge alice refl
      accepts refl refl refl free_session

abbrev newcomer : RequestVerificationParams
newcomer = record {
  intent = signup;
  phone = "0105 555-5555";
  role = role_athlete;
  language = language_english;
  google_link_token = none;
}

abbrev requested : Result Verification × World
requested = request_verification calm service newcomer shop

request_verification_cases_example :
    Stays shop requested
    ⊎ ((phone : String) × (normalize_phone "0105 555-5555" ≡ ok phone)
        × Ends calm service newcomer phone shop noon requested)
request_verification_cases_example = request_verification_cases calm service newcomer shop

newcomer_normalizes : normalize_phone newcomer.phone ≡ ok "+201055555555"
unfolding normalize_phone is_space trim_space remove_all cut_prefix strip_prefix every_digit
    is_all_digits
newcomer_normalizes = refl

newcomer-Eligible : Eligible newcomer "+201055555555" noon shop.db
unfolding find_latest sends_since
newcomer-Eligible = (inl (refl, refl), inl refl, omega arith)

newcomer-Delivers :
    Delivers calm "+201055555555" 42 "000042" (counted (counted (counted (counted shop))))
unfolding format_otp
newcomer-Delivers = (refl, refl, refl, refl)

request_verification_succeeds_example :
    (request_verification calm service newcomer shop).0
    ≡ ok (new_verification newcomer "+201055555555" none 107 "000042" noon)
request_verification_succeeds_example =
    request_verification_succeeds calm answers service newcomer "+201055555555" 42 "000042" shop
      newcomer_normalizes refl newcomer-Eligible newcomer-Delivers

abbrev resent : Result Verification × World
resent = resend_verification calm 1 shop

resend_verification_cases_example :
    Stays shop resent
    ⊎ ((v : Verification) × (find (has_id 1) shop.db.verifications ≡ some v)
        × (Caps v noon shop resent ⊎ (Resendable v noon × Resends calm v noon shop resent)))
resend_verification_cases_example = resend_verification_cases calm 1 shop

abbrev validated : Result Principal × World
validated = validate_session calm "old" shop

validate_session_cases_example :
    Denies shop.db validated
    ⊎ ((sess : Session) × (find (has_token_hash (hash_token calm "old")) shop.db.sessions
          ≡ some sess)
        × Admits calm sess noon shop validated)
validate_session_cases_example = validate_session_cases calm "old" shop

old_stored : find (has_token_hash (hash_token calm "old")) shop.db.sessions ≡ some alice_session
unfolding hash_token
old_stored = refl

validate_session_stored_example : (validate_session calm "old" shop).0 ≡ (
    if is_valid alice_session noon then ok (principal_of calm alice) else err (sentinel no_session))
validate_session_stored_example =
    validate_session_stored calm answers "old" shop alice_session alice old_stored refl

abbrev carol : GoogleIdentity
carol = record { subject = "carol"; email = "carol@example.com"; email_verified = true }

-- The same deployment, with an identity that Google vouches for.
abbrev vouching : Env
vouching = record calm { verify_identity = λ _ _. ok carol }

abbrev exchanged : Result GoogleExchangeResult × World
exchanged = google_exchange vouching service "id token" none shop

google_exchange_cases_example :
    Declines shop.db exchanged
    ⊎ ((identity : GoogleIdentity) × (vouching.verify_identity 0 "id token" ≡ ok identity)
        × (((a : Account) × (find (has_subject identity.subject) shop.db.accounts ≡ some a)
              × Resumes vouching a noon shop.db exchanged)
            ⊎ ((find (has_subject identity.subject) shop.db.accounts ≡ none)
                × Offers vouching service identity noon shop.db exchanged)))
google_exchange_cases_example = google_exchange_cases vouching service "id token" none shop
