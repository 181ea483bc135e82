-- ===== src/Tests/Statuses.antt =====
-- The theorem on the statuses of the operations, at a concrete deployment whose ids are tallies.
use Prim.Native.String as Text
use passwordless_auth_servic.Prelude.{[], ◌∷◌, ℕ, zero, suc, String, true, some, ◌≡◌, refl, ap}
use passwordless_auth_servic.Auth.Domain.{signup}
use passwordless_auth_servic.Auth.HttpError.Statuses.{is_listed}
use passwordless_auth_servic.Auth.Failure.{as_incorrect_code, as_locked}
use passwordless_auth_servic.Auth.Phone.{normalize_phone}
use passwordless_auth_servic.Auth.HttpError.{to_http_error, other_error}
use passwordless_auth_servic.Postgres.Accounts
use passwordless_auth_servic.Postgres.Verifications
use passwordless_auth_servic.Platform.Uow.{in_tx}
use passwordless_auth_servic.Auth.Verification.{is_locked, is_expired}
use passwordless_auth_servic.Auth.Service.{new_session_token}
use passwordless_auth_servic.Auth.Service.Confirm.{
  confirm_verification, confirm_loaded, complete, settle, resolve_account, new_account,
}
use passwordless_auth_servic.Auth.Handler.{post_verification, post_confirm}
use passwordless_auth_servic.Auth.Service.Request.{
  request_verification, request_for, check_account, from_clock, pending_link,
}
use passwordless_auth_servic.Platform.World.{World, Env}
use passwordless_auth_servic.Platform.Uow.Raises.{Names-opaque}
use passwordless_auth_servic.Auth.Service.Raises.{SenderIsForeign}
use passwordless_auth_servic.Auth.Service.Raises.Accounts.{VerifierBlamesGoogle}
use passwordless_auth_servic.Auth.Handler.Routes.{Request, confirm_code, request_code}
use passwordless_auth_servic.Auth.Handler.Operations.{serve_status}
use passwordless_auth_servic.Auth.Handler.Operations.Statuses.{answers_of, serve_status-declared}
use passwordless_auth_servic.Tests.{calm, alice, service, shop}

abbrev tally : ℕ → String
tally zero = ""
tally (suc n) = Text.◌∷◌ "|" (tally n)

abbrev tally_count : String → ℕ
tally_count Text.[] = 0
tally_count (Text.◌∷◌ _ text) = suc (tally_count text)

abbrev tallied : Env
tallied = record calm { uuid_string = tally; parse_uuid = λ text. some (tally_count text) }

counted_back : (n : ℕ) → tally_count (tally n) ≡ n
counted_back zero = refl
counted_back (suc n) = ap suc (counted_back n)

tallied-SenderIsForeign : SenderIsForeign tallied
tallied-SenderIsForeign k phone code e failed = absurd (cc)

tallied-VerifierBlamesGoogle : VerifierBlamesGoogle tallied
tallied-VerifierBlamesGoogle k id_token = Names-opaque "google"

-- A signup whose link token nobody signed.
abbrev forged_link : Request
forged_link = request_code (record {
  intent = signup;
  phone = "01098765432";
  role = "athlete";
  language = "en";
  google_link_token = some "forged";
})

serve_status-declared_example :
    is_listed (answers_of forged_link) (serve_status tallied service forged_link shop) ≡ true
serve_status-declared_example =
    serve_status-declared tallied tallied-SenderIsForeign tallied-VerifierBlamesGoogle
      (λ id. ap some (counted_back id)) service forged_link shop

-- The link token is refused with a status that request-verification does not declare.
forged_link_401 : serve_status tallied service forged_link shop ≡ 401
unfolding serve_status post_verification request_verification normalize_phone request_for
    check_account Accounts.find_by_phone from_clock pending_link to_http_error as_incorrect_code
    as_locked other_error
forged_link_401 = refl

-- The phone of the challenge was registered in the meantime.
abbrev overtaken : World
overtaken = record shop {
  db = record shop.db { accounts = record alice { phone = "+201098765432" } ∷ [] };
}

-- Its confirm is refused with a status that confirm-verification does not declare.
overtaken_409 : serve_status tallied service (confirm_code "|" "123456") overtaken ≡ 409
unfolding serve_status post_confirm confirm_verification Verifications.get confirm_loaded is_locked
    is_expired complete new_session_token in_tx settle resolve_account Accounts.create new_account
    to_http_error
overtaken_409 = refl
