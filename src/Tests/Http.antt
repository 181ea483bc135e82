-- ===== src/Tests/Http.antt =====
-- The theorems on the mounted operations, at the concrete deployment.
use passwordless_auth_servic.Prelude.{
  ℕ, ◌+◌, ◌≤◌, String, false, none, List, [], ◌∷◌, ◌≡◌, ◌≢◌, refl, arith, ◌⊎◌,
}
use passwordless_auth_servic.Auth.Domain.{signin}
use passwordless_auth_servic.Auth.Failure.{ok, wrapped, opaque}
use passwordless_auth_servic.Auth.Verification.{is_locked, is_expired, mark_verified}
use passwordless_auth_servic.Auth.Session.{is_valid, extend, needs_extension}
use passwordless_auth_servic.Platform.World.{World, answered}
use passwordless_auth_servic.Platform.Uow.{in_tx}
use passwordless_auth_servic.Platform.HttpServer.{warns}
use passwordless_auth_servic.Platform.Access.{
  handled, bearer_token, session_middleware, context_with_principal,
}
use passwordless_auth_servic.Auth.Phone.{cut_prefix}
use passwordless_auth_servic.Postgres.Accounts
use passwordless_auth_servic.Postgres.Verifications
use passwordless_auth_servic.Postgres.Sessions
use passwordless_auth_servic.Postgres.Integrity.{IsSound}
use passwordless_auth_servic.Auth.Service.{hash_token, new_session_token, fresh_session}
use passwordless_auth_servic.Auth.Service.Request.{RequestVerificationParams}
use passwordless_auth_servic.Auth.Service.Confirm.{
  ConfirmResult, route_of, confirm_failure, existing_account, resolve_account, settle, complete,
  confirm_loaded, confirm_verification,
}
use passwordless_auth_servic.Auth.Service.Sessions.{validate_session, revoke_session, admit, touch}
use passwordless_auth_servic.Auth.Service.Sessions.Gate.{Rejects}
use passwordless_auth_servic.Auth.HttpError.{to_http_error}
use passwordless_auth_servic.Auth.HttpError.Typed.{Typed, to_http_error-Typed}
use passwordless_auth_servic.Auth.Handler.{
  reply, account_output, delete_session, get_session, trim_bearer, behind_session,
}
use passwordless_auth_servic.Auth.Handler.Routes.{
  Request, request_code, read_session, sign_out, clear_lock, background, serve, serve_all,
}
use passwordless_auth_servic.Auth.Handler.Integrity.{serve_all-IsIntact}
use passwordless_auth_servic.Postgres.Integrity.Keys.{IsIntact, IsSound-IsIntact}
use passwordless_auth_servic.Postgres.Integrity.Retained.{Retained}
use passwordless_auth_servic.Auth.Handler.SignOut.{sign_out_ends}
use passwordless_auth_servic.Auth.Handler.Entry.{confirm_then_get_session}
use passwordless_auth_servic.Auth.Handler.Unlock.{Unlocks, serve-clear_lock}
use passwordless_auth_servic.Auth.Handler.Costs.{serve_quiet}
use passwordless_auth_servic.Tests.{calm, service, alice, returning, shop}

pub shop-IsSound : IsSound shop.db
shop-IsSound = record {
  accounts_distinct = (refl, tt);
  verifications_distinct = (refl, (refl, tt));
  sessions_distinct = (refl, tt);
  events_distinct = tt;
  sessions_owned = (refl, tt);
  events_owned = tt;
}

pub returning-IsSound : IsSound returning.db
returning-IsSound = record {
  accounts_distinct = (refl, tt);
  verifications_distinct = (refl, tt);
  sessions_distinct = (refl, tt);
  events_distinct = tt;
  sessions_owned = (refl, tt);
  events_owned = tt;
}

abbrev asked : RequestVerificationParams
asked = record {
  intent = signin;
  phone = "01012345678";
  role = "";
  language = "";
  google_link_token = none;
}

abbrev day : List Request
day = request_code asked ∷ read_session "Bearer old" ∷ clear_lock "Bearer key" "uuid" ∷ []

shop-IsIntact : IsIntact shop.db
shop-IsIntact = IsSound-IsIntact shop.db shop-IsSound

serve_all-IsIntact_example :
    IsIntact (serve_all calm service day shop).db
    × Retained shop.db.accounts shop.db.audit_events (serve_all calm service day shop).db
serve_all-IsIntact_example = serve_all-IsIntact calm service day shop shop-IsIntact

acknowledged :
    (behind_session calm (λ _. delete_session calm "Bearer old") "Bearer old" background shop).0
    ≡ handled (reply 204 tt)
unfolding session_middleware bearer_token cut_prefix validate_session admit touch is_valid extend
    needs_extension hash_token Sessions.find_by_token_hash Sessions.save Accounts.find_by_id
    delete_session trim_bearer revoke_session Sessions.revoke_by_token_hash context_with_principal
acknowledged = refl

sign_out_ends_example : Rejects (
    behind_session calm
      (get_session calm)
      "Bearer old"
      background
      (serve_all calm service day (serve calm service (sign_out "Bearer old") shop)))
sign_out_ends_example =
    sign_out_ends calm service "Bearer old" shop day (get_session calm) acknowledged

answers : (k : ℕ) → calm.driver k ≡ answered
answers k = refl

abbrev entered : ConfirmResult
entered = record { session_token = "token"; account = alice; route = "home" }

pub enters : (confirm_verification calm 4 "123456" returning).0 ≡ ok entered
unfolding confirm_verification confirm_loaded complete settle resolve_account existing_account
    route_of confirm_failure Verifications.get Verifications.save Sessions.create
    Accounts.find_by_phone new_session_token fresh_session hash_token is_locked is_expired
    mark_verified in_tx
enters = refl

abbrev inside : World
inside = (confirm_verification calm 4 "123456" returning).1

token_given : ◌≢◌ {A = String} "token" ""
token_given e = cc

confirm_then_get_session_example :
    (behind_session calm (get_session calm) "Bearer token" background inside).0
    ≡ handled (reply 200 (account_output calm alice))
confirm_then_get_session_example =
    confirm_then_get_session calm answers 4 "123456" returning inside entered returning-IsSound refl
      token_given enters refl (omega arith)

serve-clear_lock_example :
    let u = serve calm service (clear_lock "Bearer key" "uuid") shop in
    (u.db ≡ shop.db) ⊎ Unlocks calm service "Bearer key" "uuid" shop u.db
serve-clear_lock_example = serve-clear_lock calm service "Bearer key" "uuid" shop

six_calls : (serve calm service (sign_out "Bearer old") shop).calls ≡ 6
unfolding session_middleware bearer_token cut_prefix validate_session admit touch is_valid extend
    needs_extension hash_token Sessions.find_by_token_hash Sessions.save Accounts.find_by_id
    delete_session trim_bearer revoke_session Sessions.revoke_by_token_hash context_with_principal
    serve
six_calls = refl

six_statements : shop.calls + 6 ≤ (serve calm service (sign_out "Bearer old") shop).calls
six_statements = omega (arith, six_calls)

serve_quiet_example :
    ((serve calm service (sign_out "Bearer old") shop).calls ≤ shop.calls + 10) × (warns 6 ≡ false)
serve_quiet_example = serve_quiet calm service (sign_out "Bearer old") shop 6 six_statements

to_http_error-Typed_example : Typed (to_http_error (wrapped "auth: request" (opaque "timeout")))
to_http_error-Typed_example = to_http_error-Typed (wrapped "auth: request" (opaque "timeout"))
