-- ===== src/Tests/Life.antt =====
-- The theorems on the life of a challenge, at the concrete deployment.
use passwordless_auth_servic.Prelude.{◌+◌, ◌≤◌, String, none, some, List, [], ◌∷◌, ◌≡◌, refl, arith}
use passwordless_auth_servic.Auth.Domain.{Time, Verification, signin}
use passwordless_auth_servic.Auth.Verification.{is_locked, is_expired}
use passwordless_auth_servic.Auth.Verification.Life.{administrator, IsOpen, Life}
use passwordless_auth_servic.Auth.Verification.Life.Bounds.{AreSane}
use passwordless_auth_servic.Postgres.Challenges.{challenge}
use passwordless_auth_servic.Auth.Service.Request.{RequestVerificationParams}
use passwordless_auth_servic.Auth.Service.Confirm.{confirm_verification}
use passwordless_auth_servic.Auth.Service.Confirm.Outcomes.{Refuses}
use passwordless_auth_servic.Auth.Service.Confirm.Overlap.{
  finish_all, overlapping_guesses_undercount,
}
use passwordless_auth_servic.Auth.Handler.Routes.{
  Request, request_code, resend_code, confirm_code, clear_lock, serve_all,
}
use passwordless_auth_servic.Auth.Handler.Redeemed.{redeemed_stays_closed}
use passwordless_auth_servic.Prelude.{ℕ, ◌++◌, false, any, ◌==◌, if◌then◌else◌}
use passwordless_auth_servic.Auth.Failure.{ok}
use passwordless_auth_servic.Platform.World.{Env, World, answered}
use passwordless_auth_servic.Postgres.Sessions.{session_clashes}
use passwordless_auth_servic.Auth.Verification.{mark_verified}
use passwordless_auth_servic.Platform.Uow.{in_tx}
use passwordless_auth_servic.Postgres.Accounts
use passwordless_auth_servic.Postgres.Verifications
use passwordless_auth_servic.Postgres.Sessions
use passwordless_auth_servic.Auth.Service.{new_session_token, fresh_session}
use passwordless_auth_servic.Auth.Service.Confirm.{
  complete, settle, resolve_account, confirm_loaded,
}
use passwordless_auth_servic.Auth.Service.Confirm.Outcomes.{Accepts}
use passwordless_auth_servic.Auth.Service.Confirm.Progress.{opened_session}
use passwordless_auth_servic.Auth.Service.Confirm.Twice.{home_with, overlapping_confirms_redeem}
use passwordless_auth_servic.Tests.{alice, alice_challenge}
use passwordless_auth_servic.Tests.{calm, noon, service, open_challenge, shop, returning}
use passwordless_auth_servic.Tests.Http.{returning-IsSound, enters}

abbrev again : RequestVerificationParams
again = record {
  intent = signin;
  phone = "01012345678";
  role = "";
  language = "";
  google_link_token = none;
}

abbrev rush : List Request
rush = request_code again ∷ confirm_code "uuid" "000000" ∷ clear_lock "Bearer key" "uuid" ∷ []

returning_IsSane : AreSane administrator (challenge 4 returning.db)
returning_IsSane = ground arith

abbrev retries : List Request
retries = request_code again ∷ resend_code "uuid" ∷ confirm_code "uuid" "123456" ∷ []

redeemed_stays_closed_example :
    let u = serve_all calm service retries (confirm_verification calm 4 "123456" returning).1 in
    Refuses u (confirm_verification calm 4 "123456" u)
redeemed_stays_closed_example =
    redeemed_stays_closed calm calm service 4 "123456" "123456" retries returning returning-IsSound
      returning_IsSane (refl, (refl, (refl, tt))) enters

-- Three wrong codes that have loaded the open challenge before one of them writes.
abbrev guesses : List (Time × String)
guesses = (noon, "000000") ∷ (noon, "000001") ∷ (noon, "000002") ∷ []

open_challenge-IsOpen : IsOpen open_challenge noon
unfolding is_locked is_expired
open_challenge-IsOpen = (refl, refl, refl)

overlapping_guesses_undercount_example :
    (u : Verification) × (challenge 1 (finish_all calm open_challenge guesses shop).db ≡ some u)
    × (u.failed_attempts ≤ 0 + 1)
    × (u.code_hash ≡ open_challenge.code_hash)
    × IsOpen u noon
overlapping_guesses_undercount_example =
    overlapping_guesses_undercount calm open_challenge guesses shop noon (omega arith)
      (
        (open_challenge-IsOpen, refl),
        ((open_challenge-IsOpen, refl), ((open_challenge-IsOpen, refl), tt)),
      )
      refl open_challenge-IsOpen

-- The random source yields another token for the second confirm.
abbrev drawing : Env
drawing = record calm { random_token = λ k. some (if k == 0 then "first" else "second") }

both_fit : Accepts drawing alice_challenge noon "123456"
unfolding is_locked is_expired
both_fit = (refl, refl, refl, refl)

abbrev after_first : World
after_first = (confirm_loaded drawing alice_challenge noon "123456" returning).1

drawing_answers : (k : ℕ) → drawing.driver k ≡ answered
drawing_answers k = refl

first_new :
    any
      (session_clashes (opened_session drawing alice_challenge alice noon "first" returning))
      returning.db.sessions
    ≡ false
unfolding fresh_session
first_new = refl

second_goes :
    (drawing.random_token after_first.calls ≡ some "second")
    × (any
          (session_clashes (opened_session drawing alice_challenge alice noon "second" after_first))
          after_first.db.sessions
        ≡ false)
unfolding confirm_loaded is_locked is_expired complete new_session_token in_tx settle
    resolve_account Accounts.find_by_phone Sessions.create fresh_session Verifications.save
    mark_verified
second_goes = (refl, refl)

overlapping_confirms_redeem_example :
    ((confirm_loaded drawing alice_challenge noon "123456" returning).0
      ≡ ok (home_with "first" alice))
    × ((confirm_loaded drawing alice_challenge noon "123456" after_first).0
        ≡ ok (home_with "second" alice))
    × ((confirm_loaded drawing alice_challenge noon "123456" after_first).1.db.sessions
        ≡ (returning.db.sessions
            ++ opened_session drawing alice_challenge alice noon "first" returning ∷ [])
          ++ opened_session drawing alice_challenge alice noon "second" after_first ∷ [])
overlapping_confirms_redeem_example =
    overlapping_confirms_redeem drawing drawing_answers alice_challenge alice refl noon noon
      "123456" "123456" "first" "second" returning refl both_fit both_fit refl refl first_new
      second_goes.0 second_goes.1
