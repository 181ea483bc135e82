-- ===== src/Auth/Service/Request/Progress.antt =====
-- What a request for a code needs to go through.
use passwordless_auth_servic.Prelude.{
  ℕ, suc, ◌-◌, ◌<◌, String, Bool, true, false, Option, none, some, any, leb, ◌≡◌, refl, ◌⊎◌, inl,
  inr, arith, Option-cases,
}
use passwordless_auth_servic.Auth.Domain.{
  Time, Account, Verification, Intent, signup, signin, other, is_signup, intent_valid,
  send_cap_window, max_sends_per_window,
}
use passwordless_auth_servic.Auth.Failure.{Result, ok, err, sentinel, not_found, errors_is}
use passwordless_auth_servic.Auth.Phone.{normalize_phone}
use passwordless_auth_servic.Platform.World.{Env, World, answered}
use passwordless_auth_servic.Postgres.Driver.{counted}
use passwordless_auth_servic.Postgres.Verifications
use passwordless_auth_servic.Postgres.Verifications.{has_id, find_latest, sends_since}
use passwordless_auth_servic.Postgres.Answered.{
  find_by_phone_answered, find_by_phone_missing, find_latest_answered, find_latest_missing,
  count_sends_answered, create_verification_answered,
}
use passwordless_auth_servic.Auth.Service.{Service, format_otp, generate_otp, hash_code, send_code}
use passwordless_auth_servic.Auth.Service.Request.{
  RequestVerificationParams, check_account, check_latest, new_verification, redeem, pending_link,
  send_fresh, send_within_cap, from_latest, from_clock, request_for, request_verification,
}
use passwordless_auth_servic.Auth.Service.Request.Sending.{handed}
use passwordless_auth_servic.Auth.Service.Request.Guards.{registered, AccountFits, IsFree, Eligible}

AccountFits-valid :
    (intent : Intent) (row : Option Account) → AccountFits intent row → intent_valid intent ≡ true
unfolding intent_valid
AccountFits-valid signup row fits = refl
AccountFits-valid signin row fits = refl
AccountFits-valid (other _) row fits = ground arith

check_account_passes :
    (intent : Intent) (r : Result Account) (u : World)
    → AccountFits intent (elim r [ ok a ↦ some a | err _ ↦ none ])
    → (r ≡ err (sentinel not_found)) ⊎ ((a : Account) × (r ≡ ok a))
    → check_account intent r u ≡ (ok tt, u)
unfolding check_account errors_is
check_account_passes intent r u fits seen = ground arith

-- From here the random source, bcrypt and the sender do not fail, and the new id is not taken.
abbrev pub Delivers : Env → String → ℕ → String → World → Type 0
Delivers env phone n h w =
    (env.random_int w.calls ≡ some n)
    × (env.generate_from_password (suc w.calls) (format_otp n) ≡ some h)
    × (env.send_code (suc (suc w.calls)) phone (format_otp n) ≡ none)
    × (any (has_id (env.new_uuid (suc (suc (suc w.calls))))) w.db.verifications ≡ false)

module _ (env : Env) (answers : (k : ℕ) → env.driver k ≡ answered)
    (params : RequestVerificationParams) (phone : String) where
  unlinked :
      (b : Bool) (s : Service) (now : Time) (u : World) → redeem env s now b none u ≡ (ok none, u)
  unfolding redeem
  unlinked true s now u = refl
  unlinked false s now u = refl

  unlinked_pending :
      params.google_link_token ≡ none
      → (s : Service) (now : Time) (u : World) → pending_link env s params now u ≡ (ok none, u)
  unfolding pending_link
  unlinked_pending plain s now u = rw plain (unlinked (is_signup params.intent) s now u)

  send_fresh_answered :
      (now : Time) (n : ℕ) (h : String) (w : World)
      → Delivers env phone n h w
      → (send_fresh env params phone none now w).0
        ≡ ok (new_verification params phone none (env.new_uuid (suc (suc (suc w.calls)))) h now)
  unfolding send_fresh generate_otp hash_code send_code new_verification
  send_fresh_answered now n h w (drawn, hashed, sent, free) =
      let v = new_verification params phone none (env.new_uuid (suc (suc (suc w.calls)))) h now in
      let made =
        create_verification_answered env answers
          (counted (handed env phone (format_otp n) (counted (counted w)))) v free in
      rw (drawn, hashed, sent) (rw made refl)

  within_cap_answered :
      (latest : Option Verification) (now : Time) (n : ℕ) (h : String) (w : World)
      → sends_since phone (now - send_cap_window) w.db < max_sends_per_window
      → Delivers env phone n h (counted w)
      → (send_within_cap env params phone none latest now w).0
        ≡ ok (
            new_verification params phone none (env.new_uuid (suc (suc (suc (suc w.calls))))) h now)
  unfolding send_within_cap
  within_cap_answered latest now n h w below ready =
      let few : leb max_sends_per_window (sends_since phone (now - send_cap_window) w.db) ≡ false =
        ground arith in
      rw (count_sends_answered env answers w phone (now - send_cap_window), few)
        (send_fresh_answered now n h (counted w) ready)

  from_latest_answered :
      (now : Time) (n : ℕ) (h : String) (w : World)
      → IsFree now (find_latest phone w.db)
      → sends_since phone (now - send_cap_window) w.db < max_sends_per_window
      → Delivers env phone n h (counted (counted w))
      → let (r, u) = Verifications.find_latest_by_phone env phone w in
        (from_latest env params phone none now r u).0
        ≡ ok (
            new_verification params phone none
              (env.new_uuid (suc (suc (suc (suc (suc w.calls))))))
              h
              now)
  unfolding from_latest check_latest errors_is
  from_latest_answered now n h w (inl missing) below ready =
      rw (find_latest_missing env answers w phone missing)
        (within_cap_answered none now n h (counted w) below ready)
  from_latest_answered now n h w (inr (v, there, unlocked, cooled)) below ready =
      rw (find_latest_answered env answers w phone there, unlocked, cooled)
        (within_cap_answered (some v) now n h (counted w) below ready)

  from_clock_answered :
      (s : Service) (n : ℕ) (h : String) (w : World)
      → params.google_link_token ≡ none
      → IsFree (env.now w.calls) (find_latest phone w.db)
      → sends_since phone (env.now w.calls - send_cap_window) w.db < max_sends_per_window
      → Delivers env phone n h (counted (counted (counted w)))
      → (from_clock env s params phone w).0
        ≡ ok (
            new_verification params phone none
              (env.new_uuid (suc (suc (suc (suc (suc (suc w.calls)))))))
              h
              (env.now w.calls))
  unfolding from_clock
  from_clock_answered s n h w plain free below ready =
      rw (unlinked_pending plain s (env.now w.calls) (counted w))
        (from_latest_answered (env.now w.calls) n h (counted w) free below ready)

  request_for_answered :
      (s : Service) (n : ℕ) (h : String) (w : World)
      → params.google_link_token ≡ none
      → Eligible params phone (env.now (suc w.calls)) w.db
      → Delivers env phone n h (counted (counted (counted (counted w))))
      → (request_for env s params phone w).0
        ≡ ok (
            new_verification params phone none
              (env.new_uuid (suc (suc (suc (suc (suc (suc (suc w.calls))))))))
              h
              (env.now (suc w.calls)))
  unfolding request_for
  request_for_answered s n h w plain (fits, free, below) ready =
      let rest = from_clock_answered s n h (counted w) plain free below ready in
      elim (Option-cases (registered phone w.db)) [
        | inl missing ↦
            rw
              (
                find_by_phone_missing env answers w phone missing,
                check_account_passes params.intent (err (sentinel not_found)) (counted w)
                    (rw missing at fits) (inl refl),
              )
              rest
        | inr (a, there) ↦
            rw
              (
                find_by_phone_answered env answers w phone there,
                check_account_passes params.intent (ok a) (counted w) (rw there at fits)
                    (inr (a, refl)),
              )
              rest
      ]

-- On a database that answers, a request for a code without a link token goes through: if the phone
-- normalises, is eligible, the random source, bcrypt and the sender do not fail, and the new id is not
-- taken, then the result is the new challenge.
pub request_verification_succeeds :
    (env : Env) (answers : (k : ℕ) → env.driver k ≡ answered) (s : Service)
    (params : RequestVerificationParams) (phone : String) (n : ℕ) (h : String) (w : World)
    → normalize_phone params.phone ≡ ok phone
    → params.google_link_token ≡ none
    → Eligible params phone (env.now (suc w.calls)) w.db
    → Delivers env phone n h (counted (counted (counted (counted w))))
    → (request_verification env s params w).0
      ≡ ok (
          new_verification params phone none
            (env.new_uuid (suc (suc (suc (suc (suc (suc (suc w.calls))))))))
            h
            (env.now (suc w.calls)))
unfolding request_verification
request_verification_succeeds env answers s params phone n h w written plain eligible ready =
    rw (AccountFits-valid params.intent (registered phone w.db) eligible.0, written)
      (request_for_answered env answers params phone s n h w plain eligible ready)
