-- ===== src/Auth/Service/Request/Outcomes.antt =====
-- How a request for a code ends, whatever fails on the way.
use passwordless_auth_servic.Prelude.{
  suc, ◌-◌, ◌≤◌, String, true, false, Option, none, some, ◌≡◌, refl, arith, ◌⊎◌, inl, inr,
  Bool-cases, leb,
}
use passwordless_auth_servic.Auth.Domain.{
  Time, Account, Verification, send_cap_window, max_sends_per_window, intent_valid,
}
use passwordless_auth_servic.Auth.Failure.{Error, Result, ok, err, sentinel, not_found, errors_is}
use passwordless_auth_servic.Auth.Phone.{normalize_phone}
use passwordless_auth_servic.Platform.World.{Env, World, ◌>>◌}
use passwordless_auth_servic.Platform.World.Runs.{Result-cases}
use passwordless_auth_servic.Postgres.Driver.{counted}
use passwordless_auth_servic.Postgres.Verifications.{find_latest, sends_since}
use passwordless_auth_servic.Postgres.Reads.{find_by_phone_cases, find_latest_cases}
use passwordless_auth_servic.Auth.Service.{Service}
use passwordless_auth_servic.Auth.Service.Request.{
  RequestVerificationParams, trip_send_cap, send_within_cap, check_account, from_latest, from_clock,
  request_for, request_verification,
}
use passwordless_auth_servic.Auth.Service.Request.Capping.{Locks, trip_send_cap-some, count_cases}
use passwordless_auth_servic.Auth.Service.Request.Sending.{Stays, Sends, send_fresh_cases}
use passwordless_auth_servic.Auth.Service.Request.Guards.{
  registered, AccountFits, IsFree, Eligible, Redeems, Passes, PassesLatest, check_account_cases,
  check_latest_cases, pending_link_cases,
}

-- A run that refused, met the cap, or was entitled to send.
abbrev pub Ends :
    Env
    → Service
    → RequestVerificationParams
    → String
    → World
    → Time
    → Result Verification × World
    → Type 0
Ends env s params phone w now q =
    Stays w q
    ⊎ Locks phone now w q
    ⊎ (Eligible params phone now w.db
        × ((link : Option (String × String)) × Redeems env s params now link
            × Sends env params phone link now w q))

module _ (env : Env) (s : Service) (params : RequestVerificationParams) (phone : String) where
  trip :
      (link : Option (String × String)) (latest : Option Verification) (now : Time) (w : World)
      → find_latest phone w.db ≡ latest
      → IsFree now latest
      → max_sends_per_window ≤ sends_since phone (now - send_cap_window) w.db
      → Ends env s params phone w now (trip_send_cap env latest now (counted w))
  unfolding trip_send_cap
  trip link none now w is_latest free reached = inl (refl, refl, refl)
  trip link (some v) now w is_latest (inl absent) reached = absurd (cc)
  trip link (some v) now w is_latest (inr (u, is_u, free, ready)) reached =
      let (bad, quiet, kept) = trip_send_cap-some env v now (counted w) in
      let same : u ≡ v = cc in
      inr (inl (v, is_latest, rw same at free, rw same at ready, reached, bad, quiet, kept))

  -- Behind the guards, at a world whose tables are those of the start.
  within_cap_cases :
      (link : Option (String × String)) (latest : Option Verification) (now : Time) (w : World)
      → AccountFits params.intent (registered phone w.db)
      → find_latest phone w.db ≡ latest
      → IsFree now latest
      → Redeems env s params now link
      → Ends env s params phone w now (send_within_cap env params phone link latest now w)
  unfolding send_within_cap
  within_cap_cases link latest now w fits is_latest free redeemed =
      elim (count_cases env phone (now - send_cap_window) w) [
        | inl (e, refused) ↦ rw refused (inl (refl, refl, refl))
        | inr answer ↦
            rw answer
              (elim (Bool-cases
                (leb max_sends_per_window (sends_since phone (now - send_cap_window) w.db))) [
                  | inl reached ↦ rw reached (trip link latest now w is_latest free (ground arith))
                  | inr below ↦
                      rw below (elim (send_fresh_cases env params phone link now (counted w)) [
                        | inl stays ↦ inl stays
                        | inr sends ↦
                            inr (
                              inr
                                ((fits, rw is_latest free, ground arith), (link, redeemed, sends)))
                      ])
                ])
      ]

  -- The account that a lookup which passed the first guard has seen.
  account_fits :
      (r : Result Account) (row : Option Account)
      → intent_valid params.intent ≡ true
      → ((e : Error) × (r ≡ err e)
          × (((row ≡ none) × (e ≡ sentinel not_found)) ⊎ (errors_is e not_found ≡ false)))
        ⊎ ((a : Account) × (row ≡ some a) × (r ≡ ok a))
      → Passes params.intent r
      → AccountFits params.intent row
  unfolding intent_valid
  account_fits r row valid seen passed = ground arith

  latest-IsFree :
      (now : Time) (r : Result Verification) (row latest : Option Verification)
      → ((e : Error) × (r ≡ err e)
          × (((row ≡ none) × (e ≡ sentinel not_found)) ⊎ (errors_is e not_found ≡ false)))
        ⊎ ((v : Verification) × (row ≡ some v) × (r ≡ ok v))
      → PassesLatest now r latest
      → (row ≡ latest) × IsFree now latest
  latest-IsFree now r row latest (inl (e, bad, why)) passed = (ground arith, inl (ground arith))
  latest-IsFree now r row latest (inr (v, is_row, good)) passed =
      (ground arith, inr (v, ground arith, ground arith, ground arith))

  from_latest_cases :
      (link : Option (String × String)) (now : Time) (r : Result Verification) (w : World)
      → ((e : Error) × (r ≡ err e)
          × (((find_latest phone w.db ≡ none) × (e ≡ sentinel not_found))
              ⊎ (errors_is e not_found ≡ false)))
        ⊎ ((v : Verification) × (find_latest phone w.db ≡ some v) × (r ≡ ok v))
      → AccountFits params.intent (registered phone w.db)
      → Redeems env s params now link
      → Ends env s params phone w now (from_latest env params phone link now r w)
  unfolding from_latest
  from_latest_cases link now r w seen fits redeemed = elim (check_latest_cases now r w) [
    | inl (e, refused) ↦ rw refused (inl (refl, refl, refl))
    | inr (latest, passed, pass) ↦ rw passed (
        let (is_latest, free) = latest-IsFree now r _ latest seen pass in
        within_cap_cases link latest now w fits is_latest free redeemed)
  ]

  from_clock_cases :
      (w : World)
      → AccountFits params.intent (registered phone w.db)
      → Ends env s params phone w (env.now w.calls) (from_clock env s params phone w)
  unfolding from_clock
  from_clock_cases w fits = elim (pending_link_cases env s params (env.now w.calls) (counted w)) [
    | inl (e, refused) ↦ rw refused (inl (refl, refl, refl))
    | inr (link, linked, redeemed) ↦ rw linked (elim (find_latest_cases env (counted w) phone) [
      | inl (e, bad, why) ↦ rw bad (
          from_latest_cases link (env.now w.calls) (err e) (counted (counted w))
            (inl (e, refl, why)) fits redeemed)
      | inr (v, row, good) ↦ rw good (
          from_latest_cases link (env.now w.calls) (ok v) (counted (counted w)) (inr (v, row, refl))
            fits redeemed)
    ])
  ]

  from_account_cases :
      (r : Result Account) (w : World)
      → intent_valid params.intent ≡ true
      → ((e : Error) × (r ≡ err e)
          × (((registered phone w.db ≡ none) × (e ≡ sentinel not_found))
              ⊎ (errors_is e not_found ≡ false)))
        ⊎ ((a : Account) × (registered phone w.db ≡ some a) × (r ≡ ok a))
      → Ends env s params phone w
          (env.now w.calls)
          ((check_account params.intent r >> from_clock env s params phone) w)
  from_account_cases r w valid seen = elim (check_account_cases params.intent r w) [
    | inl (e, refused) ↦ rw refused (inl (refl, refl, refl))
    | inr (passed, pass) ↦
        rw passed (from_clock_cases w (account_fits r (registered phone w.db) valid seen pass))
  ]

  request_for_cases :
      (w : World)
      → intent_valid params.intent ≡ true
      → Ends env s params phone w (env.now (suc w.calls)) (request_for env s params phone w)
  unfolding request_for
  request_for_cases w valid = elim (find_by_phone_cases env w phone) [
    | inl (e, bad, why) ↦ rw bad (from_account_cases (err e) (counted w) valid (inl (e, refl, why)))
    | inr (a, row, good) ↦
        rw good (from_account_cases (ok a) (counted w) valid (inr (a, row, refl)))
  ]

-- A request for a code refuses, with nothing stored and nothing sent; or it met the send cap of its
-- phone, sent nothing and at most locked the phone's latest challenge, which was not locked and whose
-- cooldown was over; or its phone was eligible
-- (the account fits the flow, the latest challenge is neither locked nor in its cooldown, fewer than
-- five sends count in the last thirty minutes), a signup with a link token links the identity of a
-- token that the parser accepted under the service's secret and no other request links one, and the
-- sender was called once, with a fresh code for the normalised phone. If the sender failed, the request
-- failed with its error, no table changed and no other call followed. If it did not, the new challenge,
-- with an id drawn after the sending, was stored by the call after that or, with an error, was not. A
-- request that succeeds is of this last kind. This holds whatever the driver, the sender and the other
-- outside calls answer.
pub request_verification_cases :
    (env : Env) (s : Service) (params : RequestVerificationParams) (w : World)
    → let q = request_verification env s params w in
      Stays w q
      ⊎ ((phone : String) × (normalize_phone params.phone ≡ ok phone)
          × Ends env s params phone w (env.now (suc w.calls)) q)
unfolding request_verification
request_verification_cases env s params w = elim (Bool-cases (intent_valid params.intent)) [
  | inr unknown ↦ rw unknown (inl (refl, refl, refl))
  | inl valid ↦ rw valid (elim (Result-cases (normalize_phone params.phone)) [
    | inr (e, bad) ↦ rw bad (inl (refl, refl, refl))
    | inl (phone, good) ↦ rw good (inr (phone, refl, request_for_cases env s params phone w valid))
  ])
]
