-- ===== src/Auth/Service/Request/Guards.antt =====
-- What the guards of a request for a code let through.
use passwordless_auth_servic.Prelude.{
  ◌-◌, ◌<◌, String, Bool, true, false, Option, none, some, str_eq, find, ◌≡◌, ◌≢◌, refl, ◌⊎◌, inl,
  inr, Option-cases, Bool-cases,
}
use passwordless_auth_servic.Auth.Domain.{
  Time, Account, Verification, Intent, is_signup, is_signin, send_cap_window, max_sends_per_window,
}
use passwordless_auth_servic.Auth.Failure.{
  Error, Result, ok, err, sentinel, not_found, errors_is, joined, opaque, google_failed,
}
use passwordless_auth_servic.Auth.Verification.{is_locked, resend_ready}
use passwordless_auth_servic.Platform.World.{Db, Env, World, LinkClaims}
use passwordless_auth_servic.Postgres.Verifications.{find_latest, sends_since}
use passwordless_auth_servic.Auth.Service.{Service}
use passwordless_auth_servic.Auth.Service.Request.{
  RequestVerificationParams, check_account, check_latest, pending_link, redeem,
  verify_pending_google_link, link_key,
}

abbrev pub registered : String → Db → Option Account
registered phone d = find (λ a. str_eq a.phone phone) d.accounts

-- A signup for a phone with no account, or a signin for one with an account.
abbrev pub AccountFits : Intent → Option Account → Type 0
AccountFits intent row =
    ((is_signup intent ≡ true) × (row ≡ none)) ⊎ ((is_signin intent ≡ true) × (row ≢ none))

-- There is no challenge, or it is not locked and its cooldown is over.
abbrev pub IsFree : Time → Option Verification → Type 0
IsFree now latest =
    (latest ≡ none)
    ⊎ ((v : Verification) × (latest ≡ some v)
        × (is_locked v now ≡ false)
        × (resend_ready v now ≡ true))

-- The phone may get a code: its account fits the flow, its latest challenge is free, and fewer sends
-- than the cap count in the window.
abbrev pub Eligible : RequestVerificationParams → String → Time → Db → Type 0
Eligible params phone now d =
    AccountFits params.intent (registered phone d)
    × IsFree now (find_latest phone d)
    × (sends_since phone (now - send_cap_window) d < max_sends_per_window)

-- The identity that a request links: none for a signin or where no token is given, and for a signup
-- with a token the claims that the parser accepted under the service's secret.
abbrev pub Redeems :
    Env → Service → RequestVerificationParams → Time → Option (String × String) → Type 0
Redeems env s params now link =
    ((link ≡ none) × ((is_signup params.intent ≡ false) ⊎ (params.google_link_token ≡ none)))
    ⊎ ((token : String) × (claims : LinkClaims) × (is_signup params.intent ≡ true)
        × (params.google_link_token ≡ some token)
        × (env.parse_with_claims token (link_key s.link_secret) now ≡ some claims)
        × (link ≡ some (claims.subject, claims.email)))

abbrev pub Passes : Intent → Result Account → Type 0
Passes intent (ok _) = is_signup intent ≡ false
Passes intent (err e) = (errors_is e not_found ≡ true) × (is_signin intent ≡ false)

pub check_account_cases :
    (intent : Intent) (r : Result Account) (w : World)
    → ((e : Error) × (check_account intent r w ≡ (err e, w)))
      ⊎ ((check_account intent r w ≡ (ok tt, w)) × Passes intent r)
unfolding check_account
check_account_cases Intent.signup (ok a) w = inl (_, refl)
check_account_cases Intent.signin (ok a) w = inr (refl, refl)
check_account_cases (Intent.other _) (ok a) w = inr (refl, refl)
check_account_cases intent (err e) w = elim (Bool-cases (errors_is e not_found)) [
  | inr other ↦ rw other (inl (_, refl))
  | inl missing ↦ rw missing (elim (Bool-cases (is_signin intent)) [
    | inl signin ↦ rw signin (inl (_, refl))
    | inr fits ↦ rw fits (inr (refl, (refl, refl)))
  ])
]

abbrev pub PassesLatest : Time → Result Verification → Option Verification → Type 0
PassesLatest now (ok v) o = (o ≡ some v) × (is_locked v now ≡ false) × (resend_ready v now ≡ true)
PassesLatest now (err e) o = (o ≡ none) × (errors_is e not_found ≡ true)

pub check_latest_cases :
    (now : Time) (r : Result Verification) (w : World)
    → ((e : Error) × (check_latest now r w ≡ (err e, w)))
      ⊎ ((o : Option Verification) × (check_latest now r w ≡ (ok o, w)) × PassesLatest now r o)
unfolding check_latest
check_latest_cases now (ok v) w = elim (Bool-cases (is_locked v now)) [
  | inl held ↦ rw held (inl (_, refl))
  | inr free ↦ rw free (elim (Bool-cases (resend_ready v now)) [
    | inl ready ↦ rw ready (inr (_, refl, (refl, refl, refl)))
    | inr early ↦ rw early (inl (_, refl))
  ])
]
check_latest_cases now (err e) w = elim (Bool-cases (errors_is e not_found)) [
  | inl missing ↦ rw missing (inr (_, refl, (refl, refl)))
  | inr other ↦ rw other (inl (_, refl))
]

abbrev Redeemed : Env → Service → Time → Bool → Option String → Option (String × String) → Type 0
Redeemed env s now signup given link =
    ((link ≡ none) × ((signup ≡ false) ⊎ (given ≡ none)))
    ⊎ ((token : String) × (claims : LinkClaims) × (signup ≡ true)
        × (given ≡ some token)
        × (env.parse_with_claims token (link_key s.link_secret) now ≡ some claims)
        × (link ≡ some (claims.subject, claims.email)))

redeem_cases :
    (env : Env) (s : Service) (now : Time) (signup : Bool) (given : Option String) (w : World)
    → ((e : Error) × (redeem env s now signup given w ≡ (err e, w)))
      ⊎ ((link : Option (String × String)) × (redeem env s now signup given w ≡ (ok link, w))
          × Redeemed env s now signup given link)
unfolding redeem
redeem_cases env s now false given w = inr (none, refl, inl (refl, inl refl))
redeem_cases env s now true none w = inr (none, refl, inl (refl, inr refl))
redeem_cases env s now true (some token) w =
    elim (Option-cases (env.parse_with_claims token (link_key s.link_secret) now)) [
      | inl e ↦
          inl (joined (sentinel google_failed) (opaque "jwt"), rw (e, verify_pending_google_link))
      | inr (claims, e) ↦ inr (
        some (claims.subject, claims.email),
        rw (e, verify_pending_google_link),
        inr (token, claims, refl, refl, e, refl),
      )
    ]

pub pending_link_cases :
    (env : Env) (s : Service) (params : RequestVerificationParams) (now : Time) (w : World)
    → ((e : Error) × (pending_link env s params now w ≡ (err e, w)))
      ⊎ ((link : Option (String × String)) × (pending_link env s params now w ≡ (ok link, w))
          × Redeems env s params now link)
unfolding pending_link
pending_link_cases env s params now w =
    redeem_cases env s now (is_signup params.intent) params.google_link_token w
