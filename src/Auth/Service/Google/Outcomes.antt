-- ===== src/Auth/Service/Google/Outcomes.antt =====
-- How an exchange of a Google token ends, whatever fails on the way.
use mathlib.Core.Path.{subst}
use passwordless_auth_servic.Prelude.{
  suc, String, true, false, Option, none, some, [], ◌∷◌, ◌++◌, any, find, ◌≡◌, refl, sym, arith,
  ◌⊎◌, inl, inr, Option-cases,
}
use passwordless_auth_servic.Auth.Domain.{
  Time, Uuid, Role, Account, Session, GoogleIdentity, route_home,
}
use passwordless_auth_servic.Auth.Failure.{
  Error, Result, ok, is_err, errors_is, not_found, sentinel, wrapped,
}
use passwordless_auth_servic.Platform.World.{Db, Env, World, Exec, on_error, continue, pure}
use passwordless_auth_servic.Platform.World.Runs.{on_error-eq-ok, Result-cases}
use passwordless_auth_servic.Platform.Uow.Atomic.{AllOrNothing, in_tx_atomic}
use passwordless_auth_servic.Postgres.Driver.{counted}
use passwordless_auth_servic.Postgres.Accounts.{has_subject}
use passwordless_auth_servic.Postgres.Sessions
use passwordless_auth_servic.Postgres.Sessions.{session_clashes}
use passwordless_auth_servic.Postgres.Reads.{find_by_google_subject_cases}
use passwordless_auth_servic.Postgres.Success.{create_session-eq-ok}
use passwordless_auth_servic.Auth.Service.{Service, fresh_session}
use passwordless_auth_servic.Auth.Service.Confirm.Outcomes.{minted_cases}
use passwordless_auth_servic.Auth.Service.Google.{
  GoogleExchangeResult, resumed, no_account, link_claims, sign_pending_google_link, resume_account,
  offer_link, exchange_for, google_exchange,
}

-- The tables with a session appended, which clashed with none.
abbrev pub Opens : Session → Db → Db → Type 0
Opens s d d' =
    (any (session_clashes s) d.sessions ≡ false)
    × (d' ≡ record d { sessions = d.sessions ++ s ∷ [] })

abbrev pub session_of : Account → Uuid → String → Time → Session
session_of a id token_hash now = record (fresh_session id token_hash now) { account_id = a.id }

-- A run that failed and changed no table.
abbrev pub Declines : Db → Result GoogleExchangeResult × World → Type 0
Declines d (r, w') = (is_err r ≡ true) × (w'.db ≡ d)

-- A run that opened a session of the account for a minted token.
abbrev pub Resumes : Env → Account → Time → Db → Result GoogleExchangeResult × World → Type 0
Resumes env a now d (r, w') =
    (token : String) × (id : Uuid) × Opens (session_of a id (env.sum256 token) now) d w'.db
    × ((r ≡ ok (resumed token a route_home)) ⊎ (is_err r ≡ true))

-- A run that changed no table and returned a signed token with the identity.
abbrev pub Offers :
    Env → Service → GoogleIdentity → Time → Db → Result GoogleExchangeResult × World → Type 0
Offers env s identity now d (r, w') =
    (token : String) × (env.signed_string s.link_secret (link_claims identity now) ≡ some token)
    × (r ≡ ok (no_account token))
    × (w'.db ≡ d)

module _ (env : Env) (a : Account) (token : String) (id : Uuid) (now : Time) where
  abbrev opening : Exec (Unit {0})
  opening =
      on_error (wrapped "auth: google exchange: create session")
        (Sessions.create env (session_of a id (env.sum256 token) now))

  opened :
      (w : World) (p : Result (Unit {0}) × World) {x : Unit {0}}
      → (opening w).0 ≡ ok x
      → p.1.db ≡ (opening w).1.db
      → Opens (session_of a id (env.sum256 token) now) w.db p.1.db
  opened w p done stored =
      let run = Sessions.create env (session_of a id (env.sum256 token) now) w in
      let (free, after, _) =
        create_session-eq-ok env w {w' = run.1} (session_of a id (env.sum256 token) now) (
          on_error-eq-ok (wrapped "auth: google exchange: create session")
            (Sessions.create env (session_of a id (env.sum256 token) now)) w {w' = run.1} (cc)) in
      subst (Opens (session_of a id (env.sum256 token) now) w.db) (sym stored) (free, after)

  opening_cases :
      (w : World) (p : Result (Unit {0}) × World)
      → AllOrNothing w.db (opening (counted w)) p
      → let q = continue (λ _. pure (resumed token a route_home)) p.0 p.1 in
        Declines w.db q ⊎ Resumes env a now w.db q
  opening_cases w p (inl (same, (e, bad))) = rw bad (inl (refl, same))
  opening_cases w p (inr (x, done, stored, inl good)) =
      rw good (inr (token, id, opened (counted w) p done stored, inl refl))
  opening_cases w p (inr (x, done, stored, inr (e, bad))) =
      rw bad (inr (token, id, opened (counted w) p done stored, inr refl))

resume_account_cases :
    (env : Env) (a : Account) (w : World)
    → let q = resume_account env a w in Declines w.db q ⊎ Resumes env a (env.now w.calls) w.db q
unfolding resume_account
resume_account_cases env a w = elim (minted_cases env (counted w)) [
  | inl (e, bad) ↦ rw bad (inl (refl, refl))
  | inr (token, minted) ↦ rw minted (
      opening_cases env a token (env.new_uuid (suc (suc w.calls))) (env.now w.calls)
        (counted (counted (counted w))) _
        (in_tx_atomic env (opening env a token (env.new_uuid (suc (suc w.calls))) (env.now w.calls))
          (counted (counted (counted w)))))
]

offer_link_cases :
    (env : Env) (s : Service) (identity : GoogleIdentity) (w : World)
    → let q = offer_link env s identity w in
      Declines w.db q ⊎ Offers env s identity (env.now w.calls) w.db q
unfolding offer_link sign_pending_google_link
offer_link_cases env s identity w =
    elim (Option-cases (env.signed_string s.link_secret (link_claims identity (env.now w.calls)))) [
      | inl e ↦ rw e (inl (refl, refl))
      | inr (token, e) ↦ rw e (inr (token, refl, refl, refl))
    ]

names_not_found : (e : Error) → e ≡ sentinel not_found → errors_is e not_found ≡ true
unfolding errors_is
names_not_found e same = ground arith

-- An exchange fails and changes no table; or Google vouched for the token, an account has its subject,
-- and a session of that account is stored under the hash of a minted token, which is the result, or an
-- error if the reply to the commit was lost; or Google vouched, no account has the subject, no table
-- changes, and the result is a signed token with that identity.
pub google_exchange_cases :
    (env : Env) (s : Service) (id_token : String) (role : Option Role) (w : World)
    → let q = google_exchange env s id_token role w in
      Declines w.db q
      ⊎ ((identity : GoogleIdentity) × (env.verify_identity w.calls id_token ≡ ok identity)
          × (((a : Account) × (find (has_subject identity.subject) w.db.accounts ≡ some a)
                × Resumes env a (env.now (suc (suc w.calls))) w.db q)
              ⊎ ((find (has_subject identity.subject) w.db.accounts ≡ none)
                  × Offers env s identity (env.now (suc (suc w.calls))) w.db q)))
unfolding google_exchange exchange_for
google_exchange_cases env s id_token role w =
    elim (Result-cases (env.verify_identity w.calls id_token)) [
      | inr (e, bad) ↦ rw bad (inl (refl, refl))
      | inl (identity, vouched) ↦
          rw vouched (elim (find_by_google_subject_cases env (counted w) identity.subject) [
            | inr (a, row, found) ↦
                rw found (elim (resume_account_cases env a (counted (counted w))) [
                  | inl declines ↦ inl declines
                  | inr resumes ↦ inr (identity, refl, inl (a, row, resumes))
                ])
            | inl (e, missed, why) ↦ rw missed (elim why [
              | inr other ↦ rw other (inl (refl, refl))
              | inl (no_row, same) ↦
                  rw (names_not_found e same)
                    (elim (offer_link_cases env s identity (counted (counted w))) [
                      | inl declines ↦ inl declines
                      | inr offers ↦ inr (identity, refl, inr (no_row, offers))
                    ])
            ])
          ])
    ]
