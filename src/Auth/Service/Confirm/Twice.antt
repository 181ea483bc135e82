-- ===== src/Auth/Service/Confirm/Twice.antt =====
-- Two confirms with the right code that overlap: both have loaded the challenge before one of them writes.
use passwordless_auth_servic.Prelude.{
  [], ◌∷◌, ◌++◌, ℕ, String, true, false, some, str_eq, any, find, ◌≡◌, refl, ap,
}
use passwordless_auth_servic.Auth.Domain.{Time, Account, Verification, is_signin, route_home}
use passwordless_auth_servic.Auth.Failure.{ok}
use passwordless_auth_servic.Auth.Verification.{mark_verified}
use passwordless_auth_servic.Platform.World.{Env, World, answered}
use passwordless_auth_servic.Postgres.Verifications.{set_columns}
use passwordless_auth_servic.Postgres.Sessions.{session_clashes}
use passwordless_auth_servic.Postgres.Challenges.{challenge, find-update_self}
use passwordless_auth_servic.Auth.Service.Confirm.{ConfirmResult, confirm_loaded}
use passwordless_auth_servic.Auth.Service.Confirm.Outcomes.{Accepts}
use passwordless_auth_servic.Auth.Service.Confirm.Progress.{
  opened_session, completed, complete_answered,
}

abbrev pub home_with : String → Account → ConfirmResult
home_with token a = record { session_token = token; account = a; route = route_home }

module _ (env : Env) (answers : (k : ℕ) → env.driver k ≡ answered) (v : Verification) (a : Account)
    (signin : is_signin v.intent ≡ true) where
  -- A confirm that holds the challenge goes through, whatever is stored of it by now.
  confirm_held :
      (now : Time) (code token : String) (w : World) {u : Verification}
      → challenge v.id w.db ≡ some u
      → Accepts env v now code
      → find (λ b. str_eq b.phone v.phone) w.db.accounts ≡ some a
      → env.random_token w.calls ≡ some token
      → any (session_clashes (opened_session env v a now token w)) w.db.sessions ≡ false
      → confirm_loaded env v now code w ≡ (ok (home_with token a), completed env v a now token w)
  unfolding confirm_loaded
  confirm_held now code token w stored (free, unused, alive, fits) there drawn new =
      rw (free, unused, alive, fits)
        (complete_answered env answers v a now token w signin there stored drawn new)

  -- On a database that answers: two confirms that fit a stored signin challenge of a registered account,
  -- and that both loaded it before the first of them wrote, both return a token and the account, and both
  -- tokens' sessions are stored for that account, if each confirm draws a token and no session has the id
  -- or the hash of its new one.
  pub overlapping_confirms_redeem :
      (now now' : Time) (code code' token token' : String) (w : World)
      → challenge v.id w.db ≡ some v
      → Accepts env v now code
      → Accepts env v now' code'
      → find (λ b. str_eq b.phone v.phone) w.db.accounts ≡ some a
      → env.random_token w.calls ≡ some token
      → any (session_clashes (opened_session env v a now token w)) w.db.sessions ≡ false
      → let w' = (confirm_loaded env v now code w).1 in
        env.random_token w'.calls ≡ some token'
        → any (session_clashes (opened_session env v a now' token' w')) w'.db.sessions ≡ false
        → ((confirm_loaded env v now code w).0 ≡ ok (home_with token a))
          × ((confirm_loaded env v now' code' w').0 ≡ ok (home_with token' a))
          × ((confirm_loaded env v now' code' w').1.db.sessions
              ≡ (w.db.sessions ++ opened_session env v a now token w ∷ [])
                ++ opened_session env v a now' token' w' ∷ [])
  overlapping_confirms_redeem now now' code code' token token' w stored fits fits' there drawn new
        drawn' new' =
      let first = confirm_held now code token w stored fits there drawn new in
      let w' = completed env v a now token w in
      let marked =
        find-update_self v.id (set_columns (mark_verified v)) w.db.verifications (λ u. refl)
          stored in
      let second =
        confirm_held now' code' token' w' marked fits' there (rw first at drawn')
          (rw first at new') in
      (
        ap (λ p. p.0) first,
        rw first (ap (λ p. p.0) second),
        rw first (ap (λ p. p.1.db.sessions) second),
      )
