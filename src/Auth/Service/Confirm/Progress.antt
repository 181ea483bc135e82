-- ===== src/Auth/Service/Confirm/Progress.antt =====
-- What a confirm needs to go through.
use mathlib.Core.Path.{subst}
use passwordless_auth_servic.Prelude.{
  ℕ, suc, String, true, false, some, [], ◌∷◌, ◌++◌, str_eq, any, find, update, select, length, ◌≡◌,
  ◌≢◌, refl, ap, ◌∙◌,
}
use passwordless_auth_servic.Auth.Domain.{
  Time, Uuid, Account, Verification, Session, is_signin, route_home,
}
use passwordless_auth_servic.Auth.Failure.{ok}
use passwordless_auth_servic.Auth.Verification.{mark_verified}
use passwordless_auth_servic.Platform.World.{Env, World, answered}
use passwordless_auth_servic.Postgres.Driver.{counted}
use passwordless_auth_servic.Postgres.Verifications.{has_id, set_columns}
use passwordless_auth_servic.Postgres.Sessions.{session_clashes}
use passwordless_auth_servic.Postgres.Answered.{
  find-row, find-has_id, find-account_exists_in, get_answered, find_by_phone_answered,
  create_session_answered, save_verification_answered, in_tx_answered,
}
use passwordless_auth_servic.Auth.Service.{fresh_session, hash_token, new_session_token}
use passwordless_auth_servic.Auth.Service.Confirm.{
  route_of, existing_account, resolve_account, settle, complete, confirm_loaded,
  confirm_verification,
}
use passwordless_auth_servic.Auth.Service.Confirm.Outcomes.{Accepts}

-- The worlds after the insertion of a session and after the mark on the challenge.
abbrev with_session : Session → World → World
with_session s w = record (counted (counted w)) {
  db = record w.db { sessions = w.db.sessions ++ s ∷ [] };
}

abbrev with_mark : Verification → World → World
with_mark v w = record (counted w) {
  db = record w.db {
    verifications = update (has_id v.id) (set_columns (mark_verified v)) w.db.verifications;
  };
}

module _ (env : Env) (v : Verification) (a : Account) (now : Time) where
  -- The session that a completion opens, and the world after it.
  abbrev pub opened_session : String → World → Session
  opened_session token w =
      record (fresh_session (env.new_uuid (suc w.calls)) (env.sum256 token) now) {
        account_id = a.id;
      }

  abbrev pub completed : String → World → World
  completed token w =
      counted (with_mark v (with_session (opened_session token w) (counted (counted (counted w)))))

module _ (env : Env) (answers : (k : ℕ) → env.driver k ≡ answered) (v : Verification) (a : Account)
    (now : Time) where
  settle_answered :
      (session : Session) (w : World) {u : Verification}
      → is_signin v.intent ≡ true
      → find (λ b. str_eq b.phone v.phone) w.db.accounts ≡ some a
      → find (has_id v.id) w.db.verifications ≡ some u
      → any (session_clashes (record session { account_id = a.id })) w.db.sessions ≡ false
      → settle env v now session w
        ≡ (ok a, with_mark v (with_session (record session { account_id = a.id }) w))
  unfolding settle resolve_account existing_account mark_verified
  settle_answered session w signin there stored free =
      let s = record session { account_id = a.id } in
      let resolved = find_by_phone_answered env answers w v.phone there in
      let opened =
        create_session_answered env answers (counted w) s free
          (find-account_exists_in v.phone w.db.accounts there) in
      let marked = save_verification_answered env answers (with_session s w) (mark_verified v) (
        subst (λ i. length (select (has_id i) w.db.verifications) ≢ 0)
          (find-has_id v.id w.db.verifications stored) (find-row v.id w.db.verifications stored)) in
      rw (signin, resolved, opened, marked) refl

  -- The stored challenge need not be the one that was loaded.
  pub complete_answered :
      (token : String) (w : World) {u : Verification}
      → is_signin v.intent ≡ true
      → find (λ b. str_eq b.phone v.phone) w.db.accounts ≡ some a
      → find (has_id v.id) w.db.verifications ≡ some u
      → env.random_token w.calls ≡ some token
      → any (session_clashes (opened_session env v a now token w)) w.db.sessions ≡ false
      → complete env v now w ≡ (
        ok (record { session_token = token; account = a; route = route_home }),
        completed env v a now token w,
      )
  unfolding complete new_session_token hash_token route_of
  complete_answered token w signin there stored drawn free =
      let session = fresh_session (env.new_uuid (suc w.calls)) (env.sum256 token) now in
      let settled =
        settle_answered session (counted (counted (counted w))) signin there stored free in
      let done =
        in_tx_answered env answers (counted (counted w)) (settle env v now session) settled in
      rw (drawn, done, signin) refl

-- On a database that answers, a confirm of a signin goes through: if the challenge is stored, open and
-- fits the code, an account has its phone, the random source yields a token, and no session has the new
-- session's id or hash, then the result is that token, that account and the route home.
pub confirm_signin_succeeds :
    (env : Env) (answers : (k : ℕ) → env.driver k ≡ answered) (id : Uuid) (code token : String)
    (w : World) (v : Verification) (a : Account)
    → find (has_id id) w.db.verifications ≡ some v
    → Accepts env v (env.now (suc w.calls)) code
    → is_signin v.intent ≡ true
    → find (λ b. str_eq b.phone v.phone) w.db.accounts ≡ some a
    → env.random_token (suc (suc w.calls)) ≡ some token
    → any
        (session_clashes
          (record (fresh_session
            (env.new_uuid (suc (suc (suc w.calls))))
            (env.sum256 token)
            (env.now (suc w.calls))) { account_id = a.id }))
        w.db.sessions
      ≡ false
    → (confirm_verification env id code w).0
      ≡ ok (record { session_token = token; account = a; route = route_home })
unfolding confirm_verification confirm_loaded
confirm_signin_succeeds env answers id code token w v a stored (unlocked, unused, fresh, fits)
      signin there drawn free =
    let got = get_answered env answers w id stored in
    rw (got, unlocked, unused, fresh, fits)
      (ap (λ p. p.0)
        (complete_answered env answers v a (env.now (suc w.calls)) token (counted (counted w))
          signin there
          (ap (λ i. find (has_id i) w.db.verifications) (find-has_id id w.db.verifications stored)
            ∙ stored)
          drawn free))
