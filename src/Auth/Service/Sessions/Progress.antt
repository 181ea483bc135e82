-- ===== src/Auth/Service/Sessions/Progress.antt =====
-- What a validation and a revocation do on a database that answers.
use passwordless_auth_servic.Prelude.{
  ℕ, suc, String, true, false, some, List, [], ◌∷◌, ◌==◌, find, update, ◌≡◌, refl, ap, ◌∙◌,
  Bool-cases, inl, inr, if◌then◌else◌,
}
use passwordless_auth_servic.Auth.Domain.{Time, Account, Session, is_nil}
use passwordless_auth_servic.Auth.Failure.{ok, err, sentinel, no_session}
use passwordless_auth_servic.Auth.Session.{is_valid, extend, needs_extension}
use passwordless_auth_servic.Platform.Access.{Principal}
use passwordless_auth_servic.Platform.World.{Env, World, answered, pure, ◌>>◌}
use passwordless_auth_servic.Postgres.Driver.{counted}
use passwordless_auth_servic.Postgres.Sessions
use passwordless_auth_servic.Postgres.Sessions.{has_token_hash, is_live}
use passwordless_auth_servic.Postgres.Answered.{
  find-session_row, find_by_token_hash_answered, find_by_id_answered, save_session_answered,
}
use passwordless_auth_servic.Auth.Service.{hash_token}
use passwordless_auth_servic.Auth.Service.Sessions.{touch, admit, validate_session, revoke_session}
use passwordless_auth_servic.Auth.Service.Sessions.Outcomes.{principal_of}

module _ (env : Env) (answers : (k : ℕ) → env.driver k ≡ answered) (token : String)
    (w : World) where
  touch_answered :
      (sess : Session) (now : Time) (p : Principal) (u : World)
      → find (has_token_hash (hash_token env token)) u.db.sessions ≡ some sess
      → ((touch env sess now >> pure p) u).0 ≡ ok p
  unfolding touch extend
  touch_answered sess now p u stored = elim (Bool-cases (needs_extension sess now)) [
    | inr recent ↦ rw recent refl
    | inl due ↦
        rw
          (
            due,
            save_session_answered env answers u (extend sess now)
                (find-session_row _ u.db.sessions stored),
          )
          refl
  ]

  validated_answered :
      (sess : Session) (a : Account)
      → find (has_token_hash (hash_token env token)) w.db.sessions ≡ some sess
      → is_valid sess (env.now (suc w.calls)) ≡ true
      → find (λ (b : Account). b.id == sess.account_id) w.db.accounts ≡ some a
      → (validate_session env token w).0 ≡ ok (principal_of env a)
  unfolding validate_session admit
  validated_answered sess a stored valid there =
      let got = find_by_token_hash_answered env answers w (hash_token env token) stored in
      let owner = find_by_id_answered env answers (counted (counted w)) sess.account_id there in
      rw (got, valid, owner)
        (touch_answered sess (env.now (suc w.calls)) (principal_of env a)
          (counted (counted (counted w))) stored)

  -- A stored session that is not valid is reported as no session.
  invalid_answered :
      (sess : Session)
      → find (has_token_hash (hash_token env token)) w.db.sessions ≡ some sess
      → is_valid sess (env.now (suc w.calls)) ≡ false
      → (validate_session env token w).0 ≡ err (sentinel no_session)
  unfolding validate_session admit
  invalid_answered sess stored invalid =
      let got = find_by_token_hash_answered env answers w (hash_token env token) stored in
      rw (got, invalid) refl

-- On a database that answers, a token whose session is stored, with its account, is admitted exactly
-- while the session is valid: the result is the principal of the account, or `ErrNoSession`.
pub validate_session_stored :
    (env : Env) (answers : (k : ℕ) → env.driver k ≡ answered) (token : String) (w : World)
    (sess : Session) (a : Account)
    → find (has_token_hash (hash_token env token)) w.db.sessions ≡ some sess
    → find (λ (b : Account). b.id == sess.account_id) w.db.accounts ≡ some a
    → (validate_session env token w).0 ≡ (
        if is_valid sess (env.now (suc w.calls))
        then ok (principal_of env a)
        else err (sentinel no_session))
validate_session_stored env answers token w sess a stored there =
    elim (Bool-cases (is_valid sess (env.now (suc w.calls)))) [
      | inl valid ↦
          rw (validated_answered env answers token w sess a stored valid there, valid) refl
      | inr invalid ↦ rw (invalid_answered env answers token w sess stored invalid, invalid) refl
    ]

abbrev pub revoke_at : Time → Session → Session
revoke_at t s = record s { revoked_at = some t }

-- The row of a revoked token is not live.
pub find-revoked :
    (h : String) (t : Time) (ss : List Session) {s : Session}
    → find (has_token_hash h) ss ≡ some s
    → (s' : Session) × (find (has_token_hash h) (update (is_live h) (revoke_at t) ss) ≡ some s')
      × (is_nil s'.revoked_at ≡ false)
find-revoked h t [] e = absurd (cc)
find-revoked h t (r ∷ ss) e = elim (Bool-cases (has_token_hash h r)) [
  | inr other ↦ rw (other, other) (find-revoked h t ss (rw other at e))
  | inl same ↦ elim (Bool-cases (is_nil r.revoked_at)) [
    | inl live ↦ (revoke_at t r, rw (same, live, same) refl, refl)
    | inr over ↦ (r, rw (same, over, same) refl, over)
  ]
]

revoked_answered :
    (env : Env) (answers : (k : ℕ) → env.driver k ≡ answered) (token : String) (w : World)
    → (revoke_session env token w).1.db.sessions
      ≡ update (is_live (hash_token env token)) (revoke_at (env.now w.calls)) w.db.sessions
unfolding revoke_session Sessions.revoke_by_token_hash
revoked_answered env answers token w = rw (answers (suc w.calls)) refl

-- On a database that answers, a token with a stored session is worth nothing once it was revoked: every
-- later validation of it, on the sessions that the revocation left, reports no session.
revoke_session_ends :
    (env : Env) (answers : (k : ℕ) → env.driver k ≡ answered) (token : String) (w u : World)
    (sess : Session)
    → find (has_token_hash (hash_token env token)) w.db.sessions ≡ some sess
    → u.db.sessions ≡ (revoke_session env token w).1.db.sessions
    → (validate_session env token u).0 ≡ err (sentinel no_session)
unfolding is_valid
revoke_session_ends env answers token w u sess stored same =
    let (s', found, over) =
      find-revoked (hash_token env token) (env.now w.calls) w.db.sessions stored in
    let left = same ∙ revoked_answered env answers token w in
    invalid_answered env answers token u s'
      (ap (find (has_token_hash (hash_token env token))) left ∙ found) (rw over refl)
