-- ===== src/Auth/Service/Sessions/Outcomes.antt =====
-- How the validation and the revocation of a session end, whatever fails on the way.
use mathlib.Core.Path.{subst}
use passwordless_auth_servic.Prelude.{
  suc, ◌+◌, String, true, some, ◌==◌, find, update, ◌≡◌, refl, sym, arith, ◌⊎◌, inl, inr,
  Bool-cases,
}
use passwordless_auth_servic.Auth.Domain.{Time, Account, Session, session_idle_window}
use passwordless_auth_servic.Auth.Failure.{Result, ok, err, is_err}
use passwordless_auth_servic.Auth.Session.{is_valid, extend, needs_extension}
use passwordless_auth_servic.Platform.Access.{Principal}
use passwordless_auth_servic.Platform.World.{Db, Env, World, pure, ◌>>◌, continue}
use passwordless_auth_servic.Postgres.Driver.{counted}
use passwordless_auth_servic.Postgres.Sessions.{has_token_hash}
use passwordless_auth_servic.Postgres.Reads.{find_by_token_hash_cases, find_by_id_cases}
use passwordless_auth_servic.Postgres.Writes.{save_session_cases}
use passwordless_auth_servic.Auth.Service.{hash_token}
use passwordless_auth_servic.Auth.Service.Sessions.{touch, admit, validate_session}

-- The tables with the times of a session moved on.
abbrev pub extended : Session → Time → Db → Db
extended sess now d = record d {
  sessions =
      update (λ t. t.id == sess.id)
        (λ t. record t { last_active_at = now; expires_at = now + session_idle_window }) d.sessions;
}

-- The tables are as they were, or the session is extended, where its last extension is a day old.
abbrev pub KeptOrExtended : Session → Time → Db → Db → Type 0
KeptOrExtended sess now d d' =
    (d' ≡ d) ⊎ ((needs_extension sess now ≡ true) × (d' ≡ extended sess now d))

-- A run that failed, having changed at most the times of the session.
abbrev pub Denies : Db → Result Principal × World → Type 0
Denies d (r, w') = (is_err r ≡ true) × (w'.db ≡ d)

abbrev pub principal_of : Env → Account → Principal
principal_of env a = record { account_id = env.uuid_string a.id; role = a.role }

-- A run that names the account of the session.
abbrev pub Admits : Env → Session → Time → World → Result Principal × World → Type 0
Admits env sess now w (r, w') =
    (a : Account) × (find (λ b. b.id == sess.account_id) w.db.accounts ≡ some a)
    × (is_valid sess now ≡ true)
    × KeptOrExtended sess now w.db w'.db
    × ((r ≡ ok (principal_of env a)) ⊎ (is_err r ≡ true))

touch_cases :
    (env : Env) (sess : Session) (now : Time) (w : World)
    → let (r, w') = touch env sess now w in KeptOrExtended sess now w.db w'.db
unfolding touch extend
touch_cases env sess now w = ground (arith, save_session_cases env w (extend sess now))

after_touch :
    (p : Principal) (r : Result (Unit {0})) (w : World)
    → let q = continue (λ _. pure p) r w in (q.1.db ≡ w.db) × ((q.0 ≡ ok p) ⊎ (is_err q.0 ≡ true))
after_touch p (ok _) w = (refl, inl refl)
after_touch p (err _) w = (refl, inr refl)

touch_then_cases :
    (env : Env) (sess : Session) (now : Time) (p : Principal) (w : World)
    → let q = (touch env sess now >> pure p) w in
      KeptOrExtended sess now w.db q.1.db × ((q.0 ≡ ok p) ⊎ (is_err q.0 ≡ true))
touch_then_cases env sess now p w =
    let (r, w') = touch env sess now w in
    let (same, ends) = after_touch p r w' in
    (subst (KeptOrExtended sess now w.db) (sym same) (touch_cases env sess now w), ends)

admit_cases :
    (env : Env) (sess : Session) (now : Time) (w : World)
    → let q = admit env sess now w in Denies w.db q ⊎ Admits env sess now w q
unfolding admit
admit_cases env sess now w = elim (Bool-cases (is_valid sess now)) [
  | inr invalid ↦ rw invalid (inl (refl, refl))
  | inl valid ↦ rw valid (elim (find_by_id_cases env w sess.account_id) [
    | inl (e, bad, _) ↦ rw bad (inl (refl, refl))
    | inr (a, row, good) ↦ rw good (
        let (kept, ends) = touch_then_cases env sess now (principal_of env a) (counted w) in
        inr (a, row, refl, kept, ends))
  ])
]

-- A validation fails and changes no table; or the token's hash is that of a stored session, which is
-- not revoked and not past its end, and the account of the session is stored: then the tables stay or,
-- if the last extension is a day old, the session's times move on, and the result is that account's
-- principal, or an error if the extension's statement failed. A validation that returns a principal is
-- of the second kind.
pub validate_session_cases :
    (env : Env) (token : String) (w : World)
    → let q = validate_session env token w in
      Denies w.db q
      ⊎ ((sess : Session) × (find (has_token_hash (hash_token env token)) w.db.sessions ≡ some sess)
          × Admits env sess (env.now (suc w.calls)) w q)
unfolding validate_session
validate_session_cases env token w = elim (find_by_token_hash_cases env w (hash_token env token)) [
  | inl (e, bad, _) ↦ rw bad (inl (refl, refl))
  | inr (sess, row, good) ↦
      rw good (elim (admit_cases env sess (env.now (suc w.calls)) (counted (counted w))) [
        | inl denied ↦ inl denied
        | inr admitted ↦ inr (sess, row, admitted)
      ])
]
