-- ===== src/Auth/Service/Confirm/Outcomes.antt =====
-- How a confirm ends, whatever fails on the way.
use mathlib.Core.Path.{subst}
use passwordless_auth_servic.Prelude.{
  suc, String, true, false, some, find, ◌≡◌, refl, ap, sym, arith, ◌⊎◌, inl, inr, Option-cases,
}
use passwordless_auth_servic.Auth.Domain.{Time, Uuid, Account, Verification, verified, status_eq}
use passwordless_auth_servic.Auth.Failure.{Error, Result, ok, err, wrapped, opaque, is_err}
use passwordless_auth_servic.Auth.Verification.{is_locked, is_expired}
use passwordless_auth_servic.Platform.World.{Db, Env, World, pure, continue, with_error}
use passwordless_auth_servic.Postgres.Driver.{counted}
use passwordless_auth_servic.Platform.Uow.Atomic.{AllOrNothing, in_tx_atomic}
use passwordless_auth_servic.Postgres.Verifications
use passwordless_auth_servic.Postgres.Verifications.{has_id}
use passwordless_auth_servic.Postgres.Reads.{get_cases}
use passwordless_auth_servic.Auth.Service.{fresh_session, new_session_token}
use passwordless_auth_servic.Auth.Service.Confirm.{
  ConfirmResult, settle, complete, confirm_failure, reject_code, confirm_loaded,
  confirm_verification, route_of,
}
use passwordless_auth_servic.Auth.Service.Confirm.Effect.{Confirms, settle-eq-ok}

-- The challenge is neither locked, nor used, nor expired, and the code fits its hash.
abbrev pub Accepts : Env → Verification → Time → String → Type 0
Accepts env v now code =
    (is_locked v now ≡ false)
    × (status_eq v.status verified ≡ false)
    × (is_expired v now ≡ false)
    × (env.compare_hash_and_password v.code_hash code ≡ true)

-- A run that failed and left the accounts and the sessions alone.
abbrev pub Refuses : World → Result ConfirmResult × World → Type 0
Refuses w (r, w') =
    (is_err r ≡ true) × (w'.db.accounts ≡ w.db.accounts) × (w'.db.sessions ≡ w.db.sessions)

-- A run that failed and changed no table.
abbrev pub Aborts : World → Result ConfirmResult × World → Type 0
Aborts w (r, w') = (is_err r ≡ true) × (w'.db ≡ w.db)

Aborts-Refuses : (w : World) (q : Result ConfirmResult × World) → Aborts w q → Refuses w q
Aborts-Refuses w q (bad, same) =
    (bad, ap (λ (d : Db). d.accounts) same, ap (λ (d : Db). d.sessions) same)

-- A run that stored the whole effect of a confirm of `v`, with a session for the minted token. Its
-- result is that token, or an error if the reply to the commit was lost.
abbrev pub Grants : Env → Verification → Time → World → Result ConfirmResult × World → Type 0
Grants env v now w (r, w') =
    (a : Account) × (token : String) × (id : Uuid) × Confirms v now
      (fresh_session id (env.sum256 token) now) a w.db w'.db
    × ((r ≡ ok (record { session_token = token; account = a; route = route_of v }))
        ⊎ (is_err r ≡ true))

pub minted_cases :
    (env : Env) (w : World)
    → ((e : Error) × (new_session_token env w ≡ (err e, counted w)))
      ⊎ ((token : String) × (new_session_token env w ≡ (ok (token, env.sum256 token), counted w)))
unfolding new_session_token
minted_cases env w = elim (Option-cases (env.random_token w.calls)) [
  | inl e ↦ inl (wrapped "auth: generate session token" (opaque "rand"), rw e)
  | inr (token, e) ↦ inr (token, rw e)
]

module _ (env : Env) (v : Verification) (now : Time) (token : String) (id : Uuid) (w : World) where
  -- The transaction of `complete`, and what follows it.
  abbrev tail_of : Result Account × World → Result ConfirmResult × World
  tail_of p =
      continue
        (λ account. pure (record { session_token = token; account = account; route = route_of v }))
        (with_error confirm_failure p.0) p.1

  confirmed :
      (p : Result Account × World) (a : Account)
      → (settle env v now (fresh_session id (env.sum256 token) now) (counted w)).0 ≡ ok a
      → p.1.db ≡ (settle env v now (fresh_session id (env.sum256 token) now) (counted w)).1.db
      → Confirms v now (fresh_session id (env.sum256 token) now) a w.db p.1.db
  confirmed p a done stored =
      let body = settle env v now (fresh_session id (env.sum256 token) now) (counted w) in
      subst (Confirms v now (fresh_session id (env.sum256 token) now) a w.db) (sym stored)
        (settle-eq-ok env v now (fresh_session id (env.sum256 token) now) (counted w) {a = a}
          {w' = body.1} (cc)).0

  tail_cases :
      (p : Result Account × World)
      → AllOrNothing w.db (settle env v now (fresh_session id (env.sum256 token) now) (counted w)) p
      → Aborts w (tail_of p) ⊎ Grants env v now w (tail_of p)
  tail_cases p (inl (same, (e, failed))) = inl (rw failed (refl, same))
  tail_cases p (inr (a, done, stored, inl good)) =
      rw good (inr (a, token, id, confirmed p a done stored, inl refl))
  tail_cases p (inr (a, done, stored, inr (e, bad))) =
      rw bad (inr (a, token, id, confirmed p a done stored, inr refl))

pub complete_cases :
    (env : Env) (v : Verification) (now : Time) (w : World)
    → let q = complete env v now w in Aborts w q ⊎ Grants env v now w q
unfolding complete
complete_cases env v now w = elim (minted_cases env w) [
  | inl (e, failed) ↦ rw failed (inl (refl, refl))
  | inr (token, minted) ↦ rw minted (
      tail_cases env v now token (env.new_uuid (suc w.calls)) (counted (counted w)) _ (
        in_tx_atomic env
          (settle env v now (fresh_session (env.new_uuid (suc w.calls)) (env.sum256 token) now))
          (counted (counted w))))
]

reject_code-Refuses :
    (env : Env) (v : Verification) (now : Time) (w : World) → Refuses w (reject_code env v now w)
unfolding reject_code Verifications.save
reject_code-Refuses env v now w = ground arith

confirm_loaded_cases :
    (env : Env) (v : Verification) (now : Time) (code : String) (w : World)
    → let q = confirm_loaded env v now code w in
      Refuses w q ⊎ (Accepts env v now code × Grants env v now w q)
unfolding confirm_loaded
confirm_loaded_cases env v now code w =
    let done = complete_loaded_cases in ground (arith, done, reject_code-Refuses env v now w)
  where
    complete_loaded_cases :
        Refuses w (complete env v now w) ⊎ Grants env v now w (complete env v now w)
    complete_loaded_cases = elim (complete_cases env v now w) [
      | inl aborts ↦ inl (Aborts-Refuses w (complete env v now w) aborts)
      | inr grants ↦ inr grants
    ]

-- A confirm refuses, with an error and the accounts and the sessions as they were; or its challenge
-- is stored, open and fits the code, and the whole effect is stored: the account (found for a
-- signin, new for a signup), a session for it under the hash of the minted token, and the mark on
-- the challenge. A confirm that returns a token is of the second kind. This holds whatever the
-- driver, the random source and the other outside calls answer.
pub confirm_verification_cases :
    (env : Env) (id : Uuid) (code : String) (w : World)
    → let q = confirm_verification env id code w in
      Refuses w q
      ⊎ ((v : Verification) × (find (has_id id) w.db.verifications ≡ some v)
          × Accepts env v (env.now (suc w.calls)) code
          × Grants env v (env.now (suc w.calls)) w q)
unfolding confirm_verification
confirm_verification_cases env id code w = elim (get_cases env w id) [
  | inl (e, failed, _) ↦ rw failed (inl (refl, refl, refl))
  | inr (v, found, got) ↦
      rw got (elim (confirm_loaded_cases env v (env.now (suc w.calls)) code (counted (counted w))) [
        | inl refused ↦ inl refused
        | inr (open_for, granted) ↦ inr (v, found, open_for, granted)
      ])
]
