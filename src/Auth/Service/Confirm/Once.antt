-- ===== src/Auth/Service/Confirm/Once.antt =====
-- Confirms of one challenge, one after the other.
use passwordless_auth_servic.Prelude.{
  suc, String, Bool, true, false, some, List, [], ◌∷◌, find, update, ◌≡◌, ap, sym, ◌∙◌, arith, inl,
  inr,
}
use passwordless_auth_servic.Auth.Domain.{
  Time, Uuid, Verification, Session, Account, verified, status_eq,
}
use passwordless_auth_servic.Auth.Failure.{ok}
use passwordless_auth_servic.Auth.Verification.{mark_verified}
use passwordless_auth_servic.Platform.World.{Db, Env, World}
use passwordless_auth_servic.Postgres.Verifications.{has_id, set_columns}
use passwordless_auth_servic.Postgres.Answered.{find-has_id}
use passwordless_auth_servic.Auth.Service.{fresh_session}
use passwordless_auth_servic.Auth.Service.Confirm.{ConfirmResult, confirm_verification}
use passwordless_auth_servic.Auth.Service.Confirm.Effect.{Confirms}
use passwordless_auth_servic.Auth.Service.Confirm.Outcomes.{Refuses, confirm_verification_cases}

-- The row that a lookup finds carries the mark, once the rows of its id have it.
find-marked :
    (id : Uuid) (v : Verification) (vs : List Verification) {u : Verification}
    → v.id ≡ id
    → find (has_id id) (update (has_id v.id) (set_columns (mark_verified v)) vs) ≡ some u
    → status_eq u.status verified ≡ true
unfolding mark_verified
find-marked id v [] e found = absurd (cc)
find-marked id v (r ∷ vs) {u} e found = ground (arith, find-marked id v vs {u = u} e)

confirms-marks :
    (v : Verification) (now : Time) (session : Session) {a : Account} {d d' : Db}
    → Confirms v now session a d d'
    → (vs : List Verification) × (d'.verifications
        ≡ update (has_id v.id) (set_columns (mark_verified v)) vs)
confirms-marks v now session (d1, _, _, _, stored) =
    (d1.verifications, ap (λ (d : Db). d.verifications) stored)

-- After a confirm that returned a token, every later confirm of the same challenge on the tables as
-- it left them refuses, whatever its code, the time and the outside calls are.
confirm_once :
    (env later : Env) (id : Uuid) (code guess : String) (w u : World) {r : ConfirmResult}
    {w' : World}
    → confirm_verification env id code w ≡ (ok r, w')
    → u.db.verifications ≡ w'.db.verifications
    → Refuses u (confirm_verification later id guess u)
confirm_once env later id code guess w u {r} {w'} e same =
    let first = confirm_verification_cases env id code w in
    elim (rw e at first) [
      | inl (refused, _, _) ↦ absurd (cc)
      | inr (v, found, _, (a, token, key, stored, _)) ↦
          let (vs, rows) =
            confirms-marks v (env.now (suc w.calls))
              (fresh_session key (env.sum256 token) (env.now (suc w.calls))) stored in
          elim (confirm_verification_cases later id guess u) [
            | inl refused ↦ refused
            | inr (v', found', (_, unused, _, _), _) ↦
                let again =
                  ap (λ l. find (has_id id) l) (sym rows)
                  ∙ ap (λ l. find (has_id id) l) (sym same)
                  ∙ found' in
                absurd (
                  used_twice (find-marked id v vs (find-has_id id w.db.verifications found) again)
                    unused)
          ]
    ]
  where
    used_twice : {b : Bool} → b ≡ true → b ≡ false → ⊥
    used_twice marked unmarked = cc
