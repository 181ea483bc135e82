-- ===== src/Auth/Service/Admin/Clearing.antt =====
-- How an administrator's unlock ends, whatever fails on the way.
use mathlib.Core.Path.{subst}
use passwordless_auth_servic.Prelude.{
  suc, String, Bool, true, false, some, [], ◌∷◌, ◌++◌, ◌==◌, find, update, ◌≡◌, refl, ap, sym, ◌∙◌,
  ◌⊎◌, inl, inr, Bool-cases,
}
use passwordless_auth_servic.Auth.Domain.{
  Time, Uuid, Account, Verification, AuditEvent, audit_action_clear_lockout,
}
use passwordless_auth_servic.Auth.Failure.{Result, ok, is_err, errors_is, not_found}
use passwordless_auth_servic.Auth.Verification.{is_locked}
use passwordless_auth_servic.Platform.World.{Db, Env, World, on_error, pure, continue}
use passwordless_auth_servic.Platform.World.Runs.{>>=-run, on_error-eq-ok}
use passwordless_auth_servic.Platform.Uow.Atomic.{AllOrNothing, in_tx_atomic}
use passwordless_auth_servic.Postgres.Driver.{counted}
use passwordless_auth_servic.Postgres.Verifications
use passwordless_auth_servic.Postgres.Verifications.{has_id, set_columns, find_latest}
use passwordless_auth_servic.Postgres.Sessions
use passwordless_auth_servic.Postgres.Reads.{find_by_id_cases, find_latest_cases}
use passwordless_auth_servic.Postgres.Success.{save_verification-eq-ok, create_audit_event-eq-ok}
use passwordless_auth_servic.Auth.Service.Admin.{
  unlock, emit_audit_event, unlock_and_record, clear_latest, clear_lockout,
}

-- The audit event of an unlock.
abbrev pub clearing_event : Env → String → Uuid → Verification → Uuid → Time → AuditEvent
clearing_event env admin_id account_id v id at = record {
  id = id;
  actor_admin_id = admin_id;
  action = audit_action_clear_lockout;
  target_account_id = account_id;
  created_at = at;
  metadata = ("verification_id", env.uuid_string v.id) ∷ [];
}

-- The tables with a challenge unlocked and the event recorded.
abbrev pub cleared : Verification → AuditEvent → Db → Db
cleared v event d = record d {
  verifications = update (has_id v.id) (set_columns (unlock v)) d.verifications;
  audit_events = d.audit_events ++ event ∷ [];
}

abbrev pub Records : Env → String → Uuid → Verification → Db → Db → Type 0
Records env admin_id account_id v d d' =
    (id : Uuid) × (at : Time) × (d' ≡ cleared v (clearing_event env admin_id account_id v id at) d)

emit_audit_event-eq-ok :
    (env : Env) (admin_id : String) (account_id : Uuid) (v : Verification) (w : World) {w' : World}
    → emit_audit_event env admin_id audit_action_clear_lockout account_id
        (("verification_id", env.uuid_string v.id) ∷ [])
        w
      ≡ (ok tt, w')
    → w'.db ≡ record w.db {
      audit_events =
          w.db.audit_events
          ++ clearing_event env admin_id account_id v (env.new_uuid w.calls) (env.now (suc w.calls))
            ∷ [];
    }
unfolding emit_audit_event
emit_audit_event-eq-ok env admin_id account_id v w e =
    (create_audit_event-eq-ok env (counted (counted w)) _
      (on_error-eq-ok _ (Sessions.create_audit_event env _) (counted (counted w)) e)).1

unlock_and_record-eq-ok :
    (env : Env) (admin_id : String) (account_id : Uuid) (v : Verification) (w : World) {w' : World}
    → unlock_and_record env admin_id account_id v w ≡ (ok tt, w')
    → Records env admin_id account_id v w.db w'.db
unfolding unlock_and_record unlock
unlock_and_record-eq-ok env admin_id account_id v w {w'} =
    >>=-run (on_error _ (Verifications.save env (unlock v))) _ w λ _ w1 e1 e2.
      let saved =
        (save_verification-eq-ok env w (unlock v)
          (on_error-eq-ok _ (Verifications.save env (unlock v)) w e1)).1 in
      let recorded = emit_audit_event-eq-ok env admin_id account_id v w1 e2 in
      (
        env.new_uuid w1.calls,
        env.now (suc w1.calls),
        recorded
            ∙ ap
                (λ (d : Db). record d {
                  audit_events =
                      d.audit_events
                      ++ clearing_event env admin_id account_id v (env.new_uuid w1.calls)
                          (env.now (suc w1.calls))
                        ∷ [];
                })
                saved,
      )

-- A run that changed no table and did not report an unlock.
abbrev pub Leaves : Db → Result Bool × World → Type 0
Leaves d (r, w') = (w'.db ≡ d) × ((r ≡ ok false) ⊎ (is_err r ≡ true))

-- A run that unlocked `v` and recorded it.
abbrev pub Clears : Env → String → Uuid → Verification → Db → Result Bool × World → Type 0
Clears env admin_id account_id v d (r, w') =
    Records env admin_id account_id v d w'.db × ((r ≡ ok true) ⊎ (is_err r ≡ true))

recorded :
    (env : Env) (admin_id : String) (account_id : Uuid) (v : Verification) (w : World)
    (p : Result (Unit {0}) × World) {a : Unit {0}}
    → (unlock_and_record env admin_id account_id v (counted w)).0 ≡ ok a
    → p.1.db ≡ (unlock_and_record env admin_id account_id v (counted w)).1.db
    → Records env admin_id account_id v w.db p.1.db
recorded env admin_id account_id v w p done stored =
    let body = unlock_and_record env admin_id account_id v (counted w) in
    subst (Records env admin_id account_id v w.db) (sym stored)
      (unlock_and_record-eq-ok env admin_id account_id v (counted w) {w' = body.1} (cc))

recorded_cases :
    (env : Env) (admin_id : String) (account_id : Uuid) (v : Verification) (w : World)
    (p : Result (Unit {0}) × World)
    → AllOrNothing w.db (unlock_and_record env admin_id account_id v (counted w)) p
    → let q = continue (λ _. pure true) p.0 p.1 in
      Leaves w.db q ⊎ Clears env admin_id account_id v w.db q
recorded_cases env admin_id account_id v w p (inl (same, (e, bad))) = rw bad (inl (same, inr refl))
recorded_cases env admin_id account_id v w p (inr (a, done, stored, inl good)) =
    rw good (inr (recorded env admin_id account_id v w p done stored, inl refl))
recorded_cases env admin_id account_id v w p (inr (a, done, stored, inr (e, bad))) =
    rw bad (inr (recorded env admin_id account_id v w p done stored, inr refl))

clear_latest_cases :
    (env : Env) (admin_id : String) (account_id : Uuid) (now : Time) (v : Verification) (w : World)
    → let q = clear_latest env admin_id account_id now (ok v) w in
      Leaves w.db q ⊎ ((is_locked v now ≡ true) × Clears env admin_id account_id v w.db q)
unfolding clear_latest
clear_latest_cases env admin_id account_id now v w = elim (Bool-cases (is_locked v now)) [
  | inr open_now ↦ rw open_now (inl (refl, inl refl))
  | inl held ↦
      rw held
        (elim (recorded_cases env admin_id account_id v w _
          (in_tx_atomic env (unlock_and_record env admin_id account_id v) w)) [
            | inl leaves ↦ inl leaves
            | inr clears ↦ inr (refl, clears)
          ])
]

-- An unlock leaves every table as it was, and then it does not report success; or the account is
-- stored, its phone's latest challenge is locked, and that challenge is unlocked together with one
-- audit event that names the administrator, the account and the challenge: never one of the two
-- alone, whatever the driver answers. An unlock that reports success is of the second kind.
pub clear_lockout_cases :
    (env : Env) (admin_id : String) (account_id : Uuid) (w : World)
    → let q = clear_lockout env admin_id account_id w in
      Leaves w.db q
      ⊎ ((a : Account) × (v : Verification) × (find
              (λ (b : Account). b.id == account_id)
              w.db.accounts
            ≡ some a)
          × (find_latest a.phone w.db ≡ some v)
          × (is_locked v (env.now (suc w.calls)) ≡ true)
          × Clears env admin_id account_id v w.db q)
unfolding clear_lockout clear_latest
clear_lockout_cases env admin_id account_id w = elim (find_by_id_cases env w account_id) [
  | inl (e, bad, _) ↦ rw bad (inl (refl, inr refl))
  | inr (a, row, good) ↦ rw good (elim (find_latest_cases env (counted (counted w)) a.phone) [
    | inl (e, bad, _) ↦ rw bad (elim (Bool-cases (errors_is e not_found)) [
      | inl missing ↦ rw missing (inl (refl, inl refl))
      | inr other ↦ rw other (inl (refl, inr refl))
    ])
    | inr (v, newest_row, found) ↦
        rw found
          (elim (clear_latest_cases env admin_id account_id (env.now (suc w.calls)) v
            (counted (counted (counted w)))) [
              | inl leaves ↦ inl leaves
              | inr (held, clears) ↦ inr (a, v, row, newest_row, held, clears)
            ])
  ])
]
