-- ===== src/Postgres/Success.antt =====
-- What a successful call of a repository has read or written.
use passwordless_auth_servic.Prelude.{
  String, false, some, [], ◌∷◌, ◌++◌, str_eq, ◌==◌, any, find, select, length, update, ◌≡◌, ◌≢◌,
  arith,
}
use passwordless_auth_servic.Auth.Domain.{Account, Verification, Session, AuditEvent}
use passwordless_auth_servic.Auth.Failure.{ok}
use passwordless_auth_servic.Platform.World.{Env, World}
use passwordless_auth_servic.Postgres.Driver.{counted}
use passwordless_auth_servic.Postgres.Accounts
use passwordless_auth_servic.Postgres.Accounts.{
  clashes, account_create, is_unique_violation, translate_create,
}
use passwordless_auth_servic.Postgres.Verifications
use passwordless_auth_servic.Postgres.Verifications.{
  has_id, verification_update, verification_create, set_columns,
}
use passwordless_auth_servic.Postgres.Verifications.Enum.{stored_lem}
use passwordless_auth_servic.Postgres.Sessions
use passwordless_auth_servic.Postgres.Sessions.{session_clashes, account_exists_in}

module _ (env : Env) (w : World) {w' : World} where
  pub find_by_phone-eq-ok :
      (phone : String) {a : Account}
      → Accounts.find_by_phone env phone w ≡ (ok a, w')
      → (find (λ b. str_eq b.phone phone) w.db.accounts ≡ some a) × (w' ≡ counted w)
  unfolding Accounts.find_by_phone
  find_by_phone-eq-ok phone e = ground arith

  pub create_account-eq-ok :
      (a : Account)
      → Accounts.create env a w ≡ (ok tt, w')
      → (any (clashes a) w.db.accounts ≡ false)
        × (w'.db ≡ record w.db { accounts = w.db.accounts ++ a ∷ [] })
        × (w'.outbox ≡ w.outbox)
  unfolding Accounts.create
  create_account-eq-ok a e = ground arith

  pub create_session-eq-ok :
      (s : Session)
      → Sessions.create env s w ≡ (ok tt, w')
      → (any (session_clashes s) w.db.sessions ≡ false)
        × (w'.db ≡ record w.db { sessions = w.db.sessions ++ s ∷ [] })
        × (w'.outbox ≡ w.outbox)
  unfolding Sessions.create
  create_session-eq-ok s e = ground arith

  pub save_verification-eq-ok :
      (v : Verification)
      → Verifications.save env v w ≡ (ok tt, w')
      → (length (select (has_id v.id) w.db.verifications) ≢ 0)
        × (w'.db ≡ record w.db {
          verifications = update (has_id v.id) (set_columns v) w.db.verifications;
        })
        × (w'.outbox ≡ w.outbox)
  unfolding Verifications.save
  save_verification-eq-ok v e = ground arith

  pub create_verification-eq-ok :
      (v : Verification)
      → Verifications.create env v w ≡ (ok tt, w')
      → (any (has_id v.id) w.db.verifications ≡ false)
        × (w'.db ≡ record w.db { verifications = w.db.verifications ++ v ∷ [] })
        × (w'.outbox ≡ w.outbox)
  unfolding Verifications.create
  create_verification-eq-ok v e = ground (arith, stored_lem v)

  pub create_audit_event-eq-ok :
      (a : AuditEvent)
      → Sessions.create_audit_event env a w ≡ (ok tt, w')
      → (any (λ (b : AuditEvent). b.id == a.id) w.db.audit_events ≡ false)
        × (w'.db ≡ record w.db { audit_events = w.db.audit_events ++ a ∷ [] })
        × (w'.outbox ≡ w.outbox)
  unfolding Sessions.create_audit_event
  create_audit_event-eq-ok a e = ground arith
