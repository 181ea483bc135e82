-- ===== src/Postgres/Writes.antt =====
-- How the writes of the repositories end, whatever the driver answers: the statement took effect or
-- not, and an error is possible in both cases.
use passwordless_auth_servic.Prelude.{true, suc, ◌≢◌, [], ◌∷◌, ◌++◌, ◌==◌, update, ◌≡◌, arith, ◌⊎◌}
use passwordless_auth_servic.Auth.Domain.{Verification, Session, AuditEvent}
use passwordless_auth_servic.Auth.Failure.{Result, is_err}
use passwordless_auth_servic.Platform.World.{Db, failed, Env, World}
use passwordless_auth_servic.Postgres.Verifications
use passwordless_auth_servic.Postgres.Verifications.{has_id, set_columns}
use passwordless_auth_servic.Postgres.Verifications.Enum.{stored_lem}
use passwordless_auth_servic.Postgres.Sessions
use passwordless_auth_servic.Postgres.Sessions.{session_update, session_revoke}

-- A write at `w` that stores `d`, or stores nothing and fails.
abbrev pub Wrote : Db → World → Result (Unit {0}) × World → Type 0
Wrote d w (r, w') = (w'.outbox ≡ w.outbox) × (((w'.db ≡ w.db) × (is_err r ≡ true)) ⊎ (w'.db ≡ d))

module _ (env : Env) (w : World) where
  -- The two writes of challenges, with the answer of the driver that they rest on.
  abbrev pub WroteBy : Db → Result (Unit {0}) × World → Type 0
  WroteBy d (r, w') =
      (w'.outbox ≡ w.outbox)
      × (w'.calls ≡ suc w.calls)
      × (((w'.db ≡ w.db) × (is_err r ≡ true)) ⊎ ((w'.db ≡ d) × (env.driver w.calls ≢ failed)))

  pub create_verification_settled :
      (v : Verification)
      → WroteBy
          (record w.db { verifications = w.db.verifications ++ v ∷ [] })
          (Verifications.create env v w)
  unfolding Verifications.create
  create_verification_settled v = ground (arith, stored_lem v)

  pub save_verification_settled :
      (v : Verification)
      → WroteBy
          (record w.db { verifications = update (has_id v.id) (set_columns v) w.db.verifications })
          (Verifications.save env v w)
  unfolding Verifications.save
  save_verification_settled v = ground arith

  pub create_verification_cases :
      (v : Verification)
      → Wrote
          (record w.db { verifications = w.db.verifications ++ v ∷ [] })
          w
          (Verifications.create env v w)
  unfolding Verifications.create
  create_verification_cases v = ground (arith, stored_lem v)

  pub save_verification_cases :
      (v : Verification)
      → Wrote
          (record w.db { verifications = update (has_id v.id) (set_columns v) w.db.verifications })
          w
          (Verifications.save env v w)
  unfolding Verifications.save
  save_verification_cases v = ground arith

  pub save_session_cases :
      (s : Session)
      → Wrote
          (record w.db {
            sessions =
                update
                  (λ t. t.id == s.id)
                  (λ t. record t { last_active_at = s.last_active_at; expires_at = s.expires_at })
                  w.db.sessions;
          })
          w
          (Sessions.save env s w)
  unfolding Sessions.save
  save_session_cases s = ground arith

  pub create_audit_event_cases :
      (e : AuditEvent)
      → Wrote
          (record w.db { audit_events = w.db.audit_events ++ e ∷ [] })
          w
          (Sessions.create_audit_event env e w)
  unfolding Sessions.create_audit_event
  create_audit_event_cases e = ground arith
