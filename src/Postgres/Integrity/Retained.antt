-- ===== src/Postgres/Integrity/Retained.antt =====
-- The rows of the tables user_account and audit_event, which no statement of
-- internal/auth/postgres/queries changes or deletes.
use passwordless_auth_servic.Prelude.{List, any, inl, inr, Bool-cases}
use passwordless_auth_servic.Auth.Domain.{Account, AuditEvent}
use passwordless_auth_servic.Platform.World.{Db}
use passwordless_auth_servic.Postgres.Accounts.{clashes}
use passwordless_auth_servic.Postgres.Verifications.{has_id}
use passwordless_auth_servic.Postgres.Sessions.{session_clashes, account_exists_in}
use passwordless_auth_servic.Postgres.Keeps.{Stable}
use passwordless_auth_servic.Postgres.Integrity.{same_event}
use passwordless_auth_servic.Postgres.Integrity.Pairs.{Retains, Retains-snoc}

-- The tables still have the given accounts and audit events, as they were.
abbrev pub Retained : List Account → List AuditEvent → Db → Type 0
Retained accounts events d = Retains accounts d.accounts × Retains events d.audit_events

pub Retained-Stable :
    (accounts : List Account) (events : List AuditEvent) → Stable (Retained accounts events)
Retained-Stable accounts events = record {
  outside = record {
    under_account_create = λ a d h. elim (Bool-cases (any (clashes a) d.accounts)) [
      | inl e ↦ rw e tt
      | inr e ↦ rw e (Retains-snoc accounts d.accounts a h.0, h.1)
    ];
    under_session_create = λ s d h. elim (Bool-cases (any (session_clashes s) d.sessions)) [
      | inl e ↦ rw e tt
      | inr e ↦ rw e (elim (Bool-cases (account_exists_in s.account_id d)) [
        | inl owned ↦ rw owned h
        | inr orphan ↦ rw orphan tt
      ])
    ];
    under_session_update = λ s d h. h;
    under_session_revoke = λ token_hash now d h. h;
    under_audit_event_create = λ e d h. elim (Bool-cases (any (same_event e) d.audit_events)) [
      | inl clash ↦ rw clash tt
      | inr fresh ↦ rw fresh (elim (Bool-cases (account_exists_in e.target_account_id d)) [
        | inl owned ↦ rw owned (h.0, Retains-snoc events d.audit_events e h.1)
        | inr orphan ↦ rw orphan tt
      ])
    ];
  };
  under_verification_create = λ v d h. elim (Bool-cases (any (has_id v.id) d.verifications)) [
    | inl e ↦ rw e tt
    | inr e ↦ rw e h
  ];
  under_verification_update = λ v d h. h;
}
