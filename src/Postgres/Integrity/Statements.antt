-- ===== src/Postgres/Integrity/Statements.antt =====
-- The statements of internal/auth/postgres/queries that write, on tables whose constraints hold.
use passwordless_auth_servic.Prelude.{
  String, Bool, true, Option, none, some, List, [], ◌∷◌, ◌++◌, any, update, str_eq, eq_iff, ◌==◌,
  ◌≡◌, refl, arith, Bool-cases, inl, inr,
}
use passwordless_auth_servic.Auth.Domain.{Time, Account, Verification, Session, AuditEvent}
use passwordless_auth_servic.Platform.World.{Db}
use passwordless_auth_servic.Platform.Uow.Keeps.{Leaves}
use passwordless_auth_servic.Postgres.Accounts.{clashes, same_subject, account_create}
use passwordless_auth_servic.Postgres.Verifications.{
  has_id, set_columns, verification_create, verification_update,
}
use passwordless_auth_servic.Postgres.Verifications.Enum.{stored_lem}
use passwordless_auth_servic.Postgres.Sessions.{
  session_clashes, account_exists_in, is_live, session_create, session_update, session_revoke,
  audit_event_create,
}
use passwordless_auth_servic.Postgres.Keeps.{Stable}
use passwordless_auth_servic.Postgres.Integrity.{IsSound, same_event}
use passwordless_auth_servic.Postgres.Integrity.Rows.{
  Distinct, All, All-snoc, All-mono, All-update, Distinct-snoc, Distinct-update, any-kept,
}

str_eq_sym : (s t : String) → str_eq s t ≡ str_eq t s
str_eq_sym s t = ground (arith, eq_iff s t, eq_iff t s)

same_subject_sym : (s t : Option String) → same_subject s t ≡ same_subject t s
same_subject_sym none none = refl
same_subject_sym none (some t) = refl
same_subject_sym (some s) none = refl
same_subject_sym (some s) (some t) = str_eq_sym s t

clashes_sym : (a b : Account) → clashes a b ≡ clashes b a
clashes_sym a b =
    ground (arith, str_eq_sym a.phone b.phone, same_subject_sym a.google_subject b.google_subject)

session_clashes_sym : (s t : Session) → session_clashes s t ≡ session_clashes t s
session_clashes_sym s t = ground (arith, str_eq_sym s.token_hash t.token_hash)

module _ (d : Db) (h : IsSound d) where
  account_create-IsSound : (a : Account) → Leaves IsSound (account_create a d)
  account_create-IsSound a = elim (Bool-cases (any (clashes a) d.accounts)) [
    | inl clash ↦ rw clash tt
    | inr fresh ↦ rw fresh (record {
      accounts_distinct =
          Distinct-snoc clashes d.accounts a (λ b. clashes_sym b a) fresh h.accounts_distinct;
      verifications_distinct = h.verifications_distinct;
      sessions_distinct = h.sessions_distinct;
      events_distinct = h.events_distinct;
      sessions_owned =
          All-mono _ _ d.sessions
            (λ s. any-kept (λ (b : Account). b.id == s.account_id) d.accounts a) h.sessions_owned;
      events_owned =
          All-mono _ _ d.audit_events
            (λ e. any-kept (λ (b : Account). b.id == e.target_account_id) d.accounts a)
            h.events_owned;
    })
  ]

  with_verifications :
      (vs : List Verification)
      → Distinct (λ v. has_id v.id) vs
      → IsSound (record d { verifications = vs })
  with_verifications vs distinct = record {
    accounts_distinct = h.accounts_distinct;
    verifications_distinct = distinct;
    sessions_distinct = h.sessions_distinct;
    events_distinct = h.events_distinct;
    sessions_owned = h.sessions_owned;
    events_owned = h.events_owned;
  }

  with_sessions :
      (ss : List Session)
      → Distinct session_clashes ss
      → All (λ s. account_exists_in s.account_id d ≡ true) ss
      → IsSound (record d { sessions = ss })
  with_sessions ss distinct owned = record {
    accounts_distinct = h.accounts_distinct;
    verifications_distinct = h.verifications_distinct;
    sessions_distinct = distinct;
    events_distinct = h.events_distinct;
    sessions_owned = owned;
    events_owned = h.events_owned;
  }

  with_events :
      (es : List AuditEvent)
      → Distinct same_event es
      → All (λ e. account_exists_in e.target_account_id d ≡ true) es
      → IsSound (record d { audit_events = es })
  with_events es distinct owned = record {
    accounts_distinct = h.accounts_distinct;
    verifications_distinct = h.verifications_distinct;
    sessions_distinct = h.sessions_distinct;
    events_distinct = distinct;
    sessions_owned = h.sessions_owned;
    events_owned = owned;
  }

  verification_create-IsSound : (v : Verification) → Leaves IsSound (verification_create v d)
  verification_create-IsSound v = elim (Bool-cases (any (has_id v.id) d.verifications)) [
    | inl clash ↦ rw clash tt
    | inr fresh ↦
        rw (fresh, stored_lem v)
          (with_verifications (d.verifications ++ v ∷ []) (
            Distinct-snoc (λ u. has_id u.id) d.verifications v (λ u. ground arith) fresh
              h.verifications_distinct))
  ]

  verification_update-IsSound : (v : Verification) → Leaves IsSound (verification_update v d)
  verification_update-IsSound v = with_verifications _ (
      Distinct-update (λ u. has_id u.id) (has_id v.id) (set_columns v) d.verifications (λ z u. refl)
        (λ z u. refl) h.verifications_distinct)

  session_create-IsSound : (s : Session) → Leaves IsSound (session_create s d)
  session_create-IsSound s = elim (Bool-cases (any (session_clashes s) d.sessions)) [
    | inl clash ↦ rw clash tt
    | inr fresh ↦ rw fresh (elim (Bool-cases (account_exists_in s.account_id d)) [
      | inr orphan ↦ rw orphan tt
      | inl owned ↦ rw owned (
          with_sessions (d.sessions ++ s ∷ [])
            (Distinct-snoc session_clashes d.sessions s (λ t. session_clashes_sym t s) fresh
              h.sessions_distinct)
            (All-snoc _ d.sessions s h.sessions_owned owned))
    ])
  ]

  -- A change that keeps a session's id, account and token.
  sessions_updated :
      (p : Session → Bool) (f : Session → Session)
      → ((s : Session) → (f s).id ≡ s.id)
      → ((s : Session) → (f s).token_hash ≡ s.token_hash)
      → ((s : Session) → (f s).account_id ≡ s.account_id)
      → IsSound (record d { sessions = update p f d.sessions })
  sessions_updated p f same_id same_token same_account =
      with_sessions (update p f d.sessions)
        (Distinct-update session_clashes p f d.sessions (λ z t. rw (same_id t, same_token t) refl)
          (λ z t. rw (same_id z, same_token z) refl) h.sessions_distinct)
        (All-update (λ s. account_exists_in s.account_id d ≡ true) p f d.sessions
          (λ t owned. rw (same_account t) owned) h.sessions_owned)

  session_update-IsSound : (s : Session) → Leaves IsSound (session_update s d)
  session_update-IsSound s =
      sessions_updated (λ t. t.id == s.id)
        (λ t. record t { last_active_at = s.last_active_at; expires_at = s.expires_at }) (λ t. refl)
        (λ t. refl) (λ t. refl)

  session_revoke-IsSound :
      (token_hash : String) (now : Time) → Leaves IsSound (session_revoke token_hash now d)
  session_revoke-IsSound token_hash now =
      sessions_updated (is_live token_hash) (λ t. record t { revoked_at = some now }) (λ t. refl)
        (λ t. refl) (λ t. refl)

  audit_event_create-IsSound : (e : AuditEvent) → Leaves IsSound (audit_event_create e d)
  audit_event_create-IsSound e = elim (Bool-cases (any (same_event e) d.audit_events)) [
    | inl clash ↦ rw clash tt
    | inr fresh ↦ rw fresh (elim (Bool-cases (account_exists_in e.target_account_id d)) [
      | inr orphan ↦ rw orphan tt
      | inl owned ↦ rw owned (
          with_events (d.audit_events ++ e ∷ [])
            (Distinct-snoc same_event d.audit_events e (λ f. ground arith) fresh h.events_distinct)
            (All-snoc _ d.audit_events e h.events_owned owned))
    ])
  ]

pub IsSound-Stable : Stable IsSound
IsSound-Stable = record {
  outside = record {
    under_account_create = λ a d h. account_create-IsSound d h a;
    under_session_create = λ s d h. session_create-IsSound d h s;
    under_session_update = λ s d h. session_update-IsSound d h s;
    under_session_revoke = λ token_hash now d h. session_revoke-IsSound d h token_hash now;
    under_audit_event_create = λ e d h. audit_event_create-IsSound d h e;
  };
  under_verification_create = λ v d h. verification_create-IsSound d h v;
  under_verification_update = λ v d h. verification_update-IsSound d h v;
}
