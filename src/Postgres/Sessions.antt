-- ===== src/Postgres/Sessions.antt =====
-- `SessionRepository` and `AuditEventRepository` of internal/auth/postgres/repository.go, with their
-- statements in queries/ and the tables session and audit_event of migrations/.
use passwordless_auth_servic.Prelude.{
  String, Bool, ◌&&◌, ◌||◌, some, [], ◌∷◌, ◌++◌, str_eq, ◌==◌, if◌then◌else◌, find, any, select,
  length, update,
}
use passwordless_auth_servic.Auth.Domain.{Time, Uuid, Account, Session, AuditEvent, is_nil}
use passwordless_auth_servic.Auth.Failure.{sentinel, not_found, wrapped}
use passwordless_auth_servic.Platform.World.{Db, Env, Exec, ◌>>=◌, pure, on_error, or_raise}
use passwordless_auth_servic.Postgres.Driver.{Written, written, rejected, query, exec}
use passwordless_auth_servic.Postgres.Accounts.{unique_violation}
use passwordless_auth_servic.Postgres.Verifications.{require_rows}

abbrev pub foreign_key_violation : String
foreign_key_violation = "23503"

abbrev pub has_token_hash : String → Session → Bool
has_token_hash token_hash s = str_eq s.token_hash token_hash

abbrev pub session_clashes : Session → Session → Bool
session_clashes s t = (t.id == s.id) || has_token_hash s.token_hash t

abbrev pub account_exists_in : Uuid → Db → Bool
account_exists_in id d = any (λ (a : Account). a.id == id) d.accounts

-- session_create.sql, with the unique constraints and the foreign key of the table
abbrev pub session_create : Session → Db → Written
session_create s d =
    if any (session_clashes s) d.sessions
    then rejected unique_violation
    else if account_exists_in s.account_id d
    then written 1 (record d { sessions = d.sessions ++ s ∷ [] })
    else rejected foreign_key_violation

-- session_update.sql
abbrev pub session_update : Session → Db → Written
session_update s d = written (length (select (λ t. t.id == s.id) d.sessions)) (record d {
  sessions =
      update (λ t. t.id == s.id)
        (λ t. record t { last_active_at = s.last_active_at; expires_at = s.expires_at }) d.sessions;
})

-- session_revoke_by_token_hash.sql
abbrev pub is_live : String → Session → Bool
is_live token_hash s = has_token_hash token_hash s && is_nil s.revoked_at

abbrev pub session_revoke : String → Time → Db → Written
session_revoke token_hash revoked_at d =
    written (length (select (is_live token_hash) d.sessions)) (record d {
      sessions =
          update (is_live token_hash) (λ t. record t { revoked_at = some revoked_at }) d.sessions;
    })

-- audit_event_create.sql
abbrev pub audit_event_create : AuditEvent → Db → Written
audit_event_create e d =
    if any (λ (f : AuditEvent). f.id == e.id) d.audit_events
    then rejected unique_violation
    else if account_exists_in e.target_account_id d
    then written 1 (record d { audit_events = d.audit_events ++ e ∷ [] })
    else rejected foreign_key_violation

module _ (env : Env) where
  unfoldable pub create : Session → Exec (Unit {0})
  create s =
      on_error (wrapped "auth: create session") (exec env (session_create s)) >>= λ _. pure tt

  unfoldable pub find_by_token_hash : String → Exec Session
  find_by_token_hash token_hash =
      on_error (wrapped "auth: find session by token hash")
        (query env (λ d. find (has_token_hash token_hash) d.sessions))
      >>= or_raise (sentinel not_found)

  -- `Update`
  unfoldable pub save : Session → Exec (Unit {0})
  save s = on_error (wrapped "auth: update session") (exec env (session_update s)) >>= require_rows

  unfoldable pub revoke_by_token_hash : String → Time → Exec (Unit {0})
  revoke_by_token_hash token_hash revoked_at =
      on_error (wrapped "auth: revoke session") (exec env (session_revoke token_hash revoked_at))
      >>= λ _. pure tt

  -- `AuditEventRepository.Create`. Marshalling the metadata, strings by strings, cannot fail.
  unfoldable pub create_audit_event : AuditEvent → Exec (Unit {0})
  create_audit_event e =
      on_error (wrapped "auth: create audit event") (exec env (audit_event_create e)) >>= λ _.
      pure tt
