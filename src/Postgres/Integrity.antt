-- ===== src/Postgres/Integrity.antt =====
-- The integrity of the tables that the constraints of migrations/ ask for.
pub mod Rows
pub mod Statements
pub mod Pairs
pub mod Keys
pub mod Retained
use passwordless_auth_servic.Prelude.{ℕ, Bool, true, false, ◌||◌, List, any, ◌==◌, ◌≡◌}
use passwordless_auth_servic.Auth.Domain.{Account, Verification, Session, AuditEvent}
use passwordless_auth_servic.Platform.World.{Db}
use passwordless_auth_servic.Postgres.Accounts.{clashes}
use passwordless_auth_servic.Postgres.Verifications.{has_id}
use passwordless_auth_servic.Postgres.Sessions.{session_clashes, account_exists_in}
use passwordless_auth_servic.Postgres.Integrity.Rows.{Distinct, All}

abbrev pub same_event : AuditEvent → AuditEvent → Bool
same_event e f = f.id == e.id

-- No two rows of a table clash on a unique column, and every session and every audit event refers to
-- a stored account.
pub record IsSound (d : Db) : Type 0 where
  pub accounts_distinct : Distinct clashes d.accounts
  pub verifications_distinct : Distinct (λ v. has_id v.id) d.verifications
  pub sessions_distinct : Distinct session_clashes d.sessions
  pub events_distinct : Distinct same_event d.audit_events
  pub sessions_owned : All (λ s. account_exists_in s.account_id d ≡ true) d.sessions
  pub events_owned : All (λ e. account_exists_in e.target_account_id d ≡ true) d.audit_events
