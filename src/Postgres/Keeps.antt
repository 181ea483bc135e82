-- ===== src/Postgres/Keeps.antt =====
-- What the repositories of internal/auth/postgres/repository.go keep of the tables: all that their
-- statements keep.
use passwordless_auth_servic.Prelude.{ℕ, String, List, [], ◌∷◌}
use passwordless_auth_servic.Auth.Domain.{
  Time, Uuid, Status, Account, Verification, Session, AuditEvent,
}
use passwordless_auth_servic.Auth.Failure.{Result, ok, err, wrapped}
use passwordless_auth_servic.Platform.World.{Db, Env, Exec, ◌>>=◌, pure, attempt, on_error}
use passwordless_auth_servic.Postgres.Driver.{Written, exec}
use passwordless_auth_servic.Platform.Uow.Keeps.{
  Leaves, Keeps, Keeps-pure, Keeps-attempt, Keeps-on_error, Keeps-bind, Keeps-exec, keeps_rules,
}
use passwordless_auth_servic.Postgres.Accounts
use passwordless_auth_servic.Postgres.Accounts.{translate_create, account_create}
use passwordless_auth_servic.Postgres.Verifications
use passwordless_auth_servic.Postgres.Verifications.{
  require_rows, verification_create, verification_update,
}
use passwordless_auth_servic.Postgres.Sessions
use passwordless_auth_servic.Postgres.Sessions.{
  session_create, session_update, session_revoke, audit_event_create,
}

-- Whatever the statements outside the table of challenges write, they leave `P` true of the tables.
pub record StableOutside {κ} (P : Db → Type κ) : Type κ where
  pub under_account_create : (a : Account) (d : Db) → P d → Leaves P (account_create a d)
  pub under_session_create : (s : Session) (d : Db) → P d → Leaves P (session_create s d)
  pub under_session_update : (s : Session) (d : Db) → P d → Leaves P (session_update s d)
  pub under_session_revoke :
      (token_hash : String) (now : Time) (d : Db) → P d → Leaves P (session_revoke token_hash now d)
  pub under_audit_event_create : (e : AuditEvent) (d : Db) → P d → Leaves P (audit_event_create e d)

-- Whatever a statement writes, it leaves `P` true of the tables.
pub record Stable {κ} (P : Db → Type κ) : Type κ where
  pub outside : StableOutside P
  pub under_verification_create :
      (v : Verification) (d : Db) → P d → Leaves P (verification_create v d)
  pub under_verification_update :
      (v : Verification) (d : Db) → P d → Leaves P (verification_update v d)

module _ {κ} {P : Db → Type κ} where
  require_rows-Keeps : (n : ℕ) → Keeps P (require_rows n)
  require_rows-Keeps n = search keeps_rules

  translate_create-Keeps : (r : Result ℕ) → Keeps P (translate_create r)
  translate_create-Keeps (ok n) = search keeps_rules
  translate_create-Keeps (err e) = search keeps_rules

pub stable-outside {κ} : {P : Db → Type κ} → Stable P → StableOutside P
stable-outside stable = stable.outside

module _ {κ} {P : Db → Type κ} (outside : StableOutside P) (env : Env) where
  -- A statement and what follows its answer.
  exec-Keeps :
      (op : String) (f : Db → Written) (rest : ℕ → Exec (Unit {0}))
      → ((d : Db) → P d → Leaves P (f d))
      → ((n : ℕ) → Keeps P (rest n))
      → Keeps P (on_error (wrapped op) (exec env f) >>= rest)
  exec-Keeps op f rest k kept =
      Keeps-bind (on_error (wrapped op) (exec env f)) rest
        (Keeps-on_error (wrapped op) (exec env f) (Keeps-exec env f k)) kept

  pub find_by_phone-Keeps : (phone : String) → Keeps P (Accounts.find_by_phone env phone)
  unfolding Accounts.find_by_phone
  find_by_phone-Keeps phone = search (keeps_rules)

  pub find_by_id-Keeps : (id : Uuid) → Keeps P (Accounts.find_by_id env id)
  unfolding Accounts.find_by_id
  find_by_id-Keeps id = search (keeps_rules)

  pub find_by_google_subject-Keeps :
      (subject : String) → Keeps P (Accounts.find_by_google_subject env subject)
  unfolding Accounts.find_by_google_subject
  find_by_google_subject-Keeps subject = search (keeps_rules)

  pub list-Keeps :
      (phone_filter : String) (limit : ℕ) (offset : ℕ)
      → Keeps P (Accounts.list env phone_filter limit offset)
  unfolding Accounts.list
  list-Keeps phone_filter limit offset = search (keeps_rules)

  pub count_created_since-Keeps : (since : Time) → Keeps P (Accounts.count_created_since env since)
  unfolding Accounts.count_created_since
  count_created_since-Keeps since = search (keeps_rules)

  pub create_account-Keeps : (a : Account) → Keeps P (Accounts.create env a)
  unfolding Accounts.create
  create_account-Keeps a =
      Keeps-bind (attempt (exec env (account_create a))) translate_create
        (Keeps-attempt (exec env (account_create a))
          (Keeps-exec env (account_create a) (outside.under_account_create a)))
        translate_create-Keeps

  pub get-Keeps : (id : Uuid) → Keeps P (Verifications.get env id)
  unfolding Verifications.get
  get-Keeps id = search (keeps_rules)

  pub find_latest_by_phone-Keeps :
      (phone : String) → Keeps P (Verifications.find_latest_by_phone env phone)
  unfolding Verifications.find_latest_by_phone
  find_latest_by_phone-Keeps phone = search (keeps_rules)

  pub locked_phones-Keeps :
      (phones : List String) (now : Time) → Keeps P (Verifications.locked_phones env phones now)
  unfolding Verifications.locked_phones
  locked_phones-Keeps [] now = search keeps_rules
  locked_phones-Keeps (p ∷ ps) now = search keeps_rules

  pub count_sends_since-Keeps :
      (phone : String) (since : Time) → Keeps P (Verifications.count_sends_since env phone since)
  unfolding Verifications.count_sends_since
  count_sends_since-Keeps phone since = search (keeps_rules)

  pub sum_failed_attempts_since-Keeps :
      (since : Time) → Keeps P (Verifications.sum_failed_attempts_since env since)
  unfolding Verifications.sum_failed_attempts_since
  sum_failed_attempts_since-Keeps since = search (keeps_rules)

  pub count_by_status_since-Keeps :
      (status : Status) (since : Time)
      → Keeps P (Verifications.count_by_status_since env status since)
  unfolding Verifications.count_by_status_since
  count_by_status_since-Keeps status since = search (keeps_rules)

  pub create_session-Keeps : (s : Session) → Keeps P (Sessions.create env s)
  unfolding Sessions.create
  create_session-Keeps s =
      exec-Keeps "auth: create session" (session_create s) (λ _. pure tt)
        (outside.under_session_create s) (λ _. Keeps-pure tt)

  pub find_by_token_hash-Keeps :
      (token_hash : String) → Keeps P (Sessions.find_by_token_hash env token_hash)
  unfolding Sessions.find_by_token_hash
  find_by_token_hash-Keeps token_hash = search (keeps_rules)

  pub save_session-Keeps : (s : Session) → Keeps P (Sessions.save env s)
  unfolding Sessions.save
  save_session-Keeps s =
      exec-Keeps "auth: update session" (session_update s) require_rows
        (outside.under_session_update s) require_rows-Keeps

  pub revoke_by_token_hash-Keeps :
      (token_hash : String) (revoked_at : Time)
      → Keeps P (Sessions.revoke_by_token_hash env token_hash revoked_at)
  unfolding Sessions.revoke_by_token_hash
  revoke_by_token_hash-Keeps token_hash revoked_at =
      exec-Keeps "auth: revoke session" (session_revoke token_hash revoked_at) (λ _. pure tt)
        (outside.under_session_revoke token_hash revoked_at) (λ _. Keeps-pure tt)

  pub create_audit_event-Keeps : (e : AuditEvent) → Keeps P (Sessions.create_audit_event env e)
  unfolding Sessions.create_audit_event
  create_audit_event-Keeps e =
      exec-Keeps "auth: create audit event" (audit_event_create e) (λ _. pure tt)
        (outside.under_audit_event_create e) (λ _. Keeps-pure tt)

module _ {κ} {P : Db → Type κ} (stable : Stable P) (env : Env) where
  pub create_verification-Keeps : (v : Verification) → Keeps P (Verifications.create env v)
  unfolding Verifications.create
  create_verification-Keeps v =
      exec-Keeps stable.outside env "auth: create verification" (verification_create v)
        (λ _. pure tt) (stable.under_verification_create v) (λ _. Keeps-pure tt)

  pub save_verification-Keeps : (v : Verification) → Keeps P (Verifications.save env v)
  unfolding Verifications.save
  save_verification-Keeps v =
      exec-Keeps stable.outside env "auth: update verification" (verification_update v) require_rows
        (stable.under_verification_update v) require_rows-Keeps

pub ruleset repository_rules = (
  keeps_rules, stable-outside, find_by_phone-Keeps, find_by_id-Keeps, find_by_google_subject-Keeps,
  list-Keeps, count_created_since-Keeps, create_account-Keeps, create_verification-Keeps, get-Keeps,
  find_latest_by_phone-Keeps, locked_phones-Keeps, count_sends_since-Keeps,
  sum_failed_attempts_since-Keeps, count_by_status_since-Keeps, save_verification-Keeps,
  create_session-Keeps, find_by_token_hash-Keeps, save_session-Keeps, revoke_by_token_hash-Keeps,
  create_audit_event-Keeps,
)
