-- ===== src/Postgres/Raises.antt =====
-- Which errors the repositories of internal/auth/postgres/repository.go can return.
use passwordless_auth_servic.Prelude.{
  ℕ, Bool, true, false, String, List, [], ◌∷◌, ◌≡◌, if◌then◌else◌,
}
use passwordless_auth_servic.Auth.Domain.{
  Time, Uuid, Status, Account, Verification, Session, AuditEvent,
}
use passwordless_auth_servic.Auth.Failure.{
  Sentinel, Error, not_found, account_exists, errors_is, Result, ok, err,
}
use passwordless_auth_servic.Platform.World.{Env, Exec, on_error}
use passwordless_auth_servic.Platform.Uow.Raises.{
  among, Names, ErrNames, Raises, Names-sentinel, Names-wrapped, Raises-on_error, Raises-attempt,
  Raises-exec, raises_rules,
}
use passwordless_auth_servic.Postgres.Accounts
use passwordless_auth_servic.Postgres.Accounts.{translate_create, account_create}
use passwordless_auth_servic.Postgres.Verifications
use passwordless_auth_servic.Postgres.Verifications.{require_rows, wrap_unless_not_found}
use passwordless_auth_servic.Postgres.Sessions

module _ {names : List Sentinel} where
  pub Names-if :
      (b : Bool) (x y : Error) → Names names x → Names names y → Names names (if b then x else y)
  Names-if true x y hx hy = hx
  Names-if false x y hx hy = hy

  require_rows-Raises : (n : ℕ) → among names not_found ≡ true → Raises names (require_rows n)
  require_rows-Raises n missing = search raises_rules

module _ {names : List Sentinel} (env : Env) where
  pub list-Raises :
      (phone_filter : String) (limit : ℕ) (offset : ℕ)
      → Raises names (Accounts.list env phone_filter limit offset)
  unfolding Accounts.list
  list-Raises phone_filter limit offset = search raises_rules

  pub count_created_since-Raises :
      (since : Time) → Raises names (Accounts.count_created_since env since)
  unfolding Accounts.count_created_since
  count_created_since-Raises since = search raises_rules

  pub create_account-Raises :
      (a : Account) → among names account_exists ≡ true → Raises names (Accounts.create env a)
  unfolding Accounts.create
  create_account-Raises a exists =
      Raises-attempt names _ translate_create (Raises-exec env (account_create a)) translated
    where
      translated : (r : Result ℕ) → ErrNames names r → Raises names (translate_create r)
      translated (ok n) h = search raises_rules
      translated (err e) h = search raises_rules

  pub create_verification-Raises : (v : Verification) → Raises names (Verifications.create env v)
  unfolding Verifications.create
  create_verification-Raises v = search raises_rules

  pub locked_phones-Raises :
      (phones : List String) (now : Time)
      → Raises names (Verifications.locked_phones env phones now)
  unfolding Verifications.locked_phones
  locked_phones-Raises [] now = search raises_rules
  locked_phones-Raises (p ∷ ps) now = search raises_rules

  pub count_sends_since-Raises :
      (phone : String) (since : Time)
      → Raises names (Verifications.count_sends_since env phone since)
  unfolding Verifications.count_sends_since
  count_sends_since-Raises phone since = search raises_rules

  pub sum_failed_attempts_since-Raises :
      (since : Time) → Raises names (Verifications.sum_failed_attempts_since env since)
  unfolding Verifications.sum_failed_attempts_since
  sum_failed_attempts_since-Raises since = search raises_rules

  pub count_by_status_since-Raises :
      (status : Status) (since : Time)
      → Raises names (Verifications.count_by_status_since env status since)
  unfolding Verifications.count_by_status_since
  count_by_status_since-Raises status since = search raises_rules

  pub create_session-Raises : (s : Session) → Raises names (Sessions.create env s)
  unfolding Sessions.create
  create_session-Raises s = search raises_rules

  pub revoke_by_token_hash-Raises :
      (token_hash : String) (revoked_at : Time)
      → Raises names (Sessions.revoke_by_token_hash env token_hash revoked_at)
  unfolding Sessions.revoke_by_token_hash
  revoke_by_token_hash-Raises token_hash revoked_at = search raises_rules

  pub create_audit_event-Raises :
      (e : AuditEvent) → Raises names (Sessions.create_audit_event env e)
  unfolding Sessions.create_audit_event
  create_audit_event-Raises e = search raises_rules

  -- The calls that look for a row.
  module _ (missing : among names not_found ≡ true) where
    pub find_by_phone-Raises : (phone : String) → Raises names (Accounts.find_by_phone env phone)
    unfolding Accounts.find_by_phone
    find_by_phone-Raises phone = search raises_rules

    pub find_by_id-Raises : (id : Uuid) → Raises names (Accounts.find_by_id env id)
    unfolding Accounts.find_by_id
    find_by_id-Raises id = search raises_rules

    pub find_by_google_subject-Raises :
        (subject : String) → Raises names (Accounts.find_by_google_subject env subject)
    unfolding Accounts.find_by_google_subject
    find_by_google_subject-Raises subject = search raises_rules

    wrap_unless-Raises :
        {A : Type 0} (op : String) (m : Exec A)
        → Raises names m
        → Raises names (on_error (wrap_unless_not_found op) m)
    wrap_unless-Raises op m = Raises-on_error (wrap_unless_not_found op) m (λ e h.
        Names-if (errors_is e not_found) _ _ (Names-sentinel not_found missing)
          (Names-wrapped op e h))

    pub get-Raises : (id : Uuid) → Raises names (Verifications.get env id)
    unfolding Verifications.get
    get-Raises id = search (raises_rules, wrap_unless-Raises)

    pub find_latest_by_phone-Raises :
        (phone : String) → Raises names (Verifications.find_latest_by_phone env phone)
    unfolding Verifications.find_latest_by_phone
    find_latest_by_phone-Raises phone = search (raises_rules, wrap_unless-Raises)

    pub save_verification-Raises : (v : Verification) → Raises names (Verifications.save env v)
    unfolding Verifications.save
    save_verification-Raises v = search (raises_rules, require_rows-Raises)

pub ruleset repository_errors = (
  raises_rules, list-Raises, count_created_since-Raises, create_account-Raises,
  create_verification-Raises, locked_phones-Raises, count_sends_since-Raises,
  sum_failed_attempts_since-Raises, count_by_status_since-Raises, create_session-Raises,
  revoke_by_token_hash-Raises, create_audit_event-Raises, find_by_phone-Raises, find_by_id-Raises,
  find_by_google_subject-Raises, get-Raises, find_latest_by_phone-Raises, save_verification-Raises,
)
