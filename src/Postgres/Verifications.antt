-- ===== src/Postgres/Verifications.antt =====
-- `VerificationRepository` of internal/auth/postgres/repository.go, with its statements in queries/
-- and the table verification of migrations/.
pub mod Enum
use passwordless_auth_servic.Prelude.{
  ℕ, String, Bool, true, false, ◌&&◌, ◌||◌, Option, none, some, List, [], ◌∷◌, ◌++◌, str_eq, ◌==◌,
  ltb, leb, if◌then◌else◌, find, any, select, length, update, sum_of,
}
use passwordless_auth_servic.Auth.Domain.{
  Time, Uuid, Verification, Status, status_eq, before_deadline,
}
use passwordless_auth_servic.Auth.Failure.{
  Error, Result, ok, err, sentinel, not_found, wrapped, errors_is,
}
use passwordless_auth_servic.Platform.World.{
  Db, Env, Exec, ◌>>=◌, ◌>>◌, pure, attempt, on_error, or_raise, raise,
}
use passwordless_auth_servic.Postgres.Driver.{Written, written, rejected, query, exec}
use passwordless_auth_servic.Postgres.Accounts.{unique_violation}
use passwordless_auth_servic.Postgres.Verifications.Enum.{stored}

abbrev pub has_id : Uuid → Verification → Bool
has_id id v = v.id == id

abbrev pub has_phone : String → Verification → Bool
has_phone phone v = str_eq v.phone phone

-- verification_create.sql
abbrev pub verification_create : Verification → Db → Written
verification_create v d =
    if any (has_id v.id) d.verifications
    then rejected unique_violation
    else written 1 (record d { verifications = d.verifications ++ stored v ∷ [] })

-- The columns that verification_update.sql sets.
abbrev pub set_columns : Verification → Verification → Verification
set_columns v row = record row {
  code_hash = v.code_hash;
  sent_at = v.sent_at;
  expires_at = v.expires_at;
  failed_attempts = v.failed_attempts;
  sends_in_window = v.sends_in_window;
  locked_until = v.locked_until;
  status = v.status;
}

-- verification_update.sql
abbrev pub verification_update : Verification → Db → Written
verification_update v d =
    written (length (select (has_id v.id) d.verifications))
      (record d { verifications = update (has_id v.id) (set_columns v) d.verifications })

-- `ORDER BY sent_at DESC LIMIT 1`. SQL leaves open which row comes first among those of one time;
-- here it is the first inserted.
abbrev pub later : Verification → Option Verification → Verification
later v none = v
later v (some u) = if ltb v.sent_at u.sent_at then u else v

abbrev pub newest : List Verification → Option Verification
newest [] = none
newest (v ∷ vs) = some (later v (newest vs))

-- verification_find_latest_by_phone.sql
unfoldable pub find_latest : String → Db → Option Verification
find_latest phone d = newest (select (has_phone phone) d.verifications)

-- `DISTINCT ON (phone)` with `ORDER BY phone, sent_at DESC`: one row for each phone, the newest.
-- The order of the phones is not modelled, since the caller puts the rows into a map.
abbrev pub keep_newest : Verification → List Verification → List Verification
keep_newest v [] = v ∷ []
keep_newest v (u ∷ us) =
    let rest = u ∷ keep_newest v us in
    if str_eq u.phone v.phone then later v (some u) ∷ us else rest

abbrev pub distinct_on_phone : List Verification → List Verification
distinct_on_phone [] = []
distinct_on_phone (v ∷ vs) = keep_newest v (distinct_on_phone vs)

abbrev pub lock_columns : List Verification → List (String × Option Time)
lock_columns [] = []
lock_columns (v ∷ vs) = (v.phone, v.locked_until) ∷ lock_columns vs

-- `phone = ANY($1)`
abbrev pub is_among : List String → Verification → Bool
is_among phones v = any (λ p. str_eq p v.phone) phones

-- verification_locked_phones.sql
unfoldable pub locked_phone_rows : List String → Db → List (String × Option Time)
locked_phone_rows phones d =
    lock_columns (distinct_on_phone (select (is_among phones) d.verifications))

-- verification_count_sends_since.sql
unfoldable pub sends_since : String → Time → Db → ℕ
sends_since phone since d =
    sum_of (λ v. v.sends_in_window)
      (select (λ v. has_phone phone v && leb since v.sent_at) d.verifications)

-- The loop of `LockedPhones` over its rows.
unfoldable pub locked_map : Time → List (String × Option Time) → List (String × Bool)
locked_map now [] = []
locked_map now ((phone, locked_until) ∷ rows) =
    (phone, before_deadline now locked_until) ∷ locked_map now rows

abbrev pub wrap_unless_not_found : String → Error → Error
wrap_unless_not_found op e = if errors_is e not_found then sentinel not_found else wrapped op e

-- `tag.RowsAffected() == 0`
abbrev pub require_rows : ℕ → Exec (Unit {0})
require_rows n = if n == 0 then raise (sentinel not_found) else pure tt

module _ (env : Env) where
  unfoldable pub create : Verification → Exec (Unit {0})
  create v =
      on_error (wrapped "auth: create verification") (exec env (verification_create v)) >>= λ _.
      pure tt

  unfoldable pub get : Uuid → Exec Verification
  unfolding errors_is
  get id =
      on_error (wrap_unless_not_found "auth: get verification")
        (query env (λ d. find (has_id id) d.verifications) >>= or_raise (sentinel not_found))

  unfoldable pub find_latest_by_phone : String → Exec Verification
  unfolding errors_is
  find_latest_by_phone phone =
      on_error (wrap_unless_not_found "auth: find latest verification by phone")
        (query env (find_latest phone) >>= or_raise (sentinel not_found))

  unfoldable pub locked_phones : List String → Time → Exec (List (String × Bool))
  locked_phones [] now = pure []
  locked_phones (p ∷ ps) now =
      on_error (wrapped "auth: locked phones") (query env (locked_phone_rows (p ∷ ps))) >>= λ rows.
      pure (locked_map now rows)

  unfoldable pub count_sends_since : String → Time → Exec ℕ
  count_sends_since phone since =
      on_error (wrapped "auth: count sends since") (query env (sends_since phone since))

  -- verification_sum_failed_attempts_since.sql
  unfoldable pub sum_failed_attempts_since : Time → Exec ℕ
  sum_failed_attempts_since since = on_error (wrapped "auth: sum failed attempts since") (
      query env
        (λ d. sum_of (λ v. v.failed_attempts) (select (λ v. leb since v.sent_at) d.verifications)))

  -- verification_count_by_status_since.sql
  unfoldable pub count_by_status_since : Status → Time → Exec ℕ
  count_by_status_since status since = on_error (wrapped "auth: count by status since") (
      query env (λ d.
        length (select (λ v. status_eq v.status status && leb since v.sent_at) d.verifications)))

  -- `Update`
  unfoldable pub save : Verification → Exec (Unit {0})
  save v =
      on_error (wrapped "auth: update verification") (exec env (verification_update v))
      >>= require_rows
