-- ===== src/Auth/Failure.antt =====
-- The errors of internal/auth/domain.go, and the parts of Go's errors package that the code uses on
-- them: wrapping by fmt.Errorf, errors.Is and errors.As.
use passwordless_auth_servic.Prelude.{ℕ, String, Bool, true, false, Option, none, some, ◌||◌, ◌==◌}
use passwordless_auth_servic.Auth.Domain.{Time}

-- `ErrAccountExists` and the other package variables
pub data Sentinel : Type 0 where
  account_exists no_account locked incorrect_code expired send_failed : Sentinel
  invalid_phone resend_cooldown not_found unsupported_intent google_failed : Sentinel
  no_session invalid_range : Sentinel

abbrev pub ordinal : Sentinel → ℕ
ordinal account_exists = 0
ordinal no_account = 1
ordinal locked = 2
ordinal incorrect_code = 3
ordinal expired = 4
ordinal send_failed = 5
ordinal invalid_phone = 6
ordinal resend_cooldown = 7
ordinal not_found = 8
ordinal unsupported_intent = 9
ordinal google_failed = 10
ordinal no_session = 11
ordinal invalid_range = 12

-- `incorrect_code_error` and `locked_error` are the two typed errors, which unwrap to a sentinel;
-- `pg` is a *pgconn.PgError with its code; `opaque` is any other error of a library; `wrapped` is
-- fmt.Errorf with one `%w`, `joined` with two.
pub data Error : Type 0 where
  sentinel : Sentinel → Error
  incorrect_code_error : (attempts_remaining : ℕ) → Error
  locked_error : (locked_until : Time) → Error
  pg : (code : String) → Error
  opaque : String → Error
  wrapped : String → Error → Error
  joined : Error → Error → Error

-- `errors.Is`
unfoldable pub errors_is : Error → Sentinel → Bool
errors_is (sentinel s) t = ordinal s == ordinal t
errors_is (incorrect_code_error _) t = ordinal incorrect_code == ordinal t
errors_is (locked_error _) t = ordinal locked == ordinal t
errors_is (pg _) t = false
errors_is (opaque _) t = false
errors_is (wrapped _ e) t = errors_is e t
errors_is (joined a b) t = errors_is a t || errors_is b t

-- The first result of a search in the two branches of a joined error.
abbrev pub or_else {ℓ} : {A : Type ℓ} → Option A → Option A → Option A
or_else none b = b
or_else (some a) b = some a

-- `errors.As` at `*IncorrectCodeError`, with the field that its caller reads
unfoldable pub as_incorrect_code : Error → Option ℕ
as_incorrect_code (incorrect_code_error n) = some n
as_incorrect_code (wrapped _ e) = as_incorrect_code e
as_incorrect_code (joined a b) = or_else (as_incorrect_code a) (as_incorrect_code b)
as_incorrect_code _ = none

-- `errors.As` at `*LockedError`
unfoldable pub as_locked : Error → Option Time
as_locked (locked_error t) = some t
as_locked (wrapped _ e) = as_locked e
as_locked (joined a b) = or_else (as_locked a) (as_locked b)
as_locked _ = none

-- `errors.As` at `*pgconn.PgError`
unfoldable pub as_pg : Error → Option String
as_pg (pg code) = some code
as_pg (wrapped _ e) = as_pg e
as_pg (joined a b) = or_else (as_pg a) (as_pg b)
as_pg _ = none

pub data Result {ℓ} (A : Type ℓ) : Type ℓ where
  ok : A → Result A
  err : Error → Result A

abbrev pub is_err {ℓ} : {A : Type ℓ} → Result A → Bool
is_err (ok _) = false
is_err (err _) = true
