-- ===== src/Auth/Domain.antt =====
-- internal/auth/domain.go: the entities and the timed rules, each with the current time as an
-- argument. A time is a number of microseconds, the resolution of the timestamptz columns; ids are
-- numbers, since the code only compares them. Role, Language and the route names are open string
-- types, as in the source.
use passwordless_auth_servic.Prelude.{
  ℕ, ◌*◌, String, Bool, true, false, ◌||◌, Option, none, some, ltb, str_eq, List,
}

abbrev pub Time : Type 0
Time = ℕ

abbrev pub Uuid : Type 0
Uuid = ℕ

abbrev pub second : ℕ
second = 1_000_000

abbrev pub minute : ℕ
minute = 60 * second

abbrev pub hour : ℕ
hour = 60 * minute

abbrev pub Role : Type 0
Role = String

abbrev pub role_coach : Role
role_coach = "coach"

abbrev pub role_athlete : Role
role_athlete = "athlete"

-- `Role.Valid`
unfoldable pub role_valid : Role → Bool
role_valid r = str_eq r role_coach || str_eq r role_athlete

abbrev pub Language : Type 0
Language = String

abbrev pub language_arabic : Language
language_arabic = "ar"

abbrev pub language_english : Language
language_english = "en"

-- `Language.Valid`
unfoldable pub language_valid : Language → Bool
language_valid l = str_eq l language_arabic || str_eq l language_english

-- `other` is any string but the two constants.
pub data Intent : Type 0 where
  signup signin : Intent
  other : String → Intent

abbrev pub is_signup : Intent → Bool
is_signup signup = true
is_signup signin = false
is_signup (other _) = false

abbrev pub is_signin : Intent → Bool
is_signin signup = false
is_signin signin = true
is_signin (other _) = false

-- `Intent.Valid`
unfoldable pub intent_valid : Intent → Bool
intent_valid i = is_signup i || is_signin i

pub data Status : Type 0 where
  pending verified expired locked : Status

abbrev pub status_eq : Status → Status → Bool
status_eq pending pending = true
status_eq verified verified = true
status_eq expired expired = true
status_eq locked locked = true
status_eq _ _ = false

abbrev pub otp_ttl : ℕ
otp_ttl = 10 * minute

abbrev pub lockout_duration : ℕ
lockout_duration = 30 * minute

abbrev pub resend_cooldown : ℕ
resend_cooldown = 60 * second

abbrev pub max_failed_attempts : ℕ
max_failed_attempts = 5

abbrev pub max_sends_per_window : ℕ
max_sends_per_window = 5

abbrev pub send_cap_window : ℕ
send_cap_window = 30 * minute

abbrev pub session_idle_window : ℕ
session_idle_window = 60 * 24 * hour

abbrev pub otp_digits : ℕ
otp_digits = 6

abbrev pub session_extend_interval : ℕ
session_extend_interval = 24 * hour

pub record Account : Type 0 where
  pub id : Uuid
  pub role : Role
  pub phone : String
  pub google_subject : Option String
  pub google_email : Option String
  pub preferred_language : Language
  pub created_at : Time

pub record Verification : Type 0 where
  pub id : Uuid
  pub phone : String
  pub intent : Intent
  pub code_hash : String
  pub pending_role : Role
  pub pending_language : Language
  pub pending_google_subject : Option String
  pub pending_google_email : Option String
  pub sent_at : Time
  pub expires_at : Time
  pub failed_attempts : ℕ
  pub sends_in_window : ℕ
  pub locked_until : Option Time
  pub status : Status

pub record Session : Type 0 where
  pub id : Uuid
  pub account_id : Uuid
  pub token_hash : String
  pub device_label : Option String
  pub created_at : Time
  pub last_active_at : Time
  pub expires_at : Time
  pub revoked_at : Option Time

pub record GoogleIdentity : Type 0 where
  pub subject : String
  pub email : String
  pub email_verified : Bool

-- The metadata's values are strings in the one place that emits an event.
pub record AuditEvent : Type 0 where
  pub id : Uuid
  pub actor_admin_id : String
  pub action : String
  pub target_account_id : Uuid
  pub created_at : Time
  pub metadata : List (String × String)

abbrev pub audit_action_clear_lockout : String
audit_action_clear_lockout = "clear_lockout"

abbrev pub signup_method_phone : String
signup_method_phone = "phone"

abbrev pub signup_method_google : String
signup_method_google = "google"

abbrev pub route_onboarding : String
route_onboarding = "onboarding"

abbrev pub route_home : String
route_home = "home"

-- `x == nil` for a pointer
abbrev pub is_nil {ℓ} : {A : Type ℓ} → Option A → Bool
is_nil none = true
is_nil (some _) = false

-- `p != nil && now.Before(*p)`
abbrev pub before_deadline : Time → Option Time → Bool
before_deadline now none = false
before_deadline now (some t) = ltb now t
