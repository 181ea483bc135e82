-- ===== src/Auth/Handler/Outputs.antt =====
-- The outputs of the operations of internal/auth/handler.go.
use passwordless_auth_servic.Prelude.{ℕ, String, Bool, Option, List}
use passwordless_auth_servic.Auth.Domain.{Time}
use passwordless_auth_servic.Auth.Service.Admin.{Quotient}

pub record RequestVerificationOutput : Type 0 where
  pub verification_id : String
  pub expires_at : Time
  pub resend_available_at : Time

pub record ResendVerificationOutput : Type 0 where
  pub resend_available_at : Time

pub record AccountOutput : Type 0 where
  pub id : String
  pub role : String
  pub language : String

pub record ConfirmVerificationOutput : Type 0 where
  pub session_token : String
  pub account : AccountOutput
  pub route : String

pub record GoogleExchangeOutput : Type 0 where
  pub session_token : String
  pub account : Option AccountOutput
  pub route : String
  pub next : String
  pub phone_prefill : Option String
  pub pending_link_token : String

pub record AccountListItemDto : Type 0 where
  pub id : String
  pub role : String
  pub phone : String
  pub google_linked : Bool
  pub signup_method : String
  pub created_at : Time
  pub lockout_active : Bool

pub record AnalyticsOutput : Type 0 where
  pub signups_by_method : List (String × ℕ)
  pub verification_failure_rate : Quotient
  pub lockout_count : ℕ
