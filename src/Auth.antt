-- ===== src/Auth.antt =====
-- The auth feature (internal/auth): its domain rules, its use cases and its transport.
pub mod Domain
pub mod Failure
pub mod Session
pub mod Verification
pub mod Phone
pub mod Service
pub mod HttpError
pub mod Handler
pub mod GoogleVerifier
