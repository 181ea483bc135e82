-- ===== src/Postgres.antt =====
-- internal/auth/postgres: the repositories, over the tables of migrations/.
pub mod Driver
pub mod Like
pub mod Accounts
pub mod Verifications
pub mod Sessions
pub mod Success
pub mod Reads
pub mod Writes
pub mod Lockouts
pub mod Answered
pub mod Challenges
pub mod Keeps
pub mod Raises
pub mod Costs
pub mod Integrity
pub mod Revocation
