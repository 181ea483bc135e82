-- ===== src/Auth/Verification/Life/Bounds.antt =====
-- What the life of a challenge keeps of its columns.
use passwordless_auth_servic.Prelude.{
  List, ◌+◌, ◌<◌, ◌≤◌, Option, none, some, ◌≡◌, ◌≢◌, false, ◌⊎◌, arith,
}
use passwordless_auth_servic.Auth.Domain.{
  status_eq, Verification, pending, locked, otp_ttl, max_sends_per_window, max_failed_attempts,
}
use passwordless_auth_servic.Auth.Verification.{
  lock, register_send, register_failure, mark_verified,
}
use passwordless_auth_servic.Auth.Verification.Life.{
  Actor, administrator, Move, wrong_code, right_code, sent_again, resend_capped, request_capped,
  unlocked, Tally, Step, requested, moved, Life, done, idle, step,
}

-- The code lives for ten minutes from its sending, there are at most five sends, a challenge of status
-- locked has a deadline, and one of status pending, where administrators do nothing, had fewer than
-- five wrong codes.
pub record IsSane (who : Actor) (v : Verification) : Type 0 where
  pub timed : v.expires_at ≡ v.sent_at + otp_ttl
  pub sends_capped : v.sends_in_window ≤ max_sends_per_window
  pub lock_dated : (status_eq v.status locked ≡ false) ⊎ (v.locked_until ≢ none)
  pub failures_capped :
      (who ≡ administrator)
      ⊎ (status_eq v.status pending ≡ false)
      ⊎ (v.failed_attempts < max_failed_attempts)

abbrev pub AreSane : Actor → Option Verification → Type 0
AreSane who none = Unit
AreSane who (some v) = IsSane who v

Move-IsSane :
    {who : Actor} {sends : Tally} {v v' : Verification}
    → Move who sends v v'
    → IsSane who v
    → IsSane who v'
unfolding lock register_send register_failure mark_verified
Move-IsSane (wrong_code now is_open e) h = rw e (ground arith)
Move-IsSane (right_code now is_open e) h = ground arith
Move-IsSane (sent_again now code_hash is_open ready below e) h = ground arith
Move-IsSane (resend_capped now is_open ready reached e) h = ground arith
Move-IsSane (request_capped now free ready reached e) h = ground arith
Move-IsSane (unlocked now admin held e) h = ground arith

Step-IsSane :
    {who : Actor} {sends : Tally} {o p : Option Verification}
    → Step who sends o p
    → AreSane who o
    → AreSane who p
Step-IsSane (requested v new below) h = ground arith
Step-IsSane (moved m) h = Move-IsSane m h

pub Life-IsSane :
    {who : Actor} {ts : List Tally} {o p : Option Verification}
    → Life who ts o p
    → AreSane who o
    → AreSane who p
Life-IsSane done h = h
Life-IsSane (idle l) h = Life-IsSane l h
Life-IsSane (step s l) h = Life-IsSane l (Step-IsSane s h)
