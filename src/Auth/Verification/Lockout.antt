-- ===== src/Auth/Verification/Lockout.antt =====
-- The lockout rule of domain.go over a whole history of wrong codes.
use passwordless_auth_servic.Prelude.{
  suc, ◌+◌, ◌≤◌, ◌<◌, true, false, some, List, [], ◌∷◌, length, ◌||◌, ◌≡◌, ◌⊎◌, arith,
}
use passwordless_auth_servic.Auth.Domain.{
  Time, Verification, locked, otp_ttl, lockout_duration, max_failed_attempts,
}
use passwordless_auth_servic.Auth.Verification.{
  is_expired, is_locked, lock, register_failure, remaining_attempts,
}

-- The challenge after wrong codes at the given times, the earliest first.
unfoldable pub after_failures : Verification → List Time → Verification
after_failures v [] = v
after_failures v (t ∷ ts) = after_failures (register_failure v t).0 ts

-- The challenge counts each of the wrong codes, whatever else they changed.
after_failures_counts :
    (v : Verification) (ts : List Time)
    → (after_failures v ts).failed_attempts ≡ v.failed_attempts + length ts
unfolding after_failures register_failure lock
after_failures_counts v [] = ground arith
after_failures_counts v (t ∷ ts) =
    let rest = after_failures_counts (register_failure v t).0 ts in ground (arith, rest)

-- A challenge that starts with no failure and no lock, after any wrong codes: the next wrong code, at
-- `now`, locks it exactly if at least four came before, and then for thirty minutes; else the
-- remaining attempts and the failures so far make up five.
pub register_failure_locks :
    (v : Verification) (ts : List Time) (now : Time)
    → v.failed_attempts ≡ 0
    → let (v', locks) = register_failure (after_failures v ts) now in
      ((4 ≤ length ts)
        × (locks ≡ true)
        × (v'.locked_until ≡ some (now + lockout_duration))
        × (v'.status ≡ locked)
        × (remaining_attempts v' ≡ 0))
      ⊎ ((length ts < 4)
          × (locks ≡ false)
          × (remaining_attempts v' + suc (length ts) ≡ max_failed_attempts))
unfolding register_failure lock remaining_attempts
register_failure_locks v ts now fresh = let counts = after_failures_counts v ts in ground arith

-- A challenge that is locked at a time when its code has at most the code's lifetime of ten minutes
-- left is dead: at every time it is locked or its code is expired.
pub lock_outlives_code :
    (v : Verification) (now t : Time)
    → v.expires_at ≤ now + otp_ttl
    → (is_locked (lock v now) t || is_expired (lock v now) t) ≡ true
unfolding is_locked is_expired lock
lock_outlives_code v now t young = ground arith
