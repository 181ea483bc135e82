-- ===== src/Auth/Verification.antt =====
-- The methods of `Verification` in internal/auth/domain.go. A method that mutates its receiver
-- returns the new value.
pub mod Lockout
pub mod Life
use passwordless_auth_servic.Prelude.{
  ℕ, ◌+◌, ◌-◌, Bool, true, false, not, some, ltb, leb, if◌then◌else◌,
}
use passwordless_auth_servic.Auth.Domain.{
  Time, Verification, locked, verified, before_deadline, otp_ttl, lockout_duration, resend_cooldown,
  max_failed_attempts, max_sends_per_window,
}

-- `Verification.IsExpired`: `now.After(v.ExpiresAt)`
unfoldable pub is_expired : Verification → Time → Bool
is_expired v now = ltb v.expires_at now

unfoldable pub is_locked : Verification → Time → Bool
is_locked v now = before_deadline now v.locked_until

unfoldable pub resend_ready : Verification → Time → Bool
resend_ready v now = not (ltb now (v.sent_at + resend_cooldown))

unfoldable pub resend_available_at : Verification → Time
resend_available_at v = v.sent_at + resend_cooldown

unfoldable pub send_cap_reached : Verification → Bool
send_cap_reached v = leb max_sends_per_window v.sends_in_window

-- The Go difference is signed: below zero it becomes 0.
unfoldable pub remaining_attempts : Verification → ℕ
remaining_attempts v =
    if ltb max_failed_attempts v.failed_attempts then 0 else max_failed_attempts - v.failed_attempts

unfoldable pub register_send : Verification → Time → Verification
register_send v now = record v {
  sends_in_window = v.sends_in_window + 1;
  sent_at = now;
  expires_at = now + otp_ttl;
}

unfoldable pub lock : Verification → Time → Verification
lock v now = record v { locked_until = some (now + lockout_duration); status = locked }

-- The second part is the returned `locked`.
unfoldable pub register_failure : Verification → Time → Verification × Bool
unfolding lock
register_failure v now =
    let v' = record v { failed_attempts = v.failed_attempts + 1 } in
    if leb max_failed_attempts v'.failed_attempts then (lock v' now, true) else (v', false)

unfoldable pub mark_verified : Verification → Verification
mark_verified v = record v { status = verified }
