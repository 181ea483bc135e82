-- ===== src/Auth/Service/Admin/Relocking.antt =====
-- What an unlock leaves of the lockout rule.
use passwordless_auth_servic.Prelude.{◌+◌, ◌≤◌, true, false, some, ◌≡◌, refl, arith}
use passwordless_auth_servic.Auth.Domain.{Time, Verification, lockout_duration, max_failed_attempts}
use passwordless_auth_servic.Auth.Verification.{is_locked, lock, register_failure, send_cap_reached}
use passwordless_auth_servic.Auth.Service.Admin.{unlock}

-- An unlock frees the challenge at every time and frees its sends, but it keeps the failed attempts:
-- if five were counted, the first wrong code after it locks the challenge for thirty minutes again.
pub unlock_then_failure :
    (v : Verification) (now t : Time)
    → max_failed_attempts ≤ v.failed_attempts
    → (is_locked (unlock v) t ≡ false)
      × (send_cap_reached (unlock v) ≡ false)
      × ((register_failure (unlock v) now).1 ≡ true)
      × ((register_failure (unlock v) now).0.locked_until ≡ some (now + lockout_duration))
unfolding unlock is_locked register_failure lock send_cap_reached
unlock_then_failure v now t spent = (refl, refl, ground arith, ground arith)
