-- ===== src/Auth/Verification/Life/Spent.antt =====
-- A challenge that was used, in the hands of visitors.
use passwordless_auth_servic.Prelude.{
  List, ◌+◌, ◌≤◌, true, ◌||◌, Option, some, ◌≡◌, refl, arith, ◌⊎◌, inl, inr,
}
use passwordless_auth_servic.Auth.Domain.{Time, Verification, verified, otp_ttl}
use passwordless_auth_servic.Auth.Verification.{is_expired, is_locked, resend_ready, lock}
use passwordless_auth_servic.Auth.Verification.Lockout.{lock_outlives_code}
use passwordless_auth_servic.Auth.Verification.Life.{
  IsOpen, visitor, Move, wrong_code, right_code, sent_again, resend_capped, request_capped,
  unlocked, Tally, Step, requested, moved, Life, done, idle, step,
}

-- The code lives for ten minutes, and the challenge is marked as used, or locked or expired at every
-- time.
abbrev pub IsSpent : Verification → Type 0
IsSpent v =
    (v.expires_at ≡ v.sent_at + otp_ttl)
    × ((v.status ≡ verified) ⊎ ((t : Time) → (is_locked v t || is_expired v t) ≡ true))

pub IsSpent-closed : (v : Verification) (now : Time) → IsSpent v → IsOpen v now → ⊥
IsSpent-closed v now (_, inl used) is_open = ground arith
IsSpent-closed v now (_, inr dead) is_open = let d = dead now in ground arith

Move-IsSpent :
    {sends : Tally} {v v' : Verification} → Move visitor sends v v' → IsSpent v → IsSpent v'
unfolding lock resend_ready
Move-IsSpent {v = v} (wrong_code now is_open e) h = absurd (IsSpent-closed v now h is_open)
Move-IsSpent {v = v} (right_code now is_open e) h = absurd (IsSpent-closed v now h is_open)
Move-IsSpent {v = v} (sent_again now code_hash is_open ready below e) h =
    absurd (IsSpent-closed v now h is_open)
Move-IsSpent {v = v} (resend_capped now is_open ready reached e) h =
    absurd (IsSpent-closed v now h is_open)
Move-IsSpent {v = v} (request_capped now free ready reached e) (timed, h) =
    rw e (timed_lock timed, inr (λ t. lock_outlives_code v now t (soon ready timed)))
  where
    timed_lock :
        v.expires_at ≡ v.sent_at + otp_ttl
        → (lock v now).expires_at ≡ (lock v now).sent_at + otp_ttl
    timed_lock timed = omega arith

    soon :
        resend_ready v now ≡ true
        → v.expires_at ≡ v.sent_at + otp_ttl
        → v.expires_at ≤ now + otp_ttl
    soon ready timed = ground arith
Move-IsSpent (unlocked now admin held e) h = absurd (cc)

Step-IsSpent :
    {sends : Tally} {o p : Option Verification} {v : Verification}
    → Step visitor sends o p
    → o ≡ some v
    → IsSpent v
    → (v' : Verification) × (p ≡ some v') × IsSpent v'
Step-IsSpent (requested u new below) there h = absurd (cc)
Step-IsSpent {v = v} (moved {v = u} {v' = u'} m) there h =
    let same : u ≡ v = cc in (u', refl, Move-IsSpent m (rw same h))

pub Life-IsSpent :
    {ts : List Tally} {o p : Option Verification} {v : Verification}
    → Life visitor ts o p
    → o ≡ some v
    → IsSpent v
    → (v' : Verification) × (p ≡ some v') × IsSpent v'
Life-IsSpent {v = v} done there h = (v, there, h)
Life-IsSpent {v = v} (idle l) there h = Life-IsSpent {v = v} l there h
Life-IsSpent {v = v} (step s l) there h =
    let (u, there', spent) = Step-IsSpent {v = v} s there h in Life-IsSpent {v = u} l there' spent
