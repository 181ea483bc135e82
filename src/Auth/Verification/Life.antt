-- ===== src/Auth/Verification/Life.antt =====
-- The life of a challenge, as the steps that the use cases of internal/auth/service.go take on it with
-- the methods of internal/auth/domain.go: an abstract machine without tables, calls and errors, which knows
-- of the other challenges only how many sends to a phone count.
pub mod Bounds
pub mod Spent
use passwordless_auth_servic.Prelude.{
  ℕ, ◌-◌, List, [], ◌∷◌, String, ◌+◌, ◌<◌, ◌≤◌, true, false, Option, none, some, ◌≡◌,
}
use passwordless_auth_servic.Auth.Domain.{
  Time, Verification, pending, verified, status_eq, otp_ttl, max_sends_per_window, send_cap_window,
}
use passwordless_auth_servic.Auth.Verification.{
  is_expired, is_locked, resend_ready, lock, register_send, register_failure, mark_verified,
}

-- Who may unlock a challenge.
pub data Actor : Type 0 where
  visitor administrator : Actor

-- A code of the challenge counts: it is neither locked, nor used, nor expired.
abbrev pub IsOpen : Verification → Time → Type 0
IsOpen v now =
    (is_locked v now ≡ false) × (status_eq v.status verified ≡ false) × (is_expired v now ≡ false)

-- The challenge of a request for a code, once it was sent.
abbrev pub IsNew : Verification → Type 0
IsNew v =
    (v.failed_attempts ≡ 0)
    × (v.sends_in_window ≡ 1)
    × (v.locked_until ≡ none)
    × (v.status ≡ pending)
    × (v.expires_at ≡ v.sent_at + otp_ttl)

-- How many sends to a phone count since a time, which is what a step knows of the other challenges.
abbrev pub Tally : Type 0
Tally = String → Time → ℕ

-- One change of a stored challenge, at a time that its guards have seen.
pub data Move (who : Actor) (sends : Tally) (v v' : Verification) : Type 0 where
  -- a confirm with a wrong code
  wrong_code : (now : Time) → IsOpen v now → v' ≡ (register_failure v now).0 → Move who sends v v'
  -- a confirm with the right one
  right_code : (now : Time) → IsOpen v now → v' ≡ mark_verified v → Move who sends v v'
  -- a resend
  sent_again :
      (now : Time) (code_hash : String)
      → IsOpen v now
      → resend_ready v now ≡ true
      → v.sends_in_window < max_sends_per_window
      → v' ≡ register_send (record v { code_hash = code_hash }) now
      → Move who sends v v'
  -- a resend of a challenge that was sent five times
  resend_capped :
      (now : Time)
      → IsOpen v now
      → resend_ready v now ≡ true
      → max_sends_per_window ≤ v.sends_in_window
      → v' ≡ lock v now
      → Move who sends v v'
  -- a request for a code to a phone with five sends in the last thirty minutes
  request_capped :
      (now : Time)
      → is_locked v now ≡ false
      → resend_ready v now ≡ true
      → max_sends_per_window ≤ sends v.phone (now - send_cap_window)
      → v' ≡ lock v now
      → Move who sends v v'
  -- an administrator's unlock
  unlocked :
      (now : Time)
      → who ≡ administrator
      → is_locked v now ≡ true
      → v' ≡ record v { locked_until = none; sends_in_window = 0; status = pending }
      → Move who sends v v'

-- A step of the machine, whose state is the challenge of an id, if there is one.
pub data Step (who : Actor) (sends : Tally)
    : Option Verification → Option Verification → Type 0 where
  -- a request for a code to a phone with fewer than five sends in the thirty minutes before
  requested :
      (v : Verification)
      → IsNew v
      → sends v.phone (v.sent_at - send_cap_window) < max_sends_per_window
      → Step who sends none (some v)
  moved : {v v' : Verification} → Move who sends v v' → Step who sends (some v) (some v')

-- At most one step for each of the tallies, in their order.
pub data Life (who : Actor) : List Tally → Option Verification → Option Verification → Type 0 where
  done : {o : Option Verification} → Life who [] o o
  idle :
      {sends : Tally} {ts : List Tally} {o p : Option Verification}
      → Life who ts o p
      → Life who (sends ∷ ts) o p
  step :
      {sends : Tally} {ts : List Tally} {o p q : Option Verification}
      → Step who sends o p
      → Life who ts p q
      → Life who (sends ∷ ts) o q

-- At most one step, and then a life.
pub Life-cons :
    {who : Actor} {sends : Tally} {ts : List Tally} {o p q : Option Verification}
    → Life who (sends ∷ []) o p
    → Life who ts p q
    → Life who (sends ∷ ts) o q
Life-cons (idle done) l = idle l
Life-cons (step s done) l = step s l
