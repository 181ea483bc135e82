-- ===== src/Auth/Service/Confirm/Overlap.antt =====
-- Confirms of one challenge that overlap: all of them have loaded it before the first one writes.
use passwordless_auth_servic.Prelude.{
  ◌+◌, ◌<◌, ◌≤◌, String, false, some, List, [], ◌∷◌, ◌≡◌, refl, ap, ◌∙◌, arith, inl, inr,
}
use passwordless_auth_servic.Auth.Domain.{Time, Verification, max_failed_attempts}
use passwordless_auth_servic.Auth.Verification.{is_locked, is_expired, lock, register_failure}
use passwordless_auth_servic.Auth.Verification.Life.{IsOpen}
use passwordless_auth_servic.Platform.World.{Env, World}
use passwordless_auth_servic.Postgres.Verifications.{set_columns}
use passwordless_auth_servic.Postgres.Challenges.{challenge, find-update_self}
use passwordless_auth_servic.Postgres.Integrity.Rows.{All}
use passwordless_auth_servic.Auth.Service.Confirm.{confirm_loaded}
use passwordless_auth_servic.Auth.Service.Confirm.Rejection.{reject_code_cases}

-- Confirms that hold the same loaded challenge, each with its time and its code, go on one after another.
unfoldable pub finish_all : Env → Verification → List (Time × String) → World → World
finish_all env v [] w = w
finish_all env v ((now, code) ∷ guesses) w =
    finish_all env v guesses (confirm_loaded env v now code w).1

-- A guess that came in time and does not fit.
abbrev pub IsWrong : Env → Verification → Time × String → Type 0
IsWrong env v (now, code) = IsOpen v now × (env.compare_hash_and_password v.code_hash code ≡ false)

-- The challenge counts at most one wrong code more, and is as open as before.
abbrev pub CountsOne : Verification → Verification → Type 0
CountsOne v u =
    (u.failed_attempts ≤ v.failed_attempts + 1)
    × (u.locked_until ≡ v.locked_until)
    × (u.status ≡ v.status)
    × (u.expires_at ≡ v.expires_at)
    × (u.code_hash ≡ v.code_hash)

module _ (env : Env) (v : Verification) (few : v.failed_attempts + 1 < max_failed_attempts) where
  failure-CountsOne :
      (now : Time) (u : Verification) → CountsOne v (set_columns (register_failure v now).0 u)
  unfolding register_failure lock
  failure-CountsOne now u = ground arith

  confirm_loaded-CountsOne :
      (now : Time) (code : String) (w : World) {u : Verification}
      → IsWrong env v (now, code)
      → challenge v.id w.db ≡ some u
      → CountsOne v u
      → (u' : Verification) × (challenge v.id (confirm_loaded env v now code w).1.db ≡ some u')
        × CountsOne v u'
  unfolding confirm_loaded
  confirm_loaded-CountsOne now code w {u} ((free, unused, alive), wrong) there one =
      rw (free, unused, alive, wrong)
        (elim (reject_code_cases env v now w) [
          | inl same ↦ (u, ap (challenge v.id) same ∙ there, one)
          | inr stored ↦
              let v' = (register_failure v now).0 in
              (
                set_columns v' u,
                ap (challenge v.id) stored
                    ∙ find-update_self v.id (set_columns v') w.db.verifications (λ x. refl) there,
                failure-CountsOne now u,
              )
        ])

  finish_all-CountsOne :
      (guesses : List (Time × String)) (w : World) {u : Verification}
      → All (IsWrong env v) guesses
      → challenge v.id w.db ≡ some u
      → CountsOne v u
      → (u' : Verification) × (challenge v.id (finish_all env v guesses w).db ≡ some u')
        × CountsOne v u'
  unfolding finish_all
  finish_all-CountsOne [] w {u} wrong there one = (u, there, one)
  finish_all-CountsOne ((now, code) ∷ guesses) w {u} (wrong, rest) there one =
      let (u', there', one') = confirm_loaded-CountsOne now code w {u = u} wrong there one in
      finish_all-CountsOne guesses (confirm_loaded env v now code w).1 {u = u'} rest there' one'

-- However many confirms with wrong codes have loaded a challenge that has had fewer than four before the
-- first of them writes, and however the driver and the other outside calls answer: afterwards the stored
-- challenge counts at most one wrong code more than it did, has the same code, and is open whenever it
-- was.
pub overlapping_guesses_undercount :
    (env : Env) (v : Verification) (guesses : List (Time × String)) (w : World) (t : Time)
    → v.failed_attempts + 1 < max_failed_attempts
    → All (IsWrong env v) guesses
    → challenge v.id w.db ≡ some v
    → IsOpen v t
    → (u : Verification) × (challenge v.id (finish_all env v guesses w).db ≡ some u)
      × (u.failed_attempts ≤ v.failed_attempts + 1)
      × (u.code_hash ≡ v.code_hash)
      × IsOpen u t
unfolding is_locked is_expired
overlapping_guesses_undercount env v guesses w t few wrong there is_open =
    let (u, there', (count, lock_same, status_same, expires_same, code_same)) =
      finish_all-CountsOne env v few guesses w {u = v} wrong there
        (omega arith, refl, refl, refl, refl) in
    (u, there', count, code_same, rw (lock_same, status_same, expires_same) is_open)
