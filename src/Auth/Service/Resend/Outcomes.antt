-- ===== src/Auth/Service/Resend/Outcomes.antt =====
-- How a resend ends, whatever fails on the way.
use passwordless_auth_servic.Prelude.{
  ℕ, suc, none, leb, ◌≤◌, ◌<◌, String, true, false, ◌||◌, some, ◌∷◌, find, update, ◌≡◌, refl, arith,
  ◌⊎◌, inl, inr, Bool-cases,
}
use passwordless_auth_servic.Auth.Domain.{
  Time, Uuid, Verification, verified, status_eq, max_sends_per_window,
}
use passwordless_auth_servic.Auth.Failure.{Result, is_err, wrapped}
use passwordless_auth_servic.Auth.Verification.{
  is_locked, is_expired, resend_ready, send_cap_reached, lock, register_send,
}
use passwordless_auth_servic.Platform.World.{Db, Env, World, on_error, ◌>>◌, pure}
use passwordless_auth_servic.Postgres.Driver.{counted}
use passwordless_auth_servic.Postgres.Verifications
use passwordless_auth_servic.Postgres.Verifications.{has_id, set_columns}
use passwordless_auth_servic.Postgres.Reads.{get_cases}
use passwordless_auth_servic.Postgres.Writes.{save_verification_cases, save_verification_settled}
use passwordless_auth_servic.Auth.Service.{format_otp}
use passwordless_auth_servic.Auth.Service.Request.Sending.{
  Stays, Drawn, Settles, Undelivered, otp_cases, hash_cases, send_code_cases, handed,
}
use passwordless_auth_servic.Auth.Service.Resend.{
  lock_resend, send_again, resend_loaded, resend_verification,
}

-- The tables with the columns of a stored challenge set.
abbrev pub saved : Verification → Db → Db
saved v d = record d { verifications = update (has_id v.id) (set_columns v) d.verifications }

-- The challenge with a new code, sent at a time.
abbrev pub renewed : Verification → String → Time → Verification
renewed v code_hash now = register_send (record v { code_hash = code_hash }) now

-- The challenge may be sent again: it is neither locked, nor used, nor expired, its cooldown is over
-- and it was sent fewer than five times.
abbrev pub Resendable : Verification → Time → Type 0
Resendable v now =
    (is_locked v now ≡ false)
    × (status_eq v.status verified ≡ false)
    × (is_expired v now ≡ false)
    × (resend_ready v now ≡ true)
    × (v.sends_in_window < max_sends_per_window)

-- A run that met the cap of the challenge, which was neither locked, nor used, nor expired, and whose
-- cooldown was over: it failed, sent nothing, and at most locked it.
abbrev pub Caps : Verification → Time → World → Result Verification × World → Type 0
Caps v now w (r, w') =
    (is_locked v now ≡ false)
    × (status_eq v.status verified ≡ false)
    × (is_expired v now ≡ false)
    × (resend_ready v now ≡ true)
    × (max_sends_per_window ≤ v.sends_in_window)
    × (is_err r ≡ true)
    × (w'.outbox ≡ w.outbox)
    × ((w'.db ≡ w.db) ⊎ (w'.db ≡ saved (lock v now) w.db))

-- A run that made one call of the sender, with a fresh code for the phone of the challenge. Where the
-- sender failed, it was the last call; where it did not, the next call stores the renewed challenge or,
-- with an error, does not.
abbrev pub Resends : Env → Verification → Time → World → Result Verification × World → Type 0
Resends env v now w (r, w') =
    (code : String) × (code_hash : String) × (j : ℕ) × Drawn env j code code_hash
    × (w'.outbox ≡ (v.phone, code) ∷ w.outbox)
    × (Undelivered env (suc (suc j)) v.phone code w (r, w')
        ⊎ ((env.send_code (suc (suc j)) v.phone code ≡ none)
            × Settles env (suc (suc (suc j))) (saved (renewed v code_hash now) w.db)
                (renewed v code_hash now) w (r, w')))

module _ (env : Env) (v : Verification) (now : Time) where
  stores_cases :
      (u : Verification) (w : World)
      → let q =
          (on_error (wrapped "auth: resend verification: update") (Verifications.save env u)
              >> pure u)
            w in
        (q.1.outbox ≡ w.outbox) × Settles env w.calls (saved u w.db) u w q
  stores_cases u w = ground (arith, save_verification_settled env w u)

  lock_resend_cases :
      (w : World)
      → let (r, w') = lock_resend env v now w in
        (is_err r ≡ true)
        × (w'.outbox ≡ w.outbox)
        × ((w'.db ≡ w.db) ⊎ (w'.db ≡ saved (lock v now) w.db))
  unfolding lock_resend lock
  lock_resend_cases w = ground (arith, save_verification_cases env w (lock v now))

  send_again_cases :
      (w : World) → let q = send_again env v now w in Stays w q ⊎ Resends env v now w q
  unfolding send_again register_send
  send_again_cases w = elim (otp_cases env w) [
    | inl (e, bad) ↦ rw bad (inl (refl, refl, refl))
    | inr (n, drawn, made) ↦ rw made (elim (hash_cases env (format_otp n) (counted w)) [
      | inl (e, bad) ↦ rw bad (inl (refl, refl, refl))
      | inr (h, hashed, kept) ↦
          let fresh : Drawn env w.calls (format_otp n) h = (n, drawn, refl, hashed) in
          rw kept (elim (send_code_cases env v.phone (format_otp n) (counted (counted w))) [
            | inl (e, refused, bad) ↦
                rw bad
                  (inr (format_otp n, h, w.calls, fresh, refl, inl (e, refused, refl, refl, refl)))
            | inr (taken, sent) ↦ rw sent (
                let (same, ended) =
                  stores_cases (renewed v h now)
                    (handed env v.phone (format_otp n) (counted (counted w))) in
                inr (format_otp n, h, w.calls, fresh, same, inr (taken, ended)))
          ])
    ])
  ]

  -- The five ways.
  resend_loaded_cases :
      (w : World)
      → let q = resend_loaded env v now w in
        Stays w q ⊎ Caps v now w q ⊎ (Resendable v now × Resends env v now w q)
  unfolding resend_loaded send_cap_reached
  resend_loaded_cases w = elim (Bool-cases (is_locked v now)) [
    | inl held ↦ rw held (inl (refl, refl, refl))
    | inr free ↦ rw free (elim (Bool-cases (status_eq v.status verified || is_expired v now)) [
      | inl over ↦ rw over (inl (refl, refl, refl))
      | inr alive ↦ rw alive (elim (Bool-cases (resend_ready v now)) [
        | inr early ↦ rw early (inl (refl, refl, refl))
        | inl ready ↦ rw ready (elim (Bool-cases (leb max_sends_per_window v.sends_in_window)) [
          | inl reached ↦ rw reached (
              let (bad, quiet, kept) = lock_resend_cases w in
              inr (inl (refl, ground arith, ground arith, refl, ground arith, bad, quiet, kept)))
          | inr below ↦ rw below (elim (send_again_cases w) [
            | inl stays ↦ inl stays
            | inr sends ↦ inr (inr ((refl, ground arith, ground arith, refl, ground arith), sends))
          ])
        ])
      ])
    ])
  ]

-- A resend refuses, with nothing stored and nothing sent; or its challenge was sent five times, is
-- neither locked, nor used, nor expired, its cooldown is over, and it sends nothing and at most locks it; or the challenge
-- is stored, neither locked, nor used, nor expired, its cooldown is over and it was sent fewer than five
-- times: then the sender is called once, with a fresh code for the phone of the challenge. If the sender
-- fails, the resend fails with its error, no table changes and no other call follows. If it does not, the
-- next call stores the hash of the new code in place of the old one, a grown count of sends and a new time
-- of the code, or, with an error, the row stays. A resend that succeeds is of this last kind.
pub resend_verification_cases :
    (env : Env) (id : Uuid) (w : World)
    → let q = resend_verification env id w in
      Stays w q
      ⊎ ((v : Verification) × (find (has_id id) w.db.verifications ≡ some v)
          × (Caps v (env.now (suc w.calls)) w q
              ⊎ (Resendable v (env.now (suc w.calls)) × Resends env v (env.now (suc w.calls)) w q)))
unfolding resend_verification
resend_verification_cases env id w = elim (get_cases env w id) [
  | inl (e, bad, _) ↦ rw bad (inl (refl, refl, refl))
  | inr (v, found, got) ↦
      rw got (elim (resend_loaded_cases env v (env.now (suc w.calls)) (counted (counted w))) [
        | inl stays ↦ inl stays
        | inr rest ↦ inr (v, found, rest)
      ])
]
