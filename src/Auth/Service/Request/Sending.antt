-- ===== src/Auth/Service/Request/Sending.antt =====
-- The part of a request for a code that draws, sends and stores it.
use passwordless_auth_servic.Prelude.{
  ℕ, suc, ◌≢◌, none, String, true, Option, some, [], ◌∷◌, ◌++◌, ◌≡◌, refl, arith, ◌⊎◌, inl, inr,
  Option-cases,
}
use passwordless_auth_servic.Auth.Domain.{Time, Verification}
use passwordless_auth_servic.Auth.Failure.{
  Error, Result, ok, err, wrapped, joined, sentinel, send_failed, opaque, is_err,
}
use passwordless_auth_servic.Platform.World.{Db, failed, Env, World, ◌>>◌, on_error, pure}
use passwordless_auth_servic.Postgres.Driver.{counted}
use passwordless_auth_servic.Postgres.Verifications
use passwordless_auth_servic.Postgres.Verifications.{has_id, set_columns, find_latest, sends_since}
use passwordless_auth_servic.Postgres.Writes.{create_verification_settled}
use passwordless_auth_servic.Auth.Service.{generate_otp, hash_code, send_code, format_otp}
use passwordless_auth_servic.Auth.Service.Request.{
  RequestVerificationParams, new_verification, send_fresh,
}

-- A run that failed, stored nothing and sent nothing.
abbrev pub Stays {ℓ} : {A : Type ℓ} → World → Result A × World → Type 0
Stays w (r, w') = (is_err r ≡ true) × (w'.db ≡ w.db) × (w'.outbox ≡ w.outbox)

-- The code of the number that the random source yielded at call `j`, and its hash, taken at the next one.
abbrev pub Drawn : Env → ℕ → String → String → Type 0
Drawn env j code code_hash =
    (n : ℕ) × (env.random_int j ≡ some n)
    × (code ≡ format_otp n)
    × (env.generate_from_password (suc j) code ≡ some code_hash)

-- A run whose call `k`, its last one, was the write that makes the tables `d`: it stored nothing and
-- failed; or it stored them, the driver not having failed beforehand, and returned `v` or an error.
abbrev pub Settles : Env → ℕ → Db → Verification → World → Result Verification × World → Type 0
Settles env k d v w (r, w') =
    (w'.calls ≡ suc k)
    × (((is_err r ≡ true) × (w'.db ≡ w.db))
        ⊎ ((w'.db ≡ d) × (env.driver k ≢ failed) × ((r ≡ ok v) ⊎ (is_err r ≡ true))))

-- A run whose call `k`, its last one, was that of the sender, which failed: nothing is stored.
abbrev pub Undelivered : Env → ℕ → String → String → World → Result Verification × World → Type 0
Undelivered env k phone code w (r, w') =
    (e : Error) × (env.send_code k phone code ≡ some e)
    × (r ≡ err (joined (sentinel send_failed) e))
    × (w'.db ≡ w.db)
    × (w'.calls ≡ suc k)

-- A run that made one call of the sender, with a fresh code. Where the sender failed, it was the last
-- call; where it did not, the new challenge, whose id is drawn after the call of the sender, is stored for
-- the code's hash by the call after that, or, with an error, is not.
abbrev pub Sends :
    Env
    → RequestVerificationParams
    → String
    → Option (String × String)
    → Time
    → World
    → Result Verification × World
    → Type 0
Sends env params normalized link now w (r, w') =
    (code : String) × (code_hash : String) × (j : ℕ) × Drawn env j code code_hash
    × (w'.outbox ≡ (normalized, code) ∷ w.outbox)
    × (Undelivered env (suc (suc j)) normalized code w (r, w')
        ⊎ ((env.send_code (suc (suc j)) normalized code ≡ none)
            × (let v =
                  new_verification params normalized link (env.new_uuid (suc (suc (suc j))))
                    code_hash now in
                Settles env (suc (suc (suc (suc j))))
                  (record w.db { verifications = w.db.verifications ++ v ∷ [] }) v w (r, w'))))

module _ (env : Env) where
  pub otp_cases :
      (w : World)
      → ((e : Error) × (generate_otp env w ≡ (err e, counted w)))
        ⊎ ((n : ℕ) × (env.random_int w.calls ≡ some n)
            × (generate_otp env w ≡ (ok (format_otp n), counted w)))
  unfolding generate_otp
  otp_cases w = elim (Option-cases (env.random_int w.calls)) [
    | inl e ↦ inl (wrapped "auth: generate otp" (opaque "rand"), rw e)
    | inr (n, e) ↦ inr (n, e, rw e)
  ]

  pub hash_cases :
      (code : String) (w : World)
      → ((e : Error) × (hash_code env code w ≡ (err e, counted w)))
        ⊎ ((h : String) × (env.generate_from_password w.calls code ≡ some h)
            × (hash_code env code w ≡ (ok h, counted w)))
  unfolding hash_code
  hash_cases code w = elim (Option-cases (env.generate_from_password w.calls code)) [
    | inl e ↦ inl (wrapped "auth: hash code" (opaque "bcrypt"), rw e)
    | inr (h, e) ↦ inr (h, e, rw e)
  ]

  abbrev pub handed : String → String → World → World
  handed normalized code w = record w {
    calls = suc w.calls;
    outbox = (normalized, code) ∷ w.outbox;
  }

  pub send_code_cases :
      (normalized code : String) (w : World)
      → ((e : Error) × (env.send_code w.calls normalized code ≡ some e)
          × (send_code env normalized code w
              ≡ (err (joined (sentinel send_failed) e), handed normalized code w)))
        ⊎ ((env.send_code w.calls normalized code ≡ none)
            × (send_code env normalized code w ≡ (ok tt, handed normalized code w)))
  unfolding send_code
  send_code_cases normalized code w = elim (Option-cases (env.send_code w.calls normalized code)) [
    | inl e ↦ inr (e, rw e)
    | inr (x, e) ↦ inl (x, e, rw e)
  ]

module _ (env : Env) (params : RequestVerificationParams) (normalized : String)
    (link : Option (String × String)) (now : Time) where
  -- The insertion of the challenge and the return, after the code `code` was sent.
  abbrev stores : Verification → World → Result Verification × World
  stores v w =
      (on_error (wrapped "auth: request verification: create") (Verifications.create env v)
          >> pure v)
        w

  stores_cases :
      (v : Verification) (w : World)
      → let q = stores v w in
        (q.1.outbox ≡ w.outbox)
        × Settles env w.calls (record w.db { verifications = w.db.verifications ++ v ∷ [] }) v w q
  stores_cases v w = ground (arith, create_verification_settled env w v)

  pub send_fresh_cases :
      (w : World)
      → let q = send_fresh env params normalized link now w in
        Stays w q ⊎ Sends env params normalized link now w q
  unfolding send_fresh
  send_fresh_cases w = elim (otp_cases env w) [
    | inl (e, bad) ↦ rw bad (inl (refl, refl, refl))
    | inr (n, drawn, made) ↦ rw made (elim (hash_cases env (format_otp n) (counted w)) [
      | inl (e, bad) ↦ rw bad (inl (refl, refl, refl))
      | inr (h, hashed, kept) ↦
          let fresh : Drawn env w.calls (format_otp n) h = (n, drawn, refl, hashed) in
          rw kept (elim (send_code_cases env normalized (format_otp n) (counted (counted w))) [
            | inl (e, refused, bad) ↦
                rw bad
                  (inr (format_otp n, h, w.calls, fresh, refl, inl (e, refused, refl, refl, refl)))
            | inr (taken, sent) ↦ rw sent (
                let id = env.new_uuid (suc (suc (suc w.calls))) in
                let (same, ended) =
                  stores_cases (new_verification params normalized link id h now)
                    (counted (handed env normalized (format_otp n) (counted (counted w)))) in
                inr (format_otp n, h, w.calls, fresh, same, inr (taken, ended)))
          ])
    ])
  ]
