-- ===== src/Auth/Service/Confirm/Effect.antt =====
-- What a confirmed challenge stores, step by step.
use passwordless_auth_servic.Prelude.{
  true, false, some, [], ◌∷◌, ◌++◌, str_eq, any, find, select, length, update, ◌≡◌, ◌≢◌, arith, ◌⊎◌,
  inl, inr, Bool-cases, ◌∙◌, ap,
}
use passwordless_auth_servic.Auth.Domain.{Time, Uuid, Account, Verification, Session, is_signin}
use passwordless_auth_servic.Auth.Failure.{ok}
use passwordless_auth_servic.Auth.Verification.{mark_verified}
use passwordless_auth_servic.Platform.World.{Db, Env, World, on_error}
use passwordless_auth_servic.Platform.World.Runs.{>>=-run, returned, on_error-eq-ok}
use passwordless_auth_servic.Postgres.Accounts
use passwordless_auth_servic.Postgres.Accounts.{clashes}
use passwordless_auth_servic.Postgres.Sessions
use passwordless_auth_servic.Postgres.Sessions.{session_clashes}
use passwordless_auth_servic.Postgres.Verifications
use passwordless_auth_servic.Postgres.Verifications.{has_id, set_columns}
use passwordless_auth_servic.Postgres.Success.{create_session-eq-ok, save_verification-eq-ok}
use passwordless_auth_servic.Auth.Service.Confirm.{
  new_account, existing_account, create_account, resolve_account, settle,
}

-- The account that a challenge resolves to: for a signin the registered one, and the table of
-- accounts stays; else a new one from the challenge, which clashes with none.
abbrev pub Resolves : Verification → Time → Account → Db → Db → Type 0
Resolves v now a d d' =
    ((is_signin v.intent ≡ true)
      × (find (λ b. str_eq b.phone v.phone) d.accounts ≡ some a)
      × (d' ≡ d))
    ⊎ ((id : Uuid) × (is_signin v.intent ≡ false)
        × (a ≡ new_account v id now)
        × (any (clashes a) d.accounts ≡ false)
        × (d' ≡ record d { accounts = d.accounts ++ a ∷ [] }))

module _ (env : Env) (v : Verification) (now : Time) (w : World) where
  existing_account-eq-ok :
      {a : Account} {w' : World}
      → existing_account env v w ≡ (ok a, w')
      → (find (λ b. str_eq b.phone v.phone) w.db.accounts ≡ some a)
        × (w'.db ≡ w.db)
        × (w'.outbox ≡ w.outbox)
  unfolding existing_account Accounts.find_by_phone
  existing_account-eq-ok e = ground arith

  create_account_step :
      {a : Account} {w' : World}
      → create_account env v now w ≡ (ok a, w')
      → (id : Uuid) × (a ≡ new_account v id now)
        × (any (clashes a) w.db.accounts ≡ false)
        × (w'.db ≡ record w.db { accounts = w.db.accounts ++ a ∷ [] })
        × (w'.outbox ≡ w.outbox)
  unfolding create_account Accounts.create
  create_account_step e =
      (env.new_uuid w.calls, ground arith, ground arith, ground arith, ground arith)

  resolve_account-eq-ok :
      {a : Account} {w' : World}
      → resolve_account env v now w ≡ (ok a, w')
      → Resolves v now a w.db w'.db × (w'.outbox ≡ w.outbox)
  unfolding resolve_account
  resolve_account-eq-ok e = elim (Bool-cases (is_signin v.intent)) [
    | inl signin ↦
        let (found, same, quiet) = existing_account-eq-ok (rw signin at e) in
        (inl (signin, found, same), quiet)
    | inr other ↦
        let (id, made, fresh, stored, quiet) = create_account_step (rw other at e) in
        (inr (id, other, made, fresh, stored), quiet)
  ]

-- The tables after a confirmed challenge `v`: the account is resolved, a session for it is appended,
-- and the challenge is marked verified.
abbrev pub Confirms : Verification → Time → Session → Account → Db → Db → Type 0
Confirms v now session a d d' =
    let s = record session { account_id = a.id } in
    (d1 : Db) × Resolves v now a d d1
    × (any (session_clashes s) d1.sessions ≡ false)
    × (length (select (has_id v.id) d1.verifications) ≢ 0)
    × (d' ≡ record d1 {
      sessions = d1.sessions ++ s ∷ [];
      verifications = update (has_id v.id) (set_columns (mark_verified v)) d1.verifications;
    })

module _ (env : Env) (v : Verification) (now : Time) (session : Session) {a : Account}
    (w w1 : World) {w2 w3 : World} where
  settle_steps :
      Resolves v now a w.db w1.db × (w1.outbox ≡ w.outbox)
      → Sessions.create env (record session { account_id = a.id }) w1 ≡ (ok tt, w2)
      → Verifications.save env (mark_verified v) w2 ≡ (ok tt, w3)
      → Confirms v now session a w.db w3.db × (w3.outbox ≡ w.outbox)
  unfolding mark_verified
  settle_steps (resolved, quiet) opened saved =
      let (free, d2, q2) =
        create_session-eq-ok env w1 (record session { account_id = a.id }) opened in
      let (rows, d3, q3) = save_verification-eq-ok env w2 (mark_verified v) saved in
      (
        (
          w1.db,
          resolved,
          free,
          rw (ap (λ (d : Db). d.verifications) d2) at rows,
          d3
              ∙ ap
                  (λ (d : Db). record d {
                    verifications =
                        update (has_id v.id) (set_columns (mark_verified v)) d.verifications;
                  })
                  d2,
        ),
        q3 ∙ (q2 ∙ quiet),
      )

-- A transaction body that succeeded has had its whole effect.
pub settle-eq-ok :
    (env : Env) (v : Verification) (now : Time) (session : Session) (w : World) {a : Account}
    {w' : World}
    → settle env v now session w ≡ (ok a, w')
    → Confirms v now session a w.db w'.db × (w'.outbox ≡ w.outbox)
unfolding settle
settle-eq-ok env v now session w = >>=-run (resolve_account env v now) _ w λ a w1 e1.
    >>=-run (on_error _ (Sessions.create env _)) _ w1 λ _ w2 e2.
      >>=-run (on_error _ (Verifications.save env (mark_verified v))) _ w2 λ _ w3 e3.
        returned (λ b u. Confirms v now session b w.db u.db × (u.outbox ≡ w.outbox))
          (settle_steps env v now session w w1 (resolve_account-eq-ok env v now w e1)
            (on_error-eq-ok _ (Sessions.create env _) w1 e2)
            (on_error-eq-ok _ (Verifications.save env (mark_verified v)) w2 e3))
