-- ===== src/Auth/Service/Request/Capping.antt =====
-- The send cap of a request for a code: the count of sends and the lock.
use passwordless_auth_servic.Prelude.{
  ◌-◌, ◌≤◌, String, true, false, some, update, ◌≡◌, refl, arith, ◌⊎◌, inl, inr,
}
use passwordless_auth_servic.Auth.Domain.{Time, Verification, send_cap_window, max_sends_per_window}
use passwordless_auth_servic.Auth.Failure.{Error, Result, ok, err, is_err, wrapped}
use passwordless_auth_servic.Auth.Verification.{is_locked, resend_ready, lock}
use passwordless_auth_servic.Platform.World.{Outcome, answered, failed, lost, Env, World, on_error}
use passwordless_auth_servic.Postgres.Driver.{counted, settle_query}
use passwordless_auth_servic.Postgres.Verifications
use passwordless_auth_servic.Postgres.Verifications.{has_id, set_columns, find_latest, sends_since}
use passwordless_auth_servic.Postgres.Writes.{save_verification_cases}
use passwordless_auth_servic.Auth.Service.Request.{trip_send_cap}

-- A run that met the send cap: it failed and sent nothing, and at most locked the phone's latest
-- challenge, which was not locked and whose cooldown was over.
abbrev pub Locks : String → Time → World → Result Verification × World → Type 0
Locks phone now w (r, w') =
    (v : Verification) × (find_latest phone w.db ≡ some v)
    × (is_locked v now ≡ false)
    × (resend_ready v now ≡ true)
    × (max_sends_per_window ≤ sends_since phone (now - send_cap_window) w.db)
    × (is_err r ≡ true)
    × (w'.outbox ≡ w.outbox)
    × ((w'.db ≡ w.db)
        ⊎ (w'.db ≡ record w.db {
          verifications = update (has_id v.id) (set_columns (lock v now)) w.db.verifications;
        }))

pub trip_send_cap-some :
    (env : Env) (v : Verification) (now : Time) (w : World)
    → let (r, w') = trip_send_cap env (some v) now w in
      (is_err r ≡ true)
      × (w'.outbox ≡ w.outbox)
      × ((w'.db ≡ w.db)
          ⊎ (w'.db ≡ record w.db {
            verifications = update (has_id v.id) (set_columns (lock v now)) w.db.verifications;
          }))
unfolding trip_send_cap lock
trip_send_cap-some env v now w = ground (arith, save_verification_cases env w (lock v now))

pub count_cases :
    (env : Env) (phone : String) (since : Time) (w : World)
    → ((e : Error) × (Verifications.count_sends_since env phone since w ≡ (err e, counted w)))
      ⊎ (Verifications.count_sends_since env phone since w
          ≡ (ok (sends_since phone since w.db), counted w))
unfolding Verifications.count_sends_since
count_cases env phone since w = settled (env.driver w.calls)
  where
    settled :
        (o : Outcome)
        → ((e : Error) × (on_error
                (wrapped "auth: count sends since")
                (λ (u : World). settle_query o (sends_since phone since w.db) (counted u))
                w
              ≡ (err e, counted w)))
          ⊎ (on_error
                (wrapped "auth: count sends since")
                (λ (u : World). settle_query o (sends_since phone since w.db) (counted u))
                w
              ≡ (ok (sends_since phone since w.db), counted w))
    settled answered = inr refl
    settled failed = inl (_, refl)
    settled lost = inl (_, refl)
