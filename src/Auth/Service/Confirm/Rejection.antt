-- ===== src/Auth/Service/Confirm/Rejection.antt =====
-- What a wrong code stores.
use passwordless_auth_servic.Prelude.{update, ◌≡◌, arith, ◌⊎◌}
use passwordless_auth_servic.Auth.Domain.{Time, Verification}
use passwordless_auth_servic.Auth.Verification.{lock, register_failure}
use passwordless_auth_servic.Platform.World.{Env, World}
use passwordless_auth_servic.Postgres.Verifications.{has_id, set_columns}
use passwordless_auth_servic.Postgres.Writes.{save_verification_cases}
use passwordless_auth_servic.Auth.Service.Confirm.{reject_code}

register_failure-id : (v : Verification) (now : Time) → (register_failure v now).0.id ≡ v.id
unfolding register_failure lock
register_failure-id v now = ground arith

pub reject_code_cases :
    (env : Env) (v : Verification) (now : Time) (w : World)
    → let d' = (reject_code env v now w).1.db in
      (d' ≡ w.db)
      ⊎ (d' ≡ record w.db {
        verifications =
            update (has_id v.id) (set_columns (register_failure v now).0) w.db.verifications;
      })
unfolding reject_code
reject_code_cases env v now w =
    let same = register_failure-id v now in
    let wrote = save_verification_cases env w (register_failure v now).0 in
    let wrote_own = rw same at wrote in ground (arith, wrote_own)
