-- ===== src/Postgres/Driver.antt =====
-- The calls of pgx: one statement at a time, on the pool or on the ambient transaction. The `Db` of
-- the world is what the next statement sees in both cases (`db.Querier`).
use passwordless_auth_servic.Prelude.{ℕ, suc, String}
use passwordless_auth_servic.Auth.Failure.{Error, Result, ok, err, pg, opaque}
use passwordless_auth_servic.Platform.World.{Db, Outcome, answered, failed, lost, Env, World, Exec}

-- What a statement that writes does to the tables: the rows affected, or the code of the constraint
-- that rejects it.
pub data Written : Type 0 where
  written : (rows : ℕ) → Db → Written
  rejected : (code : String) → Written

abbrev pub driver_error : Error
driver_error = opaque "driver"

abbrev pub counted : World → World
counted w = record w { calls = suc w.calls }

abbrev pub settle_query {ℓ} : {A : Type ℓ} → Outcome → A → World → Result A × World
settle_query answered a w = (ok a, w)
settle_query failed a w = (err driver_error, w)
settle_query lost a w = (err driver_error, w)

abbrev pub settle_exec : Outcome → Written → World → Result ℕ × World
settle_exec answered (written n d) w = (ok n, record w { db = d })
settle_exec answered (rejected c) w = (err (pg c), w)
settle_exec failed _ w = (err driver_error, w)
settle_exec lost (written n d) w = (err driver_error, record w { db = d })
settle_exec lost (rejected c) w = (err driver_error, w)

module _ (env : Env) where
  -- `Query` and `QueryRow` with their scans
  abbrev pub query {ℓ} : {A : Type ℓ} → (Db → A) → Exec A
  query f w = settle_query (env.driver w.calls) (f w.db) (counted w)

  -- `Exec`
  abbrev pub exec : (Db → Written) → Exec ℕ
  exec f w = settle_exec (env.driver w.calls) (f w.db) (counted w)
