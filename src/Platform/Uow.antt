-- ===== src/Platform/Uow.antt =====
-- `TxManager.InTx` of internal/platform/db/uow.go. The writes of an open transaction show in the
-- world's tables; a rollback brings back those of its begin. Panics are not modelled.
pub mod Atomic
pub mod Keeps
pub mod Raises
pub mod Costs
use passwordless_auth_servic.Prelude.{ℕ, suc}
use passwordless_auth_servic.Auth.Failure.{Error, Result, ok, err, wrapped, joined}
use passwordless_auth_servic.Platform.World.{Db, Outcome, answered, failed, lost, Env, World, Exec}
use passwordless_auth_servic.Postgres.Driver.{driver_error, counted}

abbrev settle_commit {ℓ} : {A : Type ℓ} → Outcome → Db → A → World → Result A × World
settle_commit answered before a w = (ok a, w)
settle_commit failed before a w =
    (err (wrapped "db: commit" driver_error), record w { db = before })
settle_commit lost before a w = (err (wrapped "db: commit" driver_error), w)

-- A transaction whose rollback is not acknowledged is not committed either.
abbrev settle_rollback : Outcome → Error → Error
settle_rollback answered e = e
settle_rollback failed e = wrapped "db: rollback after" (joined e driver_error)
settle_rollback lost e = wrapped "db: rollback after" (joined e driver_error)

module _ (env : Env) where
  abbrev finish {ℓ} : {A : Type ℓ} → Db → Result A → World → Result A × World
  finish before (ok a) w = settle_commit (env.driver w.calls) before a (counted w)
  finish before (err e) w =
      (err (settle_rollback (env.driver w.calls) e), record (counted w) { db = before })

  abbrev begun {ℓ} : {A : Type ℓ} → Outcome → Exec A → Exec A
  begun answered body w = let (r, w') = body w in finish w.db r w'
  begun failed body w = (err (wrapped "db: begin tx" driver_error), w)
  begun lost body w = (err (wrapped "db: begin tx" driver_error), w)

  unfoldable pub in_tx {ℓ} : {A : Type ℓ} → Exec A → Exec A
  in_tx body w = begun (env.driver w.calls) body (counted w)
