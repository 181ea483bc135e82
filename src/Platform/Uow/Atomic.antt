-- ===== src/Platform/Uow/Atomic.antt =====
-- How a transaction ends.
use passwordless_auth_servic.Prelude.{◌≡◌, refl, ◌⊎◌, inl, inr}
use passwordless_auth_servic.Auth.Failure.{Error, Result, ok, err}
use passwordless_auth_servic.Platform.World.{Db, Outcome, answered, failed, lost, Env, World, Exec}
use passwordless_auth_servic.Postgres.Driver.{counted}
use passwordless_auth_servic.Platform.Uow.{in_tx, begun, finish, settle_commit}

abbrev pub IsErr {ℓ} : {A : Type ℓ} → Result A → Type ℓ
IsErr r = (e : Error) × (r ≡ err e)

-- Nothing is stored and an error is returned, or the body returned a value and all that it wrote is
-- stored; an error is then possible too, if the reply to the commit was lost.
abbrev pub AllOrNothing {ℓ} : {A : Type ℓ} → Db → Result A × World → Result A × World → Type ℓ
AllOrNothing {A} before (r, w) (r', w') =
    ((w'.db ≡ before) × IsErr r')
    ⊎ ((a : A) × (r ≡ ok a) × (w'.db ≡ w.db) × ((r' ≡ ok a) ⊎ IsErr r'))

commit_cases {ℓ} :
    {A : Type ℓ} (o : Outcome) (before : Db) (a : A) (w : World)
    → AllOrNothing before (ok a, w) (settle_commit o before a w)
commit_cases answered before a w = inr (a, refl, refl, inl refl)
commit_cases failed before a w = inl (refl, (_, refl))
commit_cases lost before a w = inr (a, refl, refl, inr (_, refl))

finish_cases {ℓ} :
    {A : Type ℓ} (env : Env) (before : Db) (r : Result A) (w : World)
    → AllOrNothing before (r, w) (finish env before r w)
finish_cases env before (ok a) w = commit_cases (env.driver w.calls) before a (counted w)
finish_cases env before (err e) w = inl (refl, (_, refl))

begun_cases {ℓ} :
    {A : Type ℓ} (env : Env) (o : Outcome) (body : Exec A) (w : World)
    → AllOrNothing w.db (body w) (begun env o body w)
begun_cases env answered body w = let (r, w') = body w in finish_cases env w.db r w'
begun_cases env failed body w = inl (refl, (_, refl))
begun_cases env lost body w = inl (refl, (_, refl))

-- Whatever fails, a transaction leaves the tables as they were and returns an error, or its body
-- returned a value and the tables hold all that the body wrote; then that value is returned, or an
-- error if the reply to the commit was lost.
pub in_tx_atomic {ℓ} :
    {A : Type ℓ} (env : Env) (body : Exec A) (w : World)
    → AllOrNothing w.db (body (counted w)) (in_tx env body w)
unfolding in_tx
in_tx_atomic env body w = begun_cases env (env.driver w.calls) body (counted w)
