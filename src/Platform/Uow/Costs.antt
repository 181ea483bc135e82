-- ===== src/Platform/Uow/Costs.antt =====
-- How many outside calls a run makes, by one rule for each way to build a run.
use passwordless_auth_servic.Prelude.{
  ℕ, suc, ◌+◌, ◌≤◌, Bool, true, false, Option, none, some, if◌then◌else◌, arith,
}
use passwordless_auth_servic.Auth.Failure.{Error, Result, ok, err}
use passwordless_auth_servic.Platform.World.{
  Db, Outcome, answered, failed, lost, Env, World, Exec, pure, raise, attempt, lift, on_error,
  observe, or_raise, ◌>>=◌, continue,
}
use passwordless_auth_servic.Postgres.Driver.{
  Written, written, rejected, query, exec, counted, settle_query, settle_exec,
}
use passwordless_auth_servic.Platform.Uow.{in_tx, begun, finish, settle_commit}

-- `m` makes at most `n` outside calls, whether it returns or raises.
pub record Costs {ℓ} {A : Type ℓ} (n : ℕ) (m : Exec A) : Type 0 where
  pub at : (w : World) → (m w).1.calls ≤ w.calls + n

module _ {ℓ} {A : Type ℓ} {n : ℕ} where
  pub Costs-pure : (a : A) → Costs n (pure a)
  Costs-pure a = record { at = λ w. omega (arith) }

  pub Costs-raise : (e : Error) → Costs n (raise {A = A} e)
  Costs-raise e = record { at = λ w. omega (arith) }

  pub Costs-lift : (r : Result A) → Costs n (lift r)
  Costs-lift r = record { at = λ w. omega (arith) }

  pub Costs-observe : (f : ℕ → A) → Costs (suc n) (observe f)
  Costs-observe f = record { at = λ w. omega (arith) }

  pub Costs-or_raise : (e : Error) (o : Option A) → Costs n (or_raise e o)
  Costs-or_raise e none = record { at = λ w. omega (arith) }
  Costs-or_raise e (some a) = record { at = λ w. omega (arith) }

  pub Costs-attempt : (m : Exec A) → Costs n m → Costs n (attempt m)
  Costs-attempt m k = record { at = λ w. k.at w }

  pub Costs-on_error : (f : Error → Error) (m : Exec A) → Costs n m → Costs n (on_error f m)
  Costs-on_error f m k = record { at = λ w. k.at w }

  pub Costs-if : (b : Bool) (m m' : Exec A) → Costs n m → Costs n m' → Costs n (if b then m else m')
  Costs-if true m m' k k' = k
  Costs-if false m m' k k' = k'

module _ {ℓ} {A : Type ℓ} (env : Env) where
  pub Costs-query : {n : ℕ} (f : Db → A) → Costs (suc n) (query env f)
  Costs-query {n} f = record { at = λ w. settled (env.driver w.calls) (f w.db) w }
    where
      settled :
          (o : Outcome) (a : A) (w : World)
          → (settle_query o a (counted w)).1.calls ≤ w.calls + suc n
      settled answered a w = omega (arith)
      settled failed a w = omega (arith)
      settled lost a w = omega (arith)

  -- The begin and the commit or the rollback are calls too.
  pub Costs-in_tx : {n : ℕ} (m : Exec A) → Costs n m → Costs (suc (suc n)) (in_tx env m)
  unfolding in_tx
  Costs-in_tx {n} m k = record { at = λ w. opened (env.driver w.calls) w }
    where
      committed :
          (o : Outcome) (before : Db) (a : A) (w : World)
          → (settle_commit o before a w).1.calls ≤ w.calls
      committed answered before a w = omega (arith)
      committed failed before a w = omega (arith)
      committed lost before a w = omega (arith)

      finished :
          (before : Db) (r : Result A) (w : World) → (finish env before r w).1.calls ≤ suc w.calls
      finished before (ok a) w = committed (env.driver w.calls) before a (counted w)
      finished before (err e) w = omega (arith)

      opened :
          (o : Outcome) (w : World) → (begun env o m (counted w)).1.calls ≤ w.calls + suc (suc n)
      opened answered w =
          omega (arith, finished w.db (m (counted w)).0 (m (counted w)).1, k.at (counted w))
      opened failed w = omega (arith)
      opened lost w = omega (arith)

pub Costs-exec : {n : ℕ} (env : Env) (f : Db → Written) → Costs (suc n) (exec env f)
Costs-exec {n} env f = record { at = λ w. settled (env.driver w.calls) (f w.db) w }
  where
    settled :
        (o : Outcome) (c : Written) (w : World)
        → (settle_exec o c (counted w)).1.calls ≤ w.calls + suc n
    settled answered (written rows d) w = omega (arith)
    settled answered (rejected c) w = omega (arith)
    settled failed c w = omega (arith)
    settled lost (written rows d) w = omega (arith)
    settled lost (rejected c) w = omega (arith)

module _ {ℓ κ} {A : Type ℓ} {B : Type κ} where
  pub Costs-bind :
      (a b : ℕ) (m : Exec A) (f : A → Exec B)
      → Costs a m
      → ((x : A) → Costs b (f x))
      → Costs (a + b) (m >>= f)
  Costs-bind a b m f km kf = record { at = λ w. omega (arith, rest (m w).0 (m w).1, km.at w) }
    where
      rest : (r : Result A) (w : World) → (continue f r w).1.calls ≤ w.calls + b
      rest (ok x) w = (kf x).at w
      rest (err e) w = omega (arith)

  -- A step without a call, and one with a single call.
  pub Costs-then :
      {n : ℕ} (m : Exec A) (f : A → Exec B)
      → Costs 0 m
      → ((x : A) → Costs n (f x))
      → Costs n (m >>= f)
  Costs-then {n} m f km kf = record { at = λ w. omega (arith, (Costs-bind 0 n m f km kf).at w) }

  pub Costs-call :
      {n : ℕ} (m : Exec A) (f : A → Exec B)
      → Costs 1 m
      → ((x : A) → Costs n (f x))
      → Costs (suc n) (m >>= f)
  Costs-call {n} m f km kf = record { at = λ w. omega (arith, (Costs-bind 1 n m f km kf).at w) }

  -- A last step, with nothing to pay behind it.
  pub Costs-last :
      {n : ℕ} (m : Exec A) (f : A → Exec B)
      → Costs n m
      → ((x : A) → Costs 0 (f x))
      → Costs n (m >>= f)
  Costs-last {n} m f km kf = record { at = λ w. omega (arith, (Costs-bind n 0 m f km kf).at w) }

pub ruleset costs_rules = (
  Costs-pure, Costs-raise, Costs-lift, Costs-observe, Costs-or_raise, Costs-attempt, Costs-on_error,
  Costs-if, Costs-query, Costs-exec, Costs-in_tx, Costs-then, Costs-call, Costs-last,
)
