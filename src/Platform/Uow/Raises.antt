-- ===== src/Platform/Uow/Raises.antt =====
-- Which errors of internal/auth/domain.go the runs of the code can name, by one rule for each way to build
-- a run.
pub mod Naming
use mathlib.Core.Path.{subst}
use passwordless_auth_servic.Prelude.{
  ℕ, Bool, true, false, ◌||◌, Option, none, some, List, ◌∷◌, any, ◌==◌, ◌≡◌, refl, arith, inl, inr,
  ==_iff, Bool-cases, if◌then◌else◌, String,
}
use passwordless_auth_servic.Auth.Domain.{Time}
use passwordless_auth_servic.Auth.Failure.{
  Sentinel, ordinal, Error, sentinel, incorrect_code_error, locked_error, pg, opaque, wrapped,
  joined, incorrect_code, locked, errors_is, Result, ok, err,
}
use passwordless_auth_servic.Platform.World.{
  Db, Outcome, answered, failed, lost, Env, World, Exec, pure, raise, attempt, lift, on_error,
  observe, or_raise, ◌>>=◌, continue, with_error,
}
use passwordless_auth_servic.Postgres.Driver.{
  Written, written, rejected, query, exec, counted, settle_query, settle_exec,
}
use passwordless_auth_servic.Platform.Uow.{in_tx, begun, finish, settle_commit, settle_rollback}
pub use passwordless_auth_servic.Platform.Uow.Raises.Naming.{
  among, Names, ErrNames, Names-sentinel, Names-incorrect_code_error, Names-locked_error,
  Names-opaque, Names-pg, Names-wrapped, Names-joined, Names-other,
}

-- Whenever `m` raises an error, it names only the given ones.
pub record Raises {ℓ} {A : Type ℓ} (names : List Sentinel) (m : Exec A) : Type ℓ where
  pub at : (w : World) → ErrNames names (m w).0

module _ {ℓ} {A : Type ℓ} {names : List Sentinel} where
  pub Raises-pure : (a : A) → Raises names (pure a)
  Raises-pure a = record { at = λ w. tt }

  pub Raises-raise : (e : Error) → Names names e → Raises names (raise {A = A} e)
  Raises-raise e h = record { at = λ w. h }

  pub Raises-lift : (r : Result A) → ErrNames names r → Raises names (lift r)
  Raises-lift r h = record { at = λ w. h }

  pub Raises-observe : (f : _ → A) → Raises names (observe f)
  Raises-observe f = record { at = λ w. tt }

  pub Raises-or_raise : (e : Error) (o : Option A) → Names names e → Raises names (or_raise e o)
  Raises-or_raise e none h = record { at = λ w. h }
  Raises-or_raise e (some a) h = record { at = λ w. tt }

  pub Raises-if :
      (b : Bool) (m n : Exec A)
      → Raises names m
      → Raises names n
      → Raises names (if b then m else n)
  Raises-if true m n km kn = km
  Raises-if false m n km kn = kn

  -- A step whose error is turned into another one.
  pub Raises-on_error :
      {before : List Sentinel} (f : Error → Error) (m : Exec A)
      → ((e : Error) → Names before e → Names names (f e))
      → Raises before m
      → Raises names (on_error f m)
  Raises-on_error {before} f m turns h = record { at = λ w. turned (m w).0 (h.at w) }
    where
      turned : (r : Result A) → ErrNames before r → ErrNames names (with_error f r)
      turned (ok a) tt = tt
      turned (err e) h = turns e h

  pub Raises-wrapped :
      (op : String) (m : Exec A) → Raises names m → Raises names (on_error (wrapped op) m)
  Raises-wrapped op m h = Raises-on_error (wrapped op) m (λ e n. Names-wrapped op e n) h

module _ {ℓ} {names : List Sentinel} (env : Env) where
  pub Raises-query : {A : Type ℓ} (f : Db → A) → Raises names (query env f)
  Raises-query f = record { at = λ w. settled (env.driver w.calls) (f w.db) (counted w) }
    where
      settled :
          {A : Type ℓ} (o : Outcome) (a : A) (w : World) → ErrNames names (settle_query o a w).0
      settled answered a w = tt
      settled failed a w = Names-opaque "driver"
      settled lost a w = Names-opaque "driver"

  pub Raises-in_tx : {A : Type ℓ} (m : Exec A) → Raises names m → Raises names (in_tx env m)
  unfolding in_tx
  Raises-in_tx m k = record { at = λ w. opened (env.driver w.calls) (counted w) }
    where
      committed :
          {A : Type ℓ} (o : Outcome) (before : Db) (a : A) (w : World)
          → ErrNames names (settle_commit o before a w).0
      committed answered before a w = tt
      committed failed before a w = Names-wrapped "db: commit" _ (Names-opaque "driver")
      committed lost before a w = Names-wrapped "db: commit" _ (Names-opaque "driver")

      rolled_back : (o : Outcome) (e : Error) → Names names e → Names names (settle_rollback o e)
      rolled_back answered e h = h
      rolled_back failed e h =
          Names-wrapped "db: rollback after" _ (Names-joined e _ h (Names-opaque "driver"))
      rolled_back lost e h =
          Names-wrapped "db: rollback after" _ (Names-joined e _ h (Names-opaque "driver"))

      finished :
          {A : Type ℓ} (before : Db) (r : Result A) (w : World)
          → ErrNames names r
          → ErrNames names (finish env before r w).0
      finished before (ok a) w h = committed (env.driver w.calls) before a (counted w)
      finished before (err e) w h = rolled_back (env.driver w.calls) e h

      opened : (o : Outcome) (w : World) → ErrNames names (begun env o m w).0
      opened answered w = finished w.db (m w).0 (m w).1 (k.at w)
      opened failed w = Names-wrapped "db: begin tx" _ (Names-opaque "driver")
      opened lost w = Names-wrapped "db: begin tx" _ (Names-opaque "driver")

module _ {names : List Sentinel} (env : Env) where
  pub Raises-exec : (f : Db → Written) → Raises names (exec env f)
  Raises-exec f = record { at = λ w. settled (env.driver w.calls) (f w.db) (counted w) }
    where
      settled : (o : Outcome) (c : Written) (w : World) → ErrNames names (settle_exec o c w).0
      settled answered (written n d) w = tt
      settled answered (rejected c) w = Names-pg c
      settled failed c w = Names-opaque "driver"
      settled lost (written n d) w = Names-opaque "driver"
      settled lost (rejected c) w = Names-opaque "driver"

module _ {ℓ κ} {A : Type ℓ} {B : Type κ} {names : List Sentinel} where
  pub Raises-bind :
      (m : Exec A) (f : A → Exec B)
      → Raises names m
      → ((a : A) → Raises names (f a))
      → Raises names (m >>= f)
  Raises-bind m f km kf = record { at = λ w. rest (m w).0 (m w).1 (km.at w) }
    where
      rest : (r : Result A) (w : World) → ErrNames names r → ErrNames names (continue f r w).0
      rest (ok a) w h = (kf a).at w
      rest (err e) w h = h

  -- The outcome of a step that may fail is a value, whose error is looked at next.
  pub Raises-attempt :
      (before : List Sentinel) (m : Exec A) (f : Result A → Exec B)
      → Raises before m
      → ((r : Result A) → ErrNames before r → Raises names (f r))
      → Raises names (attempt m >>= f)
  Raises-attempt before m f km kf = record { at = λ w. (kf (m w).0 (km.at w)).at (m w).1 }

pub ruleset raises_rules = (
  Names-sentinel, Names-incorrect_code_error, Names-locked_error, Names-opaque, Names-pg,
  Names-wrapped, Names-joined, Raises-pure, Raises-raise, Raises-lift, Raises-observe,
  Raises-or_raise, Raises-if, Raises-wrapped, Raises-query, Raises-in_tx, Raises-exec, Raises-bind,
)
