-- ===== src/Platform/Uow/Keeps.antt =====
-- What the runs of the code keep of the tables, by one rule for each way to build a run.
use passwordless_auth_servic.Prelude.{Bool, true, false, Option, none, some, if◌then◌else◌}
use passwordless_auth_servic.Auth.Failure.{Error, Result, ok, err}
use passwordless_auth_servic.Platform.World.{
  Db, Outcome, answered, failed, lost, Env, World, Exec, pure, raise, attempt, lift, on_error,
  observe, or_raise, ◌>>=◌, continue,
}
use passwordless_auth_servic.Postgres.Driver.{
  Written, written, rejected, query, exec, counted, settle_query, settle_exec,
}
use passwordless_auth_servic.Platform.Uow.{in_tx, begun, finish, settle_commit}

-- What a statement stores, if anything, satisfies a predicate.
abbrev pub Leaves {ℓ} : (Db → Type ℓ) → Written → Type ℓ
Leaves P (written rows d) = P d
Leaves P (rejected code) = Unit

-- `m` keeps `P` of the tables, whether it returns or raises.
pub record Keeps {ℓ κ} {A : Type ℓ} (P : Db → Type κ) (m : Exec A) : Type κ where
  pub at : (w : World) → P w.db → P (m w).1.db

module _ {ℓ κ} {A : Type ℓ} {P : Db → Type κ} where
  pub Keeps-pure : (a : A) → Keeps P (pure a)
  Keeps-pure a = record { at = λ w h. h }

  pub Keeps-raise : (e : Error) → Keeps P (raise {A = A} e)
  Keeps-raise e = record { at = λ w h. h }

  pub Keeps-lift : (r : Result A) → Keeps P (lift r)
  Keeps-lift r = record { at = λ w h. h }

  pub Keeps-observe : (f : _ → A) → Keeps P (observe f)
  Keeps-observe f = record { at = λ w h. h }

  pub Keeps-or_raise : (e : Error) (o : Option A) → Keeps P (or_raise e o)
  Keeps-or_raise e none = record { at = λ w h. h }
  Keeps-or_raise e (some a) = record { at = λ w h. h }

  pub Keeps-attempt : (m : Exec A) → Keeps P m → Keeps P (attempt m)
  Keeps-attempt m k = record { at = λ w h. k.at w h }

  pub Keeps-on_error : (f : Error → Error) (m : Exec A) → Keeps P m → Keeps P (on_error f m)
  Keeps-on_error f m k = record { at = λ w h. k.at w h }

  pub Keeps-if : (b : Bool) (m n : Exec A) → Keeps P m → Keeps P n → Keeps P (if b then m else n)
  Keeps-if true m n km kn = km
  Keeps-if false m n km kn = kn

module _ {ℓ κ} {P : Db → Type κ} (env : Env) where
  pub Keeps-query : {A : Type ℓ} (f : Db → A) → Keeps P (query env f)
  Keeps-query f = record { at = λ w h. settled (env.driver w.calls) (f w.db) (counted w) h }
    where
      settled :
          {A : Type ℓ} (o : Outcome) (a : A) (w : World) → P w.db → P (settle_query o a w).1.db
      settled answered a w h = h
      settled failed a w h = h
      settled lost a w h = h

  pub Keeps-in_tx : {A : Type ℓ} (m : Exec A) → Keeps P m → Keeps P (in_tx env m)
  unfolding in_tx
  Keeps-in_tx m k = record { at = λ w h. opened (env.driver w.calls) (counted w) h }
    where
      committed :
          {A : Type ℓ} (o : Outcome) (before : Db) (a : A) (w : World)
          → P before
          → P w.db
          → P (settle_commit o before a w).1.db
      committed answered before a w hb h = h
      committed failed before a w hb h = hb
      committed lost before a w hb h = h

      finished :
          {A : Type ℓ} (before : Db) (r : Result A) (w : World)
          → P before
          → P w.db
          → P (finish env before r w).1.db
      finished before (ok a) w hb h = committed (env.driver w.calls) before a (counted w) hb h
      finished before (err e) w hb h = hb

      opened : (o : Outcome) (w : World) → P w.db → P (begun env o m w).1.db
      opened answered w h = finished w.db (m w).0 (m w).1 h (k.at w h)
      opened failed w h = h
      opened lost w h = h

module _ {κ} {P : Db → Type κ} (env : Env) where
  pub Keeps-exec : (f : Db → Written) → ((d : Db) → P d → Leaves P (f d)) → Keeps P (exec env f)
  Keeps-exec f k = record {
    at = λ w h. settled (env.driver w.calls) (f w.db) (counted w) h (k w.db h);
  }
    where
      settled :
          (o : Outcome) (c : Written) (w : World) → P w.db → Leaves P c → P (settle_exec o c w).1.db
      settled answered (written n d) w h hd = hd
      settled answered (rejected c) w h hd = h
      settled failed c w h hd = h
      settled lost (written n d) w h hd = hd
      settled lost (rejected c) w h hd = h

module _ {ℓ κ μ} {A : Type ℓ} {B : Type κ} {P : Db → Type μ} where
  pub Keeps-bind :
      (m : Exec A) (f : A → Exec B) → Keeps P m → ((a : A) → Keeps P (f a)) → Keeps P (m >>= f)
  Keeps-bind m f km kf = record { at = λ w h. rest (m w).0 (m w).1 (km.at w h) }
    where
      rest : (r : Result A) (w : World) → P w.db → P (continue f r w).1.db
      rest (ok a) w h = (kf a).at w h
      rest (err e) w h = h

pub ruleset keeps_rules = (
  Keeps-pure, Keeps-raise, Keeps-lift, Keeps-observe, Keeps-or_raise, Keeps-attempt, Keeps-on_error,
  Keeps-if, Keeps-query, Keeps-in_tx, Keeps-bind,
)
