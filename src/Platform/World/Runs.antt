-- ===== src/Platform/World/Runs.antt =====
-- Inversion of runs: what a bind, a wrapped step or a driver call has done, by how it ended.
use mathlib.Core.Path.{subst₂}
use passwordless_auth_servic.Prelude.{ap, ◌≡◌, refl, ◌⊎◌, inl, inr}
use passwordless_auth_servic.Auth.Failure.{Error, Result, ok, err}
use passwordless_auth_servic.Platform.World.{World, Exec, ◌>>=◌, continue, on_error, with_error}

module _ {ℓ κ} {A : Type ℓ} {B : Type κ} where
  -- A successful bind: both parts succeeded.
  pub bind-eq-ok :
      (m : Result A × World) (f : A → Exec B) {b : B} {w' : World}
      → continue f m.0 m.1 ≡ (ok b, w')
      → (a : A) × (m.0 ≡ ok a) × (f a m.1 ≡ (ok b, w'))
  bind-eq-ok (ok a, w) f e = (a, refl, e)
  bind-eq-ok (err x, w) f e = absurd (cc)

module _ {ℓ} {A : Type ℓ} where
  pub with_error-eq-ok :
      (f : Error → Error) (r : Result A) {a : A} → with_error f r ≡ ok a → r ≡ ok a
  with_error-eq-ok f (ok a) e = e
  with_error-eq-ok f (err x) e = absurd (cc)

  value_or : A → Result A → A
  value_or d (ok a) = a
  value_or d (err e) = d

  pub ok-injective : {a b : A} → ◌≡◌ {A = Result A} (ok a) (ok b) → a ≡ b
  unfolding value_or
  ok-injective {a} e = ap (value_or a) e

  pub Result-cases : (r : Result A) → ((a : A) × (r ≡ ok a)) ⊎ ((e : Error) × (r ≡ err e))
  Result-cases (ok a) = inl (a, refl)
  Result-cases (err e) = inr (e, refl)

module _ {ℓ κ} {A : Type ℓ} {B : Type κ} where
  -- The same for the run of a bind, with the world between the parts.
  pub >>=-eq-ok :
      (m : Exec A) (f : A → Exec B) (w : World) {b : B} {w' : World}
      → (m >>= f) w ≡ (ok b, w')
      → (a : A) × (w1 : World) × (m w ≡ (ok a, w1)) × (f a w1 ≡ (ok b, w'))
  >>=-eq-ok m f w e = let (a, same, rest) = bind-eq-ok (m w) f e in (a, (m w).1, cc, rest)

module _ {ℓ} {A : Type ℓ} where
  pub on_error-eq-ok :
      (f : Error → Error) (m : Exec A) (w : World) {a : A} {w' : World}
      → on_error f m w ≡ (ok a, w')
      → m w ≡ (ok a, w')
  on_error-eq-ok f m w e = settled (m w) e
    where
      settled :
          (p : Result A × World) {a : A} {w' : World}
          → ◌≡◌ {A = Result A × World} (with_error f p.0, p.1) (ok a, w')
          → p ≡ (ok a, w')
      settled (ok x, u) e = e
      settled (err x, u) e = absurd (cc)

  pair_of : Result A × World → A → A
  pair_of (ok a, _) _ = a
  pair_of (err _, _) d = d

  -- What holds of a returned value and its world holds of what a run is said to end in.
  pub returned {κ} :
      (P : A → World → Type κ) {a b : A} {w w' : World}
      → P a w
      → ◌≡◌ {A = Result A × World} (ok a, w) (ok b, w')
      → P b w'
  unfolding pair_of
  returned P {a} {b} h e =
      subst₂ P (ap (λ p. pair_of p a) e) (ap (λ (p : Result A × World). p.1) e) h

module _ {ℓ κ μ} {A : Type ℓ} {B : Type κ} {G : Type μ} where
  -- The inversion of a bind for a goal: its rest is given the parts as variables.
  pub >>=-run :
      (m : Exec A) (f : A → Exec B) (w : World) {b : B} {w' : World}
      → ((a : A) (w1 : World) → m w ≡ (ok a, w1) → f a w1 ≡ (ok b, w') → G)
      → (m >>= f) w ≡ (ok b, w')
      → G
  >>=-run m f w k e = let (a, w1, e1, rest) = >>=-eq-ok m f w e in k a w1 e1 rest
