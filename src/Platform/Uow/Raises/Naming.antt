-- ===== src/Platform/Uow/Raises/Naming.antt =====
-- Which errors of internal/auth/domain.go an error names, that is, which `errors.Is` finds in it.
use mathlib.Core.Path.{subst}
use passwordless_auth_servic.Prelude.{
  ℕ, Bool, true, false, ◌||◌, List, ◌∷◌, any, ◌==◌, ◌≡◌, refl, arith, inl, inr, ==_iff, Bool-cases,
  String,
}
use passwordless_auth_servic.Auth.Domain.{Time}
use passwordless_auth_servic.Auth.Failure.{
  Sentinel, ordinal, Error, sentinel, incorrect_code_error, locked_error, pg, opaque, wrapped,
  joined, incorrect_code, locked, errors_is, Result, ok, err,
}

abbrev pub among : List Sentinel → Sentinel → Bool
among names s = any (λ x. ordinal x == ordinal s) names

-- `errors.Is` finds no other package variable in the error than the given ones.
pub record Names (names : List Sentinel) (e : Error) : Type 0 where
  pub only : (s : Sentinel) → errors_is e s ≡ true → among names s ≡ true

abbrev pub ErrNames {ℓ} : {A : Type ℓ} → List Sentinel → Result A → Type 0
ErrNames names (ok a) = Unit
ErrNames names (err e) = Names names e

-- Two tests with one code.
errors_is-same :
    (x s : Sentinel) (e : Error)
    → (ordinal x == ordinal s) ≡ true
    → errors_is e s ≡ true
    → errors_is e x ≡ true
unfolding errors_is
errors_is-same x s (sentinel y) same is = ground arith
errors_is-same x s (incorrect_code_error n) same is = ground arith
errors_is-same x s (locked_error t) same is = ground arith
errors_is-same x s (pg code) same is = absurd (cc)
errors_is-same x s (opaque text) same is = absurd (cc)
errors_is-same x s (wrapped op e) same is = errors_is-same x s e same is
errors_is-same x s (joined a b) same is = elim (Bool-cases (errors_is a s)) [
  | inl in_a ↦ rw (errors_is-same x s a same in_a) refl
  | inr not_a ↦
      let in_b = errors_is-same x s b same (rw not_a at is) in
      elim (errors_is a x) as (λ c. (c || errors_is b x) ≡ true) [ true ↦ refl | false ↦ in_b ]
]

among-same :
    (names : List Sentinel) (x s : Sentinel)
    → (ordinal x == ordinal s) ≡ true
    → among names x ≡ true
    → among names s ≡ true
among-same names x s same there =
    subst (λ k. any (λ y. ordinal y == k) names ≡ true) ((==_iff (ordinal x) (ordinal s)).0 same)
      there

module _ {names : List Sentinel} where
  pub Names-sentinel : (x : Sentinel) → among names x ≡ true → Names names (sentinel x)
  unfolding errors_is
  Names-sentinel x there = record { only = λ s e. among-same names x s e there }

  pub Names-incorrect_code_error :
      (n : ℕ) → among names incorrect_code ≡ true → Names names (incorrect_code_error n)
  unfolding errors_is
  Names-incorrect_code_error n there = record {
    only = λ s e. among-same names incorrect_code s e there;
  }

  pub Names-locked_error : (t : Time) → among names locked ≡ true → Names names (locked_error t)
  unfolding errors_is
  Names-locked_error t there = record { only = λ s e. among-same names locked s e there }

  pub Names-opaque : (text : String) → Names names (opaque text)
  unfolding errors_is
  Names-opaque text = record { only = λ s e. absurd (cc) }

  pub Names-pg : (code : String) → Names names (pg code)
  unfolding errors_is
  Names-pg code = record { only = λ s e. absurd (cc) }

  pub Names-wrapped : (op : String) (e : Error) → Names names e → Names names (wrapped op e)
  unfolding errors_is
  Names-wrapped op e h = record { only = λ s is. h.only s is }

  pub Names-joined : (a b : Error) → Names names a → Names names b → Names names (joined a b)
  unfolding errors_is
  Names-joined a b ha hb = record {
    only = λ s is. elim (Bool-cases (errors_is a s)) [
      | inl in_a ↦ ha.only s in_a
      | inr not_a ↦ hb.only s (rw not_a at is)
    ];
  }

  -- An error that does not name what the caller has tested for.
  pub Names-other :
      (x : Sentinel) (e : Error) → errors_is e x ≡ false → Names (x ∷ names) e → Names names e
  Names-other x e not_x h = record {
    only = λ s is. elim (Bool-cases (ordinal x == ordinal s)) [
      | inr other ↦ rw other at (h.only s is)
      | inl same ↦ absurd (named_and_not (errors_is-same x s e same is) not_x)
    ];
  }
    where
      named_and_not : {b : Bool} → b ≡ true → b ≡ false → ⊥
      named_and_not yes_it no_it = cc
