-- ===== src/Postgres/Integrity/Pairs.antt =====
-- Rows of a table, two by two, and rows that a table has.
use passwordless_auth_servic.Prelude.{
  Bool, true, false, Option, none, List, [], ◌∷◌, any, ◌++◌, ◌≡◌, ◌≢◌, refl, ◌⊎◌, inl, inr,
  Bool-cases, arith,
}
use passwordless_auth_servic.Postgres.Integrity.Rows.{Distinct, All, All-mono}

module _ {ℓ} {A : Type ℓ} where
  -- Every row stands in a relation to each later one.
  abbrev pub Pairs {κ} : (A → A → Type κ) → List A → Type κ
  Pairs R [] = Unit
  Pairs R (x ∷ xs) = All (R x) xs × Pairs R xs

  -- Some row satisfies a predicate.
  abbrev pub Has : (A → Type 0) → List A → Type 0
  Has P [] = ⊥
  Has P (x ∷ xs) = P x ⊎ Has P xs

  -- `UNIQUE` on a column that is not null, and on one that may be.
  abbrev pub Unique {κ} : {K : Type κ} → (A → K) → List A → Type κ
  Unique f = Pairs (λ x y. f x ≢ f y)

  abbrev pub UniqueOrNull {κ} : {K : Type κ} → (A → Option K) → List A → Type κ
  UniqueOrNull f = Pairs (λ x y. (f x ≡ none) ⊎ (f x ≢ f y))

  none_of-All : (q : A → Bool) (xs : List A) → any q xs ≡ false → All (λ x. q x ≡ false) xs
  none_of-All q [] h = tt
  none_of-All q (x ∷ xs) h = (ground arith, none_of-All q xs (ground arith))

  All-none_of : (q : A → Bool) (xs : List A) → All (λ x. q x ≡ false) xs → any q xs ≡ false
  All-none_of q [] h = refl
  All-none_of q (x ∷ xs) (hx, h) = ground (arith, All-none_of q xs h)

  module _ {κ} (c : A → A → Bool) (R : A → A → Type κ) where
    pub Distinct-Pairs :
        (xs : List A) → ((x y : A) → c x y ≡ false → R x y) → Distinct c xs → Pairs R xs
    Distinct-Pairs [] apart h = tt
    Distinct-Pairs (x ∷ xs) apart (hx, h) =
        (All-mono _ _ xs (apart x) (none_of-All (c x) xs hx), Distinct-Pairs xs apart h)

    pub Pairs-Distinct :
        (xs : List A) → ((x y : A) → R x y → c x y ≡ false) → Pairs R xs → Distinct c xs
    Pairs-Distinct [] apart h = tt
    Pairs-Distinct (x ∷ xs) apart (hx, h) =
        (All-none_of (c x) xs (All-mono _ _ xs (apart x) hx), Pairs-Distinct xs apart h)

  pub Pairs-both {κ μ} :
      (R : A → A → Type κ) (S : A → A → Type μ) (xs : List A)
      → Pairs R xs
      → Pairs S xs
      → Pairs (λ x y. R x y × S x y) xs
  Pairs-both R S [] h k = tt
  Pairs-both R S (x ∷ xs) (hx, h) (kx, k) = (zipped xs hx kx, Pairs-both R S xs h k)
    where
      zipped : (ys : List A) → All (R x) ys → All (S x) ys → All (λ y. R x y × S x y) ys
      zipped [] h k = tt
      zipped (y ∷ ys) (hy, h) (ky, k) = ((hy, ky), zipped ys h k)

  pub Pairs-mono {κ μ} :
      (R : A → A → Type κ) (S : A → A → Type μ) (xs : List A)
      → ((x y : A) → R x y → S x y)
      → Pairs R xs
      → Pairs S xs
  Pairs-mono R S [] weaker h = tt
  Pairs-mono R S (x ∷ xs) weaker (hx, h) =
      (All-mono _ _ xs (weaker x) hx, Pairs-mono R S xs weaker h)

  pub any-Has :
      (q : A → Bool) (P : A → Type 0) (xs : List A)
      → ((x : A) → q x ≡ true → P x)
      → any q xs ≡ true
      → Has P xs
  any-Has q P [] holds h = absurd (cc)
  any-Has q P (x ∷ xs) holds h = elim (Bool-cases (q x)) [
    | inl here ↦ inl (holds x here)
    | inr other ↦ inr (any-Has q P xs holds (rw other at h))
  ]

  pub Has-any :
      (q : A → Bool) (P : A → Type 0) (xs : List A)
      → ((x : A) → P x → q x ≡ true)
      → Has P xs
      → any q xs ≡ true
  Has-any q P [] holds h = absurd h
  Has-any q P (x ∷ xs) holds (inl here) = rw (holds x here) refl
  Has-any q P (x ∷ xs) holds (inr later) = ground (arith, Has-any q P xs holds later)

module _ {A : Type 0} where
  -- Every row of a table is still one of another.
  abbrev pub Retains : List A → List A → Type 0
  Retains xs ys = All (λ x. Has (λ y. y ≡ x) ys) xs

  Has-snoc : (P : A → Type 0) (xs : List A) (y : A) → Has P xs → Has P (xs ++ y ∷ [])
  Has-snoc P [] y h = absurd h
  Has-snoc P (x ∷ xs) y (inl here) = inl here
  Has-snoc P (x ∷ xs) y (inr later) = inr (Has-snoc P xs y later)

  pub Retains-snoc : (xs ys : List A) (y : A) → Retains xs ys → Retains xs (ys ++ y ∷ [])
  Retains-snoc xs ys y h = All-mono _ _ xs (λ x. Has-snoc (λ z. z ≡ x) ys y) h

  pub Retains-refl : (xs : List A) → Retains xs xs
  Retains-refl [] = tt
  Retains-refl (x ∷ xs) = (inl refl, All-mono _ _ xs (λ y h. inr h) (Retains-refl xs))
