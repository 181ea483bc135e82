-- ===== src/Postgres/Integrity/Rows.antt =====
-- Rows of a table, no two of which clash.
use passwordless_auth_servic.Prelude.{
  ◌∙◌, Bool, true, false, List, [], ◌∷◌, ◌++◌, any, update, ◌≡◌, refl, arith, if◌then◌else◌,
}

module _ {ℓ} {A : Type ℓ} where
  abbrev pub All {κ} : (A → Type κ) → List A → Type κ
  All P [] = Unit
  All P (x ∷ xs) = P x × All P xs

  -- No row clashes with a later one.
  abbrev pub Distinct : (A → A → Bool) → List A → Type 0
  Distinct c [] = Unit
  Distinct c (x ∷ xs) = (any (c x) xs ≡ false) × Distinct c xs

  pub All-snoc {κ} : (P : A → Type κ) (xs : List A) (y : A) → All P xs → P y → All P (xs ++ y ∷ [])
  All-snoc P [] y h hy = (hy, tt)
  All-snoc P (x ∷ xs) y (hx, h) hy = (hx, All-snoc P xs y h hy)

  pub All-mono {κ μ} :
      (P : A → Type κ) (Q : A → Type μ) (xs : List A) → ((x : A) → P x → Q x) → All P xs → All Q xs
  All-mono P Q [] f h = tt
  All-mono P Q (x ∷ xs) f (hx, h) = (f x hx, All-mono P Q xs f h)

  -- The test and the change of an update, where the change keeps the predicate.
  pub All-update {κ} :
      (P : A → Type κ) (p : A → Bool) (f : A → A) (xs : List A)
      → ((x : A) → P x → P (f x))
      → All P xs
      → All P (update p f xs)
  All-update P p f [] keep h = tt
  All-update P p f (x ∷ xs) keep (hx, h) = (
    elim (p x) as (λ b. P (if b then f x else x)) [ true ↦ keep x hx | false ↦ hx ],
    All-update P p f xs keep h,
  )

  any-snoc :
      (q : A → Bool) (xs : List A) (y : A)
      → any q xs ≡ false
      → q y ≡ false
      → any q (xs ++ y ∷ []) ≡ false
  any-snoc q [] y h hy = ground arith
  any-snoc q (x ∷ xs) y h hy = ground (arith, any-snoc q xs y)

  pub any-kept :
      (q : A → Bool) (xs : List A) (y : A) → any q xs ≡ true → any q (xs ++ y ∷ []) ≡ true
  any-kept q [] y h = absurd (cc)
  any-kept q (x ∷ xs) y h = ground (arith, any-kept q xs y)

  module _ (c : A → A → Bool) where
    pub Distinct-snoc :
        (xs : List A) (y : A)
        → ((x : A) → c x y ≡ c y x)
        → any (c y) xs ≡ false
        → Distinct c xs
        → Distinct c (xs ++ y ∷ [])
    Distinct-snoc [] y symmetric fresh h = (refl, tt)
    Distinct-snoc (x ∷ xs) y symmetric fresh (hx, h) =
        let s = symmetric x in
        (any-snoc (c x) xs y hx (ground arith), Distinct-snoc xs y symmetric (ground arith) h)

    -- A change that the clash does not see.
    any-update :
        (p : A → Bool) (f : A → A) (z : A) (xs : List A)
        → ((x : A) → c z (f x) ≡ c z x)
        → any (c z) (update p f xs) ≡ any (c z) xs
    any-update p f z [] same = refl
    any-update p f z (x ∷ xs) same = let s = same x in ground (arith, any-update p f z xs same)

    any-left : (z z' : A) (xs : List A) → ((x : A) → c z x ≡ c z' x) → any (c z) xs ≡ any (c z') xs
    any-left z z' [] same = refl
    any-left z z' (x ∷ xs) same = let s = same x in ground (arith, any-left z z' xs same)

    pub Distinct-update :
        (p : A → Bool) (f : A → A) (xs : List A)
        → ((z x : A) → c z (f x) ≡ c z x)
        → ((z x : A) → c (f z) x ≡ c z x)
        → Distinct c xs
        → Distinct c (update p f xs)
    Distinct-update p f [] right left h = tt
    Distinct-update p f (x ∷ xs) right left (hx, h) =
        let from_f = any-left (f x) x xs (left x) in
        let changed = elim (p x) as (λ b. any (c (if b then f x else x)) xs ≡ any (c x) xs) [
          | true ↦ from_f
          | false ↦ refl
        ] in
        let z = if p x then f x else x in
        (any-update p f z xs (right z) ∙ changed ∙ hx, Distinct-update p f xs right left h)
