-- ===== src/Auth/Phone/Canonical.antt =====
-- What `normalize_phone` accepts and returns.
use Prim.Native.Char.{code}
use Prim.Native.String.{[], ◌∷◌, count, len, ◌++◌}
use text.Mathlib.TextLemmas.{nil-append, cons-append}
use passwordless_auth_servic.Prelude.{
  ℕ, ◌≤◌, ◌<◌, ◌⊎◌, String, ◌≡◌, refl, ◌↔◌, inl, inr, arith, Bool-cases, true, false, not, ◌||◌,
  ◌==◌, ◌≢◌, if◌then◌else◌, Bool,
}
use passwordless_auth_servic.Auth.Failure.{ok, err, sentinel, invalid_phone}
use passwordless_auth_servic.Auth.Phone.{
  trim_left, trim_right, is_space, trim_space, remove_all, strip_prefix, is_all_digits,
  normalize_phone, every_digit,
}
use passwordless_auth_servic.Auth.Phone.Forms.{
  AllDigits, Writes, every_digit_iff, len-AllDigits, strip_prefix-Writes, strip_prefix_of_Writes,
}

-- The ten significant digits of a number.
abbrev pub IsNational : String → Type 0
IsNational d = (count d ≡ 10) × AllDigits d

-- The raw text without the outer white space, the spaces and the dashes.
abbrev pub compact : String → String
compact raw = remove_all b'-' (remove_all b' ' (trim_space raw))

accepts : String → Bool
accepts s = not (not (len s == 10) || not (is_all_digits s))

accepts_iff : (s : String) → (accepts s ≡ true) ↔ IsNational s
unfolding accepts is_all_digits
accepts_iff s = elim (Bool-cases (every_digit s)) [
  | inl e ↦ ground (arith, every_digit_iff s, len-AllDigits s ((every_digit_iff s).0 e))
  | inr e ↦ ground (arith, every_digit_iff s)
]

normalize_by_accepts :
    (raw : String)
    → normalize_phone raw ≡ (
        if accepts (strip_prefix (compact raw))
        then ok ("+20" ++ strip_prefix (compact raw))
        else err (sentinel invalid_phone))
unfolding normalize_phone accepts
normalize_by_accepts raw = ground arith

refused : {s d : String} → s ≡ d → IsNational d → accepts s ≡ false → ⊥
refused {s} same n e = let yes_accepted = (accepts_iff s).1 (rw same n) in cc

-- `normalize_phone` accepts exactly the texts that, once compacted, write ten digits in one of the
-- three forms (behind "+20", behind a trunk "0", or bare and not beginning with "0"), and returns
-- "+20" and those digits.
pub normalize_phone_iff :
    (raw p : String)
    → (normalize_phone raw ≡ ok p)
      ↔ ((d : String) × IsNational d × (p ≡ "+20" ++ d) × Writes d (compact raw))
normalize_phone_iff raw p =
    rw (normalize_by_accepts raw) (elim (Bool-cases (accepts (strip_prefix (compact raw)))) [
      | inl e ↦ rw e (
        λ h. (strip_prefix (compact raw), (accepts_iff _).0 e, cc, strip_prefix-Writes _),
        λ (d, n, q, w). cc (strip_prefix_of_Writes d (compact raw) n.1 w),
      )
      | inr e ↦ rw e (
        λ h. absurd (cc),
        λ (d, n, q, w). absurd (refused (strip_prefix_of_Writes d (compact raw) n.1 w) n e),
      )
    ])

-- Each character is a plus sign or a digit.
abbrev IsPlain : String → Type 0
IsPlain [] = Unit
IsPlain (c ∷ s) = ((code c ≡ b'+') ⊎ ((b'0' ≤ code c) × (code c ≤ b'9'))) × IsPlain s

IsPlain-AllDigits : (s : String) → AllDigits s → IsPlain s
IsPlain-AllDigits [] h = tt
IsPlain-AllDigits (c ∷ s) h = ground (arith, IsPlain-AllDigits s h.2)

trim_left-IsPlain : (s : String) → IsPlain s → trim_left s ≡ s
unfolding trim_left is_space
trim_left-IsPlain [] h = refl
trim_left-IsPlain (c ∷ s) h = ground arith

trim_right-IsPlain : (s : String) → IsPlain s → trim_right s ≡ s
unfolding trim_right is_space
trim_right-IsPlain [] h = refl
trim_right-IsPlain (c ∷ s) h = ground (arith, trim_right-IsPlain s h.1)

remove_all-IsPlain : (k : ℕ) (s : String) → k < b'0' → k ≢ b'+' → IsPlain s → remove_all k s ≡ s
unfolding remove_all
remove_all-IsPlain k [] low ne h = refl
remove_all-IsPlain k (c ∷ s) low ne h = ground (arith, remove_all-IsPlain k s low ne h.1)

compact-IsPlain : (s : String) → IsPlain s → compact s ≡ s
unfolding trim_space
compact-IsPlain s h =
    rw
      (
        trim_left-IsPlain s h,
        trim_right-IsPlain s h,
        remove_all-IsPlain b' ' s (omega arith) (omega arith) h,
      )
      (remove_all-IsPlain b'-' s (omega arith) (omega arith) h)

compact_country : (d : String) → AllDigits d → compact ("+20" ++ d) ≡ "+20" ++ d
compact_country d h = compact-IsPlain _ (
    rw (cons-append, cons-append, cons-append, nil-append)
      (inl refl, (inr (omega arith), (inr (omega arith), IsPlain-AllDigits d h))))

-- A normalised number is left as it is.
normalize_phone_idempotent :
    (raw p : String) → normalize_phone raw ≡ ok p → normalize_phone p ≡ ok p
normalize_phone_idempotent raw p e =
    let (d, n, q, w) = (normalize_phone_iff raw p).0 e in
    (normalize_phone_iff p p).1 (d, n, q, rw q (inl (compact_country d n.1)))
