-- ===== src/Auth/Phone/Forms.antt =====
-- What `cut_prefix`, `every_digit` and `strip_prefix` of the parent do, as equations on texts.
use Prim.Native.Nat.{compare}
use Prim.Native.Char.{Char, code, len_utf8, len_utf8_def, width}
use Prim.Native.String.len as Len
use text.Mathlib.TextLemmas.{length-cons, nil-append, cons-append}
use mathlib.Core.Option.{some-injective}
use Prim.Native.String.{[], ◌∷◌, len, count, ◌++◌}
use text.Mathlib.TextEquality.{Char-path}
use passwordless_auth_servic.Prelude.{
  sym, ◌+◌, ◌≤◌, String, true, none, some, ◌≡◌, ◌≢◌, refl, ◌↔◌, ◌⊎◌, inl, inr, arith, Option-cases,
  Bool-cases, ◌==◌, ==_iff,
}
use passwordless_auth_servic.Auth.Phone.{cut_prefix, every_digit, strip_prefix}

-- Every character is an ASCII digit.
abbrev pub AllDigits : String → Type 0
AllDigits [] = Unit
AllDigits (c ∷ s) = (b'0' ≤ code c) × (code c ≤ b'9') × AllDigits s

pub every_digit_iff : (s : String) → (every_digit s ≡ true) ↔ AllDigits s
unfolding every_digit
every_digit_iff [] = (λ _. tt, λ _. refl)
every_digit_iff (c ∷ s) = ground (arith, every_digit_iff s)

digit-len : (c : Char) → code c ≤ b'9' → len_utf8 c ≡ 1
digit-len c h =
    let e : len_utf8 c
        ≡ width (compare (code c) 128) (compare (code c) 2048) (compare (code c) 65536) =
      λ i. len_utf8_def c i in
    ground arith

len-cons : (c : Char) (s : String) → len (c ∷ s) ≡ len_utf8 c + len s
len-cons c s = λ i. Len.cons c s i

-- A text of digits has as many bytes as characters.
pub len-AllDigits : (s : String) → AllDigits s → len s ≡ count s
len-AllDigits [] h = refl
len-AllDigits (c ∷ s) (low, high, h) =
    omega (arith, digit-len c high, len-cons c s, length-cons c s, len-AllDigits s h)

pub cut_prefix-append : (p s : String) → cut_prefix p (p ++ s) ≡ some s
unfolding cut_prefix
cut_prefix-append [] s = rw nil-append
cut_prefix-append (c ∷ p) s = rw cons-append (ground (arith, cut_prefix-append p s))

pub cut_prefix_sound : (p s : String) {r : String} → cut_prefix p s ≡ some r → s ≡ p ++ r
unfolding cut_prefix
cut_prefix_sound [] s e = rw nil-append (some-injective _ _ e)
cut_prefix_sound (c ∷ p) [] e = cc
cut_prefix_sound (c ∷ p) (d ∷ s) {r} e = elim (Bool-cases (code c == code d)) [
  | inl same ↦
      rw cons-append
        (cc (Char-path c d ((==_iff _ _).0 same), cut_prefix_sound p s {r = r} (ground arith)))
  | inr differ ↦ absurd (ground arith)
]

-- The text does not begin with "0".
abbrev pub NoTrunk : String → Type 0
NoTrunk [] = Unit
NoTrunk (c ∷ _) = code c ≢ b'0'

-- The ways to write the digits `d`: behind "+20", behind a trunk "0", or bare.
abbrev pub Writes : String → String → Type 0
Writes d s = (s ≡ "+20" ++ d) ⊎ (s ≡ "0" ++ d) ⊎ ((s ≡ d) × NoTrunk d)

no_trunk : (s : String) → cut_prefix "0" s ≡ none → NoTrunk s
unfolding cut_prefix
no_trunk [] e = tt
no_trunk (c ∷ s) e = ground arith

strip_country : (s : String) {r : String} → cut_prefix "+20" s ≡ some r → strip_prefix s ≡ r
unfolding strip_prefix
strip_country s e = ground arith

strip_trunk :
    (s : String) {r : String}
    → cut_prefix "+20" s ≡ none
    → cut_prefix "0" s ≡ some r
    → strip_prefix s ≡ r
unfolding strip_prefix
strip_trunk s e e0 = ground arith

strip_none : (s : String) → cut_prefix "+20" s ≡ none → cut_prefix "0" s ≡ none → strip_prefix s ≡ s
unfolding strip_prefix
strip_none s e e0 = ground arith

pub strip_prefix-Writes : (s : String) → Writes (strip_prefix s) s
strip_prefix-Writes s = elim (Option-cases (cut_prefix "+20" s)) [
  | inr (r, e) ↦ rw (strip_country s e) (inl (cut_prefix_sound "+20" s e))
  | inl e ↦ elim (Option-cases (cut_prefix "0" s)) [
    | inr (r, e0) ↦ rw (strip_trunk s e e0) (inr (inl (cut_prefix_sound "0" s e0)))
    | inl e0 ↦ let same = strip_none s e e0 in inr (inr (sym same, rw same (no_trunk s e0)))
  ]
]

bare : (d : String) → AllDigits d → NoTrunk d → strip_prefix d ≡ d
unfolding strip_prefix
bare [] h n = refl
bare (c ∷ d) h n = ground arith

trunk : (d : String) → strip_prefix ("0" ++ d) ≡ d
unfolding strip_prefix
trunk d = rw (cons-append, nil-append)

pub strip_prefix_of_Writes : (d s : String) → AllDigits d → Writes d s → strip_prefix s ≡ d
strip_prefix_of_Writes d s h (inl e) = rw e (strip_country _ (cut_prefix-append "+20" d))
strip_prefix_of_Writes d s h (inr (inl e)) = rw e (trunk d)
strip_prefix_of_Writes d s h (inr (inr (e, n))) = rw e (bare d h n)
