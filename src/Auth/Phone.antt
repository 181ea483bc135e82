-- ===== src/Auth/Phone.antt =====
-- `NormalizePhone` of internal/auth/domain.go, over texts of code points (a request body decoded
-- from JSON is valid UTF-8). `len` counts bytes, as in Go.
pub mod Forms
pub mod Canonical
use Prim.Native.Char.{Char, code}
use Prim.Native.String.{[], ◌∷◌, len}
use Prim.Native.String
use passwordless_auth_servic.Prelude.{
  ℕ, ◌-◌, String, Bool, true, false, not, ◌&&◌, ◌||◌, Option, none, some, ltb, leb, ◌==◌,
  if◌then◌else◌,
}
use passwordless_auth_servic.Auth.Failure.{Result, ok, err, sentinel, invalid_phone}

-- `unicode.IsSpace`
unfoldable pub is_space : ℕ → Bool
is_space c =
    (leb 9 c && leb c 13)
    || (c == 32)
    || (c == 0x85)
    || (c == 0xa0)
    || (c == 0x1680)
    || (leb 0x2000 c && leb c 0x200a)
    || (c == 0x2028)
    || (c == 0x2029)
    || (c == 0x202f)
    || (c == 0x205f)
    || (c == 0x3000)

trim_left : String → String
trim_left [] = []
trim_left (c ∷ s) = let rest = trim_left s in if is_space (code c) then rest else c ∷ s

abbrev is_empty : String → Bool
is_empty [] = true
is_empty (_ ∷ _) = false

trim_right : String → String
trim_right [] = []
trim_right (c ∷ s) =
    let rest = trim_right s in if is_space (code c) && is_empty rest then [] else c ∷ rest

-- `strings.TrimSpace`
unfoldable pub trim_space : String → String
unfolding trim_left trim_right is_space
trim_space s = trim_right (trim_left s)

-- `strings.ReplaceAll(s, old, "")` at a one-byte `old`
unfoldable pub remove_all : ℕ → String → String
remove_all old [] = []
remove_all old (c ∷ s) = let rest = remove_all old s in if code c == old then rest else c ∷ rest

-- `strings.HasPrefix`, and the slice behind the prefix
unfoldable pub cut_prefix : String → String → Option String
cut_prefix [] s = some s
cut_prefix (p ∷ ps) [] = none
cut_prefix (p ∷ ps) (c ∷ s) = let rest = cut_prefix ps s in if code p == code c then rest else none

-- `len(s) > 0` is tested last, as in the source.
unfoldable pub every_digit : String → Bool
every_digit [] = true
every_digit (c ∷ s) =
    let rest = every_digit s in if ltb (code c) b'0' || ltb b'9' (code c) then false else rest

unfoldable pub is_all_digits : String → Bool
unfolding every_digit
is_all_digits s = every_digit s && ltb 0 (len s)

-- The `switch`: a leading "+20", or else a leading "0", is cut off.
unfoldable pub strip_prefix : String → String
unfolding cut_prefix
strip_prefix s = elim (cut_prefix "+20" s) [
  | some rest ↦ rest
  | none ↦ elim (cut_prefix "0" s) [ some rest ↦ rest | none ↦ s ]
]

unfoldable pub normalize_phone : String → Result String
unfolding trim_space remove_all strip_prefix is_all_digits
normalize_phone raw =
    let s = strip_prefix (remove_all b'-' (remove_all b' ' (trim_space raw))) in
    if not (len s == 10) || not (is_all_digits s)
    then err (sentinel invalid_phone)
    else ok (String.◌++◌ "+20" s)
