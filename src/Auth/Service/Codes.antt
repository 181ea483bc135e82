-- ===== src/Auth/Service/Codes.antt =====
-- The six digits that `generateOTP` of internal/auth/service.go writes.
use Prim.Native.Nat.{◌/◌, ◌%◌}
use Prim.Native.Char.{code}
use Prim.Native.String.{[], ◌∷◌, count}
use text.Mathlib.TextLemmas.{length-cons}
use passwordless_auth_servic.Prelude.{ℕ, zero, suc, ◌+◌, ◌-◌, ◌*◌, ◌<◌, String, ◌≡◌, refl, arith}
use passwordless_auth_servic.Auth.Phone.Forms.{AllDigits}
use passwordless_auth_servic.Auth.Service.{format_otp, digit}

-- The number that decimal digits write.
abbrev pub read_decimal : ℕ → String → ℕ
read_decimal acc [] = acc
read_decimal acc (c ∷ s) = read_decimal (acc * 10 + (code c - b'0')) s

code-digit : (n : ℕ) → n < 10 → code (digit n) ≡ 48 + n
code-digit zero h = refl
code-digit (suc zero) h = refl
code-digit (suc (suc zero)) h = refl
code-digit (suc (suc (suc zero))) h = refl
code-digit (suc (suc (suc (suc zero)))) h = refl
code-digit (suc (suc (suc (suc (suc zero))))) h = refl
code-digit (suc (suc (suc (suc (suc (suc zero)))))) h = refl
code-digit (suc (suc (suc (suc (suc (suc (suc zero))))))) h = refl
code-digit (suc (suc (suc (suc (suc (suc (suc (suc zero)))))))) h = refl
code-digit (suc (suc (suc (suc (suc (suc (suc (suc (suc zero))))))))) h = refl
code-digit (suc (suc (suc (suc (suc (suc (suc (suc (suc (suc n)))))))))) h = absurd (omega (arith))

last_digit : (m : ℕ) → m % 10 < 10
last_digit m = omega (arith)

code-last : (m : ℕ) → code (digit (m % 10)) ≡ 48 + m % 10
code-last m = code-digit (m % 10) (last_digit m)

-- The code for each number below a million is six digits, which write the number, so that different
-- numbers have different codes.
pub read_decimal-format_otp :
    (n : ℕ)
    → n < 1_000_000
    → AllDigits (format_otp n) × (count (format_otp n) ≡ 6) × (read_decimal 0 (format_otp n) ≡ n)
unfolding format_otp
read_decimal-format_otp n h =
    let a = code-last (n / 100_000) in
    let b = code-last (n / 10_000) in
    let c = code-last (n / 1_000) in
    let d = code-last (n / 100) in
    let e = code-last (n / 10) in
    let f = code-last n in
    (
      omega (arith),
      rw (length-cons, length-cons, length-cons, length-cons, length-cons, length-cons) refl,
      omega (arith),
    )
