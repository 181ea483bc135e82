-- ===== src/Tests/Rules.antt =====
-- The theorems on the domain rules, the phone numbers, the queries and the transport, at concrete
-- inputs.
use Prim.Native.String.{◌++◌}
use passwordless_auth_servic.Prelude.{
  ℕ, suc, ◌+◌, ◌<◌, ◌≤◌, String, true, false, none, some, List, [], ◌∷◌, length, lookup_or, ◌≡◌,
  ◌↔◌, refl, ◌⊎◌,
}
use passwordless_auth_servic.Auth.Domain.{
  Time, minute, locked, lockout_duration, max_failed_attempts,
}
use passwordless_auth_servic.Auth.Failure.{ok}
use passwordless_auth_servic.Auth.Verification.{register_failure, remaining_attempts}
use passwordless_auth_servic.Auth.Verification.Lockout.{after_failures, register_failure_locks}
use passwordless_auth_servic.Auth.Phone.{
  normalize_phone, is_space, trim_space, remove_all, cut_prefix, strip_prefix, every_digit,
  is_all_digits,
}
use passwordless_auth_servic.Auth.Phone.Forms.{Writes}
use passwordless_auth_servic.Auth.Phone.Canonical.{IsNational, compact, normalize_phone_iff}
use passwordless_auth_servic.Platform.Access.{
  Context, Response, handled, bearer_token, session_middleware, admin_middleware,
}
use passwordless_auth_servic.Platform.Access.Guard.{Guarded, admin_middleware_passes}
use passwordless_auth_servic.Auth.Service.Sessions.{validate_session}
use passwordless_auth_servic.Auth.Service.Sessions.Gate.{Rejects, Passes, session_middleware_cases}
use passwordless_auth_servic.Platform.World.{World}
use passwordless_auth_servic.Postgres.Like.{escape_like, like, contains_pattern}
use passwordless_auth_servic.Postgres.Like.Literal.{like-contains}
use passwordless_auth_servic.Postgres.Verifications.{find_latest, locked_phone_rows, locked_map}
use passwordless_auth_servic.Postgres.Lockouts.{locked_at, locked_map-find_latest}
use passwordless_auth_servic.Tests.{calm, noon, open_challenge, shop}

locked_map-find_latest_example :
    lookup_or false "+201012345678"
      (locked_map noon (locked_phone_rows ("+201012345678" ∷ []) shop.db))
    ≡ locked_at noon (find_latest "+201012345678" shop.db)
locked_map-find_latest_example =
    locked_map-find_latest noon "+201012345678" ("+201012345678" ∷ []) shop.db refl

like-contains_example :
    (like (contains_pattern (escape_like "1_0%")) "a1_0%b" ≡ true)
    ↔ ((before after : String) × ("a1_0%b" ≡ before ++ ("1_0%" ++ after)))
like-contains_example = like-contains "1_0%" "a1_0%b"

normalize_phone_iff_example : (normalize_phone " 0101-234 5678" ≡ ok "+201012345678") ↔ (
    (d : String) × IsNational d
    × ("+201012345678" ≡ "+20" ++ d)
    × Writes d (compact " 0101-234 5678"))
normalize_phone_iff_example = normalize_phone_iff " 0101-234 5678" "+201012345678"

normalizes : normalize_phone " 0101-234 5678" ≡ ok "+201012345678"
unfolding normalize_phone is_space trim_space remove_all cut_prefix strip_prefix every_digit
    is_all_digits
normalizes = refl

abbrev guesses : List Time
guesses = noon ∷ noon ∷ noon ∷ noon ∷ []

abbrev fifth : ℕ
fifth = noon + minute

register_failure_locks_example :
    let (v', locks) = register_failure (after_failures open_challenge guesses) fifth in
    ((4 ≤ length guesses)
      × (locks ≡ true)
      × (v'.locked_until ≡ some (fifth + lockout_duration))
      × (v'.status ≡ locked)
      × (remaining_attempts v' ≡ 0))
    ⊎ ((length guesses < 4)
        × (locks ≡ false)
        × (remaining_attempts v' + suc (length guesses) ≡ max_failed_attempts))
register_failure_locks_example = register_failure_locks open_challenge guesses fifth refl

abbrev answer : Context → World → Response String × World
answer ctx w = (handled "done", w)

abbrev nobody : Context
nobody = record { principal = none; admin_principal = none }

admin_middleware_passes_example :
    Guarded "key" "root" answer nobody shop "Bearer key"
      (admin_middleware "key" "root" answer "Bearer key" nobody shop)
admin_middleware_passes_example =
    admin_middleware_passes "key" "root" answer "Bearer key" nobody shop

abbrev passed : Response String × World
passed = session_middleware (validate_session calm) answer "Bearer old" nobody shop

session_middleware_cases_example :
    Rejects passed ⊎ Passes calm answer (bearer_token "Bearer old") nobody shop passed
session_middleware_cases_example = session_middleware_cases calm answer "Bearer old" nobody shop
