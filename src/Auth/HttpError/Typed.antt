-- ===== src/Auth/HttpError/Typed.antt =====
-- The `code` enum that `apiError` of internal/auth/handler.go declares to its clients.
use passwordless_auth_servic.Prelude.{
  ℕ, String, Bool, true, false, Option, none, some, List, [], ◌∷◌, str_eq, any, ◌≡◌, refl, not,
  if◌then◌else◌, ◌⊎◌, inl, inr,
}
use passwordless_auth_servic.Auth.Domain.{Time, is_nil}
use passwordless_auth_servic.Auth.Failure.{
  Error, errors_is, as_incorrect_code, as_locked, invalid_phone, account_exists, no_account,
  incorrect_code, expired, resend_cooldown, send_failed, not_found, unsupported_intent,
  google_failed, no_session, invalid_range,
}
use passwordless_auth_servic.Auth.HttpError.{
  ApiError, to_http_error, other_error, locked_or, incorrect_or,
}

-- The `enum` tag of the field `Code`.
abbrev pub documented_codes : List String
documented_codes =
    "invalid_phone" ∷ "account_exists" ∷ "no_account" ∷ "incorrect_code" ∷ "locked" ∷ "expired"
    ∷ "cooldown_active" ∷ "send_failed" ∷ "not_found" ∷ "not_implemented" ∷ "bad_request"
    ∷ "unprocessable_entity" ∷ "unauthorized" ∷ "forbidden" ∷ "google_failed" ∷ "internal_error"
    ∷ "invalid_range" ∷ []

-- The code is a documented one; a time of unlock is given exactly with the code `locked`, and remaining
-- attempts only with `incorrect_code`.
abbrev pub Typed : ApiError → Type 0
Typed e =
    (any (str_eq e.code) documented_codes ≡ true)
    × (is_nil e.locked_until ≡ not (str_eq e.code "locked"))
    × ((is_nil e.attempts_remaining ≡ true) ⊎ (e.code ≡ "incorrect_code"))

if-Typed : (b : Bool) (x y : ApiError) → Typed x → Typed y → Typed (if b then x else y)
if-Typed true x y hx hy = hx
if-Typed false x y hx hy = hy

other_error-Typed : (e : Error) → Typed (other_error e)
unfolding other_error
other_error-Typed e =
    if-Typed (errors_is e expired) _ _ (refl, refl, inl refl)
      (if-Typed (errors_is e resend_cooldown) _ _ (refl, refl, inl refl)
        (if-Typed (errors_is e send_failed) _ _ (refl, refl, inl refl)
          (if-Typed (errors_is e not_found) _ _ (refl, refl, inl refl)
            (if-Typed (errors_is e unsupported_intent) _ _ (refl, refl, inl refl)
              (if-Typed (errors_is e google_failed) _ _ (refl, refl, inl refl)
                (if-Typed (errors_is e no_session) _ _ (refl, refl, inl refl)
                  (if-Typed (errors_is e invalid_range) _ _ (refl, refl, inl refl)
                    (refl, refl, inl refl))))))))

incorrect_or-Typed : (e : Error) (o : Option ℕ) → Typed (incorrect_or e o)
incorrect_or-Typed e (some n) = (refl, refl, inr refl)
incorrect_or-Typed e none =
    if-Typed (errors_is e incorrect_code) _ _ (refl, refl, inl refl) (locked_or-Typed (as_locked e))
  where
    locked_or-Typed : (o : Option Time) → Typed (locked_or e o)
    locked_or-Typed (some t) = (refl, refl, inl refl)
    locked_or-Typed none = other_error-Typed e

-- Whatever a use case fails with, the response carries one of the codes that the API documents, a time
-- of unlock exactly with the code `locked`, and remaining attempts only with `incorrect_code`.
pub to_http_error-Typed : (e : Error) → Typed (to_http_error e)
unfolding to_http_error
to_http_error-Typed e =
    if-Typed (errors_is e invalid_phone) _ _ (refl, refl, inl refl)
      (if-Typed (errors_is e account_exists) _ _ (refl, refl, inl refl)
        (if-Typed (errors_is e no_account) _ _ (refl, refl, inl refl)
          (incorrect_or-Typed e (as_incorrect_code e))))
