-- ===== src/Auth/HttpError/Statuses.antt =====
-- The statuses with which `toHTTPError` of internal/auth/handler.go answers the errors of a use case.
use passwordless_auth_servic.Prelude.{
  ℕ, Bool, true, false, ◌||◌, some, List, [], ◌∷◌, map, ◌==◌, ==_refl, ◌≡◌, refl, arith, inl, inr,
  Bool-cases, Option-cases, if◌then◌else◌,
}
use passwordless_auth_servic.Auth.Domain.{Time}
use passwordless_auth_servic.Auth.Failure.{
  Sentinel, ordinal, account_exists, no_account, locked, incorrect_code, expired, send_failed,
  invalid_phone, resend_cooldown, not_found, unsupported_intent, google_failed, no_session,
  invalid_range, Error, sentinel, incorrect_code_error, locked_error, pg, opaque, wrapped, joined,
  errors_is, as_incorrect_code, as_locked,
}
use passwordless_auth_servic.Platform.Uow.Raises.{among, Names}
use passwordless_auth_servic.Auth.HttpError.{
  ApiError, to_http_error, other_error, locked_or, incorrect_or,
}

-- The status of each error.
abbrev pub status_of : Sentinel → ℕ
status_of account_exists = 409
status_of no_account = 404
status_of locked = 423
status_of incorrect_code = 422
status_of expired = 410
status_of send_failed = 502
status_of invalid_phone = 422
status_of resend_cooldown = 429
status_of not_found = 404
status_of unsupported_intent = 501
status_of google_failed = 401
status_of no_session = 401
status_of invalid_range = 422

abbrev pub is_listed : List ℕ → ℕ → Bool
is_listed [] n = false
is_listed (k ∷ ks) n = (k == n) || is_listed ks n

-- The statuses of errors that name only the given ones: theirs, and the generic one.
abbrev pub statuses : List Sentinel → List ℕ
statuses names = 500 ∷ map status_of names

as_incorrect_code-names :
    (e : Error) {n : ℕ} → as_incorrect_code e ≡ some n → errors_is e incorrect_code ≡ true
unfolding as_incorrect_code errors_is
as_incorrect_code-names (sentinel s) e = absurd (cc)
as_incorrect_code-names (incorrect_code_error n) e = refl
as_incorrect_code-names (locked_error t) e = absurd (cc)
as_incorrect_code-names (pg code) e = absurd (cc)
as_incorrect_code-names (opaque text) e = absurd (cc)
as_incorrect_code-names (wrapped op x) e = as_incorrect_code-names x e
as_incorrect_code-names (joined a b) e = elim (Option-cases (as_incorrect_code a)) [
  | inr (n, found) ↦ rw (as_incorrect_code-names a {n = n} found) refl
  | inl missing ↦
      let in_b = as_incorrect_code-names b (rw missing at e) in
      elim (errors_is a incorrect_code) as (λ c. (c || errors_is b incorrect_code) ≡ true) [
        | true ↦ refl
        | false ↦ in_b
      ]
]

as_locked-names : (e : Error) {t : Time} → as_locked e ≡ some t → errors_is e locked ≡ true
unfolding as_locked errors_is
as_locked-names (sentinel s) e = absurd (cc)
as_locked-names (incorrect_code_error n) e = absurd (cc)
as_locked-names (locked_error t) e = refl
as_locked-names (pg code) e = absurd (cc)
as_locked-names (opaque text) e = absurd (cc)
as_locked-names (wrapped op x) e = as_locked-names x e
as_locked-names (joined a b) e = elim (Option-cases (as_locked a)) [
  | inr (t, found) ↦ rw (as_locked-names a {t = t} found) refl
  | inl missing ↦
      let in_b = as_locked-names b (rw missing at e) in
      elim (errors_is a locked) as (λ c. (c || errors_is b locked) ≡ true) [
        | true ↦ refl
        | false ↦ in_b
      ]
]

ordinal-injective : (x s : Sentinel) → (ordinal x == ordinal s) ≡ true → status_of x ≡ status_of s
ordinal-injective x s same = ground arith

among-is_listed :
    (names : List Sentinel) (s : Sentinel)
    → among names s ≡ true
    → is_listed (map status_of names) (status_of s) ≡ true
among-is_listed [] s there = absurd (cc)
among-is_listed (x ∷ names) s there = elim (Bool-cases (ordinal x == ordinal s)) [
  | inl same ↦ rw (ordinal-injective x s same) (rw (==_refl (status_of s)) refl)
  | inr other ↦
      let rest = among-is_listed names s (rw other at there) in
      elim (status_of x == status_of s)
        as (λ c. (c || is_listed (map status_of names) (status_of s)) ≡ true) [
          | true ↦ refl
          | false ↦ rest
        ]
]

module _ {names : List Sentinel} (e : Error) (h : Names names e) where
  listed : (s : Sentinel) → errors_is e s ≡ true → is_listed (statuses names) (status_of s) ≡ true
  listed s named =
      let named_one = among-is_listed names s (h.only s named) in
      elim (500 == status_of s)
        as (λ c. (c || is_listed (map status_of names) (status_of s)) ≡ true) [
          | true ↦ refl
          | false ↦ named_one
        ]

  -- A case of the mapping.
  case_listed :
      (s : Sentinel) (a rest : ApiError)
      → a.status ≡ status_of s
      → is_listed (statuses names) rest.status ≡ true
      → is_listed (statuses names) (if errors_is e s then a else rest).status ≡ true
  case_listed s a rest same below = elim (Bool-cases (errors_is e s)) [
    | inl named ↦ rw (named, same) (listed s named)
    | inr other ↦ rw other below
  ]

  other_error-listed : is_listed (statuses names) (other_error e).status ≡ true
  unfolding other_error
  other_error-listed = case_listed expired _ _ refl (
      case_listed resend_cooldown _ _ refl (
        case_listed send_failed _ _ refl (
          case_listed not_found _ _ refl (
            case_listed unsupported_intent _ _ refl (
              case_listed google_failed _ _ refl
                (case_listed no_session _ _ refl (case_listed invalid_range _ _ refl refl)))))))

  locked_or-listed : is_listed (statuses names) (locked_or e (as_locked e)).status ≡ true
  locked_or-listed = elim (Option-cases (as_locked e)) [
    | inl free ↦ rw free other_error-listed
    | inr (t, held) ↦ rw held (listed locked (as_locked-names e {t = t} held))
  ]

  incorrect_or-listed :
      is_listed (statuses names) (incorrect_or e (as_incorrect_code e)).status ≡ true
  incorrect_or-listed = elim (Option-cases (as_incorrect_code e)) [
    | inl other ↦ rw other (case_listed incorrect_code _ _ refl locked_or-listed)
    | inr (n, wrong) ↦ rw wrong (listed incorrect_code (as_incorrect_code-names e {n = n} wrong))
  ]

  -- The status is that of an error that is named, or the generic one.
  pub to_http_error-listed : is_listed (statuses names) (to_http_error e).status ≡ true
  unfolding to_http_error
  to_http_error-listed =
      case_listed invalid_phone _ _ refl
        (case_listed account_exists _ _ refl (case_listed no_account _ _ refl incorrect_or-listed))
