-- ===== src/Auth/Handler/Operations/SessionPage.antt =====
-- The statuses of the operation get-session of internal/auth/handler.go, behind the session middleware.
use passwordless_auth_servic.Prelude.{
  ℕ, String, true, some, List, [], ◌∷◌, find, ◌==◌, ==_iff, ◌≡◌, refl, sym, ap, ◌∙◌, inl, inr, ◌⊎◌,
  Bool-cases,
}
use mathlib.Core.Option.{some-injective}
use mathlib.Core.Path.{subst}
use passwordless_auth_servic.Auth.Domain.{Uuid, Account}
use passwordless_auth_servic.Auth.Failure.{errors_is, as_incorrect_code, as_locked}
use passwordless_auth_servic.Auth.HttpError.{to_http_error, other_error}
use passwordless_auth_servic.Auth.HttpError.Statuses.{is_listed}
use passwordless_auth_servic.Platform.World.{Outcome, answered, failed, lost, Env, World}
use passwordless_auth_servic.Platform.Access.{context_with_principal}
use passwordless_auth_servic.Postgres.Accounts
use passwordless_auth_servic.Auth.Service.{keep_not_found}
use passwordless_auth_servic.Auth.Service.Sessions.{account_of}
use passwordless_auth_servic.Auth.Service.Sessions.Gate.{session_middleware_cases}
use passwordless_auth_servic.Auth.Handler.{answered_by, behind_session, get_session, get_session_of}
use passwordless_auth_servic.Auth.Handler.Entry.{kept_accounts}
use passwordless_auth_servic.Auth.Handler.Routes.{background}
use passwordless_auth_servic.Auth.Handler.Operations.{reply_status, response_status}

Outcome-cases : (o : Outcome) → (o ≡ answered) ⊎ (o ≡ failed) ⊎ (o ≡ lost)
Outcome-cases answered = inl refl
Outcome-cases failed = inr (inl refl)
Outcome-cases lost = inr (inr refl)

find-holds :
    (k : ℕ) (rows : List Account) {a : Account}
    → find (λ (b : Account). b.id == k) rows ≡ some a
    → (a.id == k) ≡ true
find-holds k [] there = absurd (cc)
find-holds k (x ∷ rows) there = elim (Bool-cases (x.id == k)) [
  | inl here ↦
      subst (λ (y : Account). (y.id == k) ≡ true) (some-injective _ _ (rw here at there)) here
  | inr other ↦ find-holds k rows (rw other at there)
]

-- The found account carries the id that was looked for.
find_id :
    (k : ℕ) (rows : List Account) {a : Account}
    → find (λ (b : Account). b.id == k) rows ≡ some a
    → find (λ (b : Account). b.id == a.id) rows ≡ some a
find_id k rows {a} there =
    subst (λ m. find (λ (b : Account). b.id == m) rows ≡ some a)
      (sym ((==_iff a.id k).0 (find-holds k rows there))) there

module _ (env : Env) where
  stored_account-status :
      (id : Uuid) (w : World) {a : Account}
      → find (λ (b : Account). b.id == id) w.db.accounts ≡ some a
      → is_listed (200 ∷ 401 ∷ 500 ∷ []) (reply_status (get_session_of env (some id) w).0) ≡ true
  unfolding account_of keep_not_found Accounts.find_by_id errors_is as_incorrect_code as_locked
      to_http_error other_error
  stored_account-status id w there = elim (Outcome-cases (env.driver w.calls)) [
    | inl answers ↦ rw (answers, there) refl
    | inr (inl fails) ↦ rw fails refl
    | inr (inr loses) ↦ rw loses refl
  ]

  pub get_session-status :
      (header : String) (w : World)
      → ((id : Uuid) → env.parse_uuid (env.uuid_string id) ≡ some id)
      → is_listed
          (200 ∷ 401 ∷ 500 ∷ [])
          (response_status (behind_session env (get_session env) header background w).0)
        ≡ true
  unfolding get_session context_with_principal
  get_session-status header w parses =
      elim (session_middleware_cases env (λ c. answered_by (get_session env c)) header background
        w) [
          | inl (_, rejected) ↦ rw rejected refl
          | inr (sess, a, u, row, there, valid, kept, passed) ↦
              let still =
                ap (find (λ (b : Account). b.id == a.id)) (kept_accounts sess _ w.db u.db kept)
                ∙ find_id sess.account_id w.db.accounts there in
              rw (passed, parses a.id) (stored_account-status a.id u still)
        ]
