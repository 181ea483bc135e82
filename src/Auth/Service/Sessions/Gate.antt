-- ===== src/Auth/Service/Sessions/Gate.antt =====
-- The session middleware over the validation of sessions, as the server wires them.
use passwordless_auth_servic.Prelude.{
  suc, String, true, some, find, str_eq, ◌==◌, ◌≡◌, refl, ap, ◌⊎◌, inl, inr, Bool-cases,
}
use passwordless_auth_servic.Auth.Domain.{Account, Session}
use passwordless_auth_servic.Auth.Failure.{ok}
use passwordless_auth_servic.Auth.Session.{is_valid}
use passwordless_auth_servic.Platform.Access.{
  Principal, Context, Response, rejection, bearer_token, context_with_principal, session_middleware,
}
use passwordless_auth_servic.Platform.World.{Env, World}
use passwordless_auth_servic.Platform.World.Runs.{Result-cases}
use passwordless_auth_servic.Postgres.Sessions.{has_token_hash}
use passwordless_auth_servic.Auth.Service.{hash_token}
use passwordless_auth_servic.Auth.Service.Sessions.{validate_session}
use passwordless_auth_servic.Auth.Service.Sessions.Outcomes.{
  KeptOrExtended, principal_of, validate_session_cases,
}

-- A rejection, before the handler runs.
abbrev pub Rejects {ℓ} : {A : Type ℓ} → Response A × World → Type ℓ
Rejects {A} p = (message : String) × (p.0 ≡ rejection 401 message)

-- The handler ran for the account of a stored, valid session of the token.
abbrev pub Passes {ℓ} :
    {A : Type ℓ}
    → Env
    → (Context → World → Response A × World)
    → String
    → Context
    → World
    → Response A × World
    → Type ℓ
Passes {A} env next token ctx w p =
    (sess : Session) × (a : Account) × (u : World) × (find (has_token_hash (hash_token env token))
        w.db.sessions
      ≡ some sess)
    × (find (λ (b : Account). b.id == sess.account_id) w.db.accounts ≡ some a)
    × (is_valid sess (env.now (suc w.calls)) ≡ true)
    × KeptOrExtended sess (env.now (suc w.calls)) w.db u.db
    × (p ≡ next (context_with_principal ctx (principal_of env a)) u)

principal_cases :
    (env : Env) (token : String) (w : World) {p : Principal}
    → (validate_session env token w).0 ≡ ok p
    → (sess : Session) × (a : Account) × (find (has_token_hash (hash_token env token)) w.db.sessions
        ≡ some sess)
      × (find (λ (b : Account). b.id == sess.account_id) w.db.accounts ≡ some a)
      × (is_valid sess (env.now (suc w.calls)) ≡ true)
      × KeptOrExtended sess (env.now (suc w.calls)) w.db (validate_session env token w).1.db
      × (p ≡ principal_of env a)
principal_cases env token w good = elim (validate_session_cases env token w) [
  | inl (bad, _) ↦ absurd (cc)
  | inr (sess, row, (a, there, valid, kept, inl same)) ↦ (sess, a, row, there, valid, kept, cc)
  | inr (sess, row, (a, there, valid, kept, inr bad)) ↦ absurd (cc)
]

-- Behind the session middleware, a request is rejected with a 401, or its bearer token is that of a
-- stored session, valid now, with a stored account, and the next handler runs with the principal of
-- that account, at most the session's times having moved on.
pub session_middleware_cases {ℓ} :
    {A : Type ℓ} (env : Env) (next : Context → World → Response A × World) (header : String)
    (ctx : Context) (w : World)
    → let p = session_middleware (validate_session env) next header ctx w in
      Rejects p ⊎ Passes env next (bearer_token header) ctx w p
unfolding session_middleware
session_middleware_cases env next header ctx w =
    elim (Bool-cases (str_eq (bearer_token header) "")) [
      | inl empty ↦ rw empty (inl (_, refl))
      | inr given ↦ rw given (elim (Result-cases (validate_session env (bearer_token header) w).0) [
        | inr (e, bad) ↦ rw bad (inl (_, refl))
        | inl (p, good) ↦
            let (sess, a, row, there, valid, kept, same) =
              principal_cases env (bearer_token header) w good in
            let u = (validate_session env (bearer_token header) w).1 in
            rw good (
              inr (
                sess,
                a,
                u,
                row,
                there,
                valid,
                kept,
                ap (λ x. next (context_with_principal ctx x) u) same,
              ))
      ])
    ]
