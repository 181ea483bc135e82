-- ===== src/Auth/Handler/SignOut.antt =====
-- The operation sign-out of internal/auth/handler.go, and what the token is worth after it.
use mathlib.Core.Path.{subst}
use passwordless_auth_servic.Prelude.{
  ltb, ◌&&◌, ◌+◌, ◌==◌, suc, String, true, false, some, List, find, update, str_eq, ◌≡◌, refl, ap,
  sym, ◌∙◌, inl, inr, Bool-cases, Option-cases, arith,
}
use passwordless_auth_servic.Auth.Domain.{Time, Session, session_idle_window, is_nil}
use passwordless_auth_servic.Auth.Failure.{Result, ok, err}
use passwordless_auth_servic.Auth.Phone.{cut_prefix}
use passwordless_auth_servic.Auth.Session.{is_valid}
use passwordless_auth_servic.Platform.World.{Db, Env, World}
use passwordless_auth_servic.Platform.Access.{
  Context, Response, handled, bearer_token, session_middleware,
}
use passwordless_auth_servic.Postgres.Sessions
use passwordless_auth_servic.Postgres.Sessions.{has_token_hash, is_live}
use passwordless_auth_servic.Postgres.Revocation.{IsRevoked, IsRevoked-Stable, find-update}
use passwordless_auth_servic.Auth.Service.{Service, hash_token}
use passwordless_auth_servic.Auth.Service.Sessions.{revoke_session}
use passwordless_auth_servic.Auth.Service.Sessions.Outcomes.{KeptOrExtended}
use passwordless_auth_servic.Auth.Service.Sessions.Progress.{find-revoked, revoke_at}
use passwordless_auth_servic.Auth.Service.Sessions.Gate.{Rejects, session_middleware_cases}
use passwordless_auth_servic.Auth.Handler.{
  answered_by, Handler, Reply, reply, reply_of, trim_bearer, delete_session, behind_session,
}
use passwordless_auth_servic.Auth.Handler.Routes.{Request, background, sign_out, serve, serve_all}
use passwordless_auth_servic.Auth.Handler.Keeps.{serve_all-Keeps}

-- The handler and the middleware read the same token, if the header carries one.
trim_bearer-bearer_token :
    (header : String)
    → str_eq (bearer_token header) "" ≡ false
    → trim_bearer header ≡ bearer_token header
unfolding trim_bearer bearer_token
trim_bearer-bearer_token header given = elim (Option-cases (cut_prefix "Bearer " header)) [
  | inl missing ↦ absurd (empty (rw (bearer_token, missing) refl))
  | inr (token, there) ↦ rw (trim_bearer, bearer_token, there) refl
]
  where
    empty : bearer_token header ≡ "" → ⊥
    empty e = let unset = ap (λ t. str_eq t "") e in cc

module _ (env : Env) where
  revoke_session-eq-ok :
      (token : String) (w : World)
      → (revoke_session env token w).0 ≡ ok tt
      → (revoke_session env token w).1.db.sessions
        ≡ update (is_live (hash_token env token)) (revoke_at (env.now w.calls)) w.db.sessions
  unfolding revoke_session Sessions.revoke_by_token_hash
  revoke_session-eq-ok token w e = ground arith

  -- A revocation that succeeds leaves the token's row revoked.
  revoke_session-IsRevoked :
      (token : String) (w : World) {sess : Session}
      → find (has_token_hash (hash_token env token)) w.db.sessions ≡ some sess
      → (revoke_session env token w).0 ≡ ok tt
      → IsRevoked (hash_token env token) (revoke_session env token w).1.db
  revoke_session-IsRevoked token w row done =
      let left = revoke_session-eq-ok token w done in
      let (s, found, over) =
        find-revoked (hash_token env token) (env.now w.calls) w.db.sessions row in
      (s, ap (find (has_token_hash (hash_token env token))) left ∙ found, over)

  still_found :
      (token_hash : String) (sess : Session) (now : Time) (d d' : Db)
      → KeptOrExtended sess now d d'
      → find (has_token_hash token_hash) d.sessions ≡ some sess
      → (s : Session) × (find (has_token_hash token_hash) d'.sessions ≡ some s)
  still_found token_hash sess now d d' (inl same) row =
      (sess, ap (λ (e : Db). find (has_token_hash token_hash) e.sessions) same ∙ row)
  still_found token_hash sess now d d' (inr (due, moved)) row =
      let there = ap (λ (e : Db). find (has_token_hash token_hash) e.sessions) moved in
      elim (find-update (has_token_hash token_hash) (λ t. t.id == sess.id)
        (λ t. record t { last_active_at = now; expires_at = now + session_idle_window }) (λ t. refl)
        d.sessions row) [ inl found ↦ (_, there ∙ found) | inr found ↦ (_, there ∙ found) ]

  IsRevoked-Rejects {ℓ} :
      {A : Type ℓ} (handler : Context → Handler A) (header : String) (u : World)
      → IsRevoked (hash_token env (bearer_token header)) u.db
      → Rejects (behind_session env handler header background u)
  unfolding is_valid
  IsRevoked-Rejects handler header u (s, row, over) =
      elim (session_middleware_cases env (λ ctx. answered_by (handler ctx)) header background u) [
        | inl rejects ↦ rejects
        | inr (sess, a, u', row', there, valid, kept, same) ↦ absurd (ended sess (cc) valid)
      ]
    where
      ended :
          (sess : Session)
          → sess ≡ s
          → (is_nil sess.revoked_at && ltb (env.now (suc u.calls)) sess.expires_at) ≡ true
          → ⊥
      ended sess same valid =
          let revoked = ap (λ (t : Session). is_nil t.revoked_at) same in ground arith

  replied :
      (r : Result (Unit {0}))
      → ◌≡◌ {A = Response (Reply (Unit {0}))}
          (handled (reply_of 204 (λ _. tt) r))
          (handled (reply 204 tt))
      → r ≡ ok tt
  replied (ok tt) e = refl
  replied (err x) e = absurd (cc)

  header_given :
      (header : String) (w : World)
      → (behind_session env (λ _. delete_session env header) header background w).0
        ≡ handled (reply 204 tt)
      → str_eq (bearer_token header) "" ≡ false
  unfolding session_middleware
  header_given header w done = elim (Bool-cases (str_eq (bearer_token header) "")) [
    | inr given ↦ given
    | inl empty ↦ let rejected = rw empty at done in absurd (cc)
  ]

  -- What a sign-out that the server acknowledges leaves.
  sign_out-IsRevoked :
      (s : Service) (header : String) (w : World)
      → (behind_session env (λ _. delete_session env header) header background w).0
        ≡ handled (reply 204 tt)
      → IsRevoked (hash_token env (bearer_token header)) (serve env s (sign_out header) w).db
  unfolding serve delete_session
  sign_out-IsRevoked s header w done =
      elim (session_middleware_cases env (λ _. answered_by (delete_session env header)) header
        background w) [
          | inl (message, rejected) ↦ absurd (cc)
          | inr (sess, a, u, row, there, valid, kept, same) ↦
              let token = bearer_token header in
              let trimmed = trim_bearer-bearer_token header (header_given header w done) in
              let ended =
                replied (revoke_session env (trim_bearer header) u).0
                  (ap (λ p. p.0) (sym same) ∙ done) in
              let revoked =
                revoke_session-IsRevoked token u
                  (still_found (hash_token env token) sess (env.now (suc w.calls)) w.db u.db kept
                    row).1
                  (ap (λ t. (revoke_session env t u).0) (sym trimmed) ∙ ended) in
              subst (λ p. IsRevoked (hash_token env token) p.1.db) (sym same)
                (subst (λ t. IsRevoked (hash_token env token) (revoke_session env t u).1.db)
                  (sym trimmed) revoked)
        ]

  -- Once a sign-out was answered by 204, its token is worth nothing: after any further requests, of
  -- anyone, and however the outside calls are answered, a request with the same header is rejected with
  -- a 401 by every operation behind the session middleware.
  pub sign_out_ends {ℓ} :
      {A : Type ℓ} (s : Service) (header : String) (w : World) (requests : List Request)
      (handler : Context → Handler A)
      → (behind_session env (λ _. delete_session env header) header background w).0
        ≡ handled (reply 204 tt)
      → Rejects (
          behind_session env handler header background
            (serve_all env s requests (serve env s (sign_out header) w)))
  sign_out_ends s header w requests handler done = IsRevoked-Rejects handler header _ (
      serve_all-Keeps (IsRevoked-Stable (hash_token env (bearer_token header))) env s requests _
        (sign_out-IsRevoked s header w done))
