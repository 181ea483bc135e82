-- ===== src/Auth/Handler/Entry.antt =====
-- From a confirmed code to the account page: the operations confirm-verification and get-session of
-- internal/auth/handler.go.
use Prim.Native.String.{◌++◌}
use passwordless_auth_servic.Prelude.{
  ℕ, suc, ◌+◌, ◌<◌, String, false, some, find, str_eq, eq_iff, ◌==◌, ◌≡◌, ◌≢◌, refl, ap, ◌∙◌, sym,
  inl, inr, Bool-cases,
}
use passwordless_auth_servic.Auth.Domain.{Time, Uuid, Account, Session, session_idle_window}
use passwordless_auth_servic.Auth.Failure.{ok}
use passwordless_auth_servic.Auth.Phone.Forms.{cut_prefix-append}
use passwordless_auth_servic.Platform.World.{Db, answered, Env, World}
use passwordless_auth_servic.Platform.Access.{
  bearer_token, handled, context_with_principal, session_middleware,
}
use passwordless_auth_servic.Postgres.Integrity.{IsSound}
use passwordless_auth_servic.Postgres.Answered.{find_by_id_answered}
use passwordless_auth_servic.Auth.Service.Confirm.{ConfirmResult, confirm_verification}
use passwordless_auth_servic.Auth.Service.Confirm.Admitted.{confirmed-Usable, confirm_then_validate}
use passwordless_auth_servic.Auth.Service.Sessions.{validate_session, account_of}
use passwordless_auth_servic.Auth.Service.Sessions.Outcomes.{KeptOrExtended, validate_session_cases}
use passwordless_auth_servic.Auth.Handler.{reply, account_output, get_session, behind_session}
use passwordless_auth_servic.Auth.Handler.Routes.{background}

bearer_token-Bearer : (token : String) → bearer_token ("Bearer " ++ token) ≡ token
unfolding bearer_token
bearer_token-Bearer token = rw (bearer_token, cut_prefix-append "Bearer " token) refl

pub kept_accounts :
    (sess : Session) (now : Time) (d d' : Db)
    → KeptOrExtended sess now d d'
    → d'.accounts ≡ d.accounts
kept_accounts sess now d d' (inl same) = ap (λ (e : Db). e.accounts) same
kept_accounts sess now d d' (inr (_, moved)) = ap (λ (e : Db). e.accounts) moved

-- A validation leaves the accounts as they are.
validate_session-accounts :
    (env : Env) (token : String) (w : World)
    → (validate_session env token w).1.db.accounts ≡ w.db.accounts
validate_session-accounts env token w = elim (validate_session_cases env token w) [
  | inl (_, same) ↦ ap (λ (e : Db). e.accounts) same
  | inr (sess, _, (_, _, _, kept, _)) ↦ kept_accounts sess _ w.db _ kept
]

module _ (env : Env) (answers : (k : ℕ) → env.driver k ≡ answered) where
  account_of_answered :
      (id : Uuid) (w : World) {a : Account}
      → find (λ (b : Account). b.id == id) w.db.accounts ≡ some a
      → (account_of env id w).0 ≡ ok a
  unfolding account_of
  account_of_answered id w there = rw (find_by_id_answered env answers w id there) refl

  -- The token that a confirm returns opens the account page: on a database that answers, whose unique
  -- keys and references are intact, a GET of the session with that token, on the tables that the confirm
  -- left and sooner than 60 days after it, replies with the account that the confirm returned, if the
  -- token is not empty and parsing an id undoes printing it.
  pub confirm_then_get_session :
      (id : Uuid) (code : String) (w u : World) (res : ConfirmResult)
      → IsSound w.db
      → env.parse_uuid (env.uuid_string res.account.id) ≡ some res.account.id
      → res.session_token ≢ ""
      → (confirm_verification env id code w).0 ≡ ok res
      → u.db ≡ (confirm_verification env id code w).1.db
      → env.now (suc u.calls) < env.now (suc w.calls) + session_idle_window
      → (behind_session env (get_session env) ("Bearer " ++ res.session_token) background u).0
        ≡ handled (reply 200 (account_output env res.account))
  unfolding session_middleware get_session context_with_principal
  confirm_then_get_session id code w u res sound parses given done same soon =
      let (s, _, there, owner, _) = confirmed-Usable env id code w u res sound done same soon in
      let admitted = confirm_then_validate env id code w u res answers sound done same soon in
      let row = ap (λ k. find (λ (b : Account). b.id == k) u.db.accounts) (sym owner) ∙ there in
      let after = (validate_session env res.session_token u).1 in
      let still =
        ap (find (λ (b : Account). b.id == res.account.id))
          (validate_session-accounts env res.session_token u)
        ∙ row in
      let bearer = bearer_token-Bearer res.session_token in
      let account = account_of_answered res.account.id after still in
      rw (bearer, nonempty, admitted, parses, bearer, account) refl
    where
      nonempty : str_eq res.session_token "" ≡ false
      nonempty = elim (Bool-cases (str_eq res.session_token "")) [
        | inl empty ↦ absurd (given ((eq_iff _ _).0 empty))
        | inr set ↦ set
      ]
