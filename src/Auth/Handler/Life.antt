-- ===== src/Auth/Handler/Life.antt =====
-- The life of the challenges under the requests of internal/auth/handler.go.
use passwordless_auth_servic.Prelude.{
  String, Bool, true, false, Option, none, some, List, [], ◌∷◌, ◌≡◌, refl, any, inl, inr,
  Bool-cases,
}
use passwordless_auth_servic.Auth.Domain.{Uuid, Verification}
use passwordless_auth_servic.Auth.Verification.Life.{
  Actor, administrator, Tally, Life, done, Life-cons,
}
use passwordless_auth_servic.Platform.World.{Env, World}
use passwordless_auth_servic.Platform.Access.{Context}
use passwordless_auth_servic.Platform.Access.Guard.{admin_middleware_passes}
use passwordless_auth_servic.Postgres.Accounts.{clashes}
use passwordless_auth_servic.Postgres.Sessions.{session_clashes, account_exists_in}
use passwordless_auth_servic.Postgres.Challenges.{challenge, tally, Evolves, Evolves-rows}
use passwordless_auth_servic.Postgres.Keeps.{StableOutside}
use passwordless_auth_servic.Postgres.Integrity.{IsSound, same_event}
use passwordless_auth_servic.Postgres.Integrity.Rows.{All}
use passwordless_auth_servic.Postgres.Integrity.Statements.{IsSound-Stable}
use passwordless_auth_servic.Auth.Service.{Service}
use passwordless_auth_servic.Auth.Service.Life.{
  request_verification-Evolves, resend_verification-Evolves, confirm_verification-Evolves,
  clear_lockout-Evolves,
}
use passwordless_auth_servic.Auth.Handler.{
  Handler, with_id, admin_principal_id, answered_by, behind_admin, post_verification, post_resend,
  post_confirm, post_clear_lockout,
}
use passwordless_auth_servic.Auth.Handler.Routes.{
  background, Request, request_code, resend_code, confirm_code, exchange_google, read_session,
  sign_out, list_registered, clear_lock, read_analytics, serve, serve_all,
}
use passwordless_auth_servic.Auth.Handler.Keeps.{serve-Keeps, serve_outside-Keeps, writes_challenge}

-- The requests to unlock a challenge.
abbrev pub unlocks : Request → Bool
unlocks (clear_lock authorization path_id) = true
unlocks _ = false

-- A request that the actor may make: any for an administrator, and none to unlock for a visitor.
abbrev pub Permits : Actor → Request → Type 0
Permits who r = unlocks r ≡ true → who ≡ administrator

-- The statements on the other tables leave the table of challenges.
challenges-StableOutside : (vs : List Verification) → StableOutside (λ d. d.verifications ≡ vs)
challenges-StableOutside vs = record {
  under_account_create =
      λ a d h. elim (Bool-cases (any (clashes a) d.accounts)) [ inl e ↦ rw e tt | inr e ↦ rw e h ];
  under_session_create = λ s d h. elim (Bool-cases (any (session_clashes s) d.sessions)) [
    | inl e ↦ rw e tt
    | inr e ↦ rw e (elim (Bool-cases (account_exists_in s.account_id d)) [
      | inl owned ↦ rw owned h
      | inr orphan ↦ rw orphan tt
    ])
  ];
  under_session_update = λ s d h. h;
  under_session_revoke = λ token_hash now d h. h;
  under_audit_event_create = λ e d h. elim (Bool-cases (any (same_event e) d.audit_events)) [
    | inl clash ↦ rw clash tt
    | inr fresh ↦ rw fresh (elim (Bool-cases (account_exists_in e.target_account_id d)) [
      | inl owned ↦ rw owned h
      | inr orphan ↦ rw orphan tt
    ])
  ];
}

-- The sends that the tables count when each of the requests is served.
abbrev pub tallies : Env → Service → List Request → World → List Tally
tallies env s [] w = []
tallies env s (r ∷ rs) w = tally w.db ∷ tallies env s rs (serve env s r w)

module _ (who : Actor) (env : Env) (s : Service) where
  outside-Evolves :
      (r : Request) (w : World) → writes_challenge r ≡ false → Evolves who w.db (serve env s r w).db
  outside-Evolves r w e =
      Evolves-rows w.db (serve env s r w).db
        (serve_outside-Keeps (challenges-StableOutside w.db.verifications) env s r w e refl)

  with_id-Evolves {ℓ} :
      {A : Type ℓ} (o : Option Uuid) (handler : Uuid → Handler A) (w : World)
      → ((id : Uuid) → Evolves who w.db (handler id w).1.db)
      → Evolves who w.db (with_id o handler w).1.db
  with_id-Evolves none handler w k = Evolves-rows w.db w.db refl
  with_id-Evolves (some id) handler w k = k id

  behind_admin-Evolves {ℓ} :
      {A : Type ℓ} (handler : Context → Handler A) (header : String) (w : World)
      → ((c : Context) → Evolves who w.db (handler c w).1.db)
      → Evolves who w.db (behind_admin s handler header background w).1.db
  behind_admin-Evolves handler header w k =
      elim (admin_middleware_passes s.admin_api_key s.admin_id (λ c. answered_by (handler c)) header
        background w) [
          | inl (_, passed) ↦ rw passed (k _)
          | inr (_, rejected) ↦ rw rejected (Evolves-rows w.db w.db refl)
        ]

  serve-Evolves :
      (r : Request) (w : World)
      → Permits who r
      → IsSound w.db
      → Evolves who w.db (serve env s r w).db
  unfolding serve post_verification post_resend post_confirm post_clear_lockout writes_challenge
  serve-Evolves (request_code params) w permits sound =
      request_verification-Evolves env s params w sound
  serve-Evolves (resend_code path_id) w permits sound =
      with_id-Evolves (env.parse_uuid path_id) _ w (λ id. resend_verification-Evolves env id w)
  serve-Evolves (confirm_code path_id code) w permits sound =
      with_id-Evolves (env.parse_uuid path_id) _ w
        (λ id. confirm_verification-Evolves env id code w)
  serve-Evolves (clear_lock authorization path_id) w permits sound =
      behind_admin-Evolves (λ c. post_clear_lockout env c path_id) authorization w
        (λ c. with_id-Evolves (env.parse_uuid path_id) _ w (λ id.
          clear_lockout-Evolves env (admin_principal_id c.admin_principal) id w (permits refl)
            sound))
  serve-Evolves (exchange_google id_token role) w permits sound =
      outside-Evolves (exchange_google id_token role) w refl
  serve-Evolves (read_session authorization) w permits sound =
      outside-Evolves (read_session authorization) w refl
  serve-Evolves (sign_out authorization) w permits sound =
      outside-Evolves (sign_out authorization) w refl
  serve-Evolves (list_registered authorization phone limit offset) w permits sound =
      outside-Evolves (list_registered authorization phone limit offset) w refl
  serve-Evolves (read_analytics authorization rng) w permits sound =
      outside-Evolves (read_analytics authorization rng) w refl

  pub serve_all-Life :
      (requests : List Request) (w : World)
      → All (Permits who) requests
      → IsSound w.db
      → (id : Uuid)
      → Life who
          (tallies env s requests w)
          (challenge id w.db)
          (challenge id (serve_all env s requests w).db)
  unfolding serve_all
  serve_all-Life [] w permits sound id = done
  serve_all-Life (r ∷ rs) w (permits, rest) sound id =
      Life-cons (serve-Evolves r w permits sound id)
        (serve_all-Life rs (serve env s r w) rest (serve-Keeps IsSound-Stable env s r w sound) id)
