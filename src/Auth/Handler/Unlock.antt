-- ===== src/Auth/Handler/Unlock.antt =====
-- The operation admin-clear-lockout of internal/auth/handler.go, behind the admin middleware.
use mathlib.Core.Path.{subst}
use passwordless_auth_servic.Prelude.{
  suc, String, true, some, find, ◌==◌, ◌≡◌, refl, ap, sym, ◌⊎◌, inl, inr, Option-cases,
}
use passwordless_auth_servic.Auth.Domain.{Uuid, Account, Verification}
use passwordless_auth_servic.Auth.Verification.{is_locked}
use passwordless_auth_servic.Platform.World.{Db, Env, World}
use passwordless_auth_servic.Platform.Access.{context_with_admin_principal}
use passwordless_auth_servic.Platform.Access.Guard.{Carries, admin_middleware_passes}
use passwordless_auth_servic.Postgres.Verifications.{find_latest}
use passwordless_auth_servic.Auth.Service.{Service}
use passwordless_auth_servic.Auth.Service.Admin.Clearing.{Records, clear_lockout_cases}
use passwordless_auth_servic.Auth.Handler.{post_clear_lockout, answered_by}
use passwordless_auth_servic.Auth.Handler.Routes.{clear_lock, background, serve}

-- The request carries the admin key and names an account whose latest challenge is locked; it is
-- unlocked in `d'`, with an event of the configured admin.
abbrev pub Unlocks : Env → Service → String → String → World → Db → Type 0
Unlocks env s header path_id w d' =
    (id : Uuid) × (a : Account) × (v : Verification) × Carries s.admin_api_key header
    × (env.parse_uuid path_id ≡ some id)
    × (find (λ (b : Account). b.id == id) w.db.accounts ≡ some a)
    × (find_latest a.phone w.db ≡ some v)
    × (is_locked v (env.now (suc w.calls)) ≡ true)
    × Records env s.admin_id id v w.db d'

-- A request to clear a lockout changes no table; or it carries the configured admin key, its path names
-- a stored account whose phone's latest challenge is locked, and that challenge is unlocked together
-- with an audit event whose actor is the configured admin, not anything that the request says.
pub serve-clear_lock :
    (env : Env) (s : Service) (header path_id : String) (w : World)
    → let u = serve env s (clear_lock header path_id) w in
      (u.db ≡ w.db) ⊎ Unlocks env s header path_id w u.db
unfolding serve post_clear_lockout context_with_admin_principal
serve-clear_lock env s header path_id w =
    elim (admin_middleware_passes s.admin_api_key s.admin_id
      (λ ctx. answered_by (post_clear_lockout env ctx path_id)) header background w) [
        | inr (_, rejected) ↦ inl (ap (λ p. p.1.db) rejected)
        | inl (carries, passed) ↦
            subst (λ p. (p.1.db ≡ w.db) ⊎ Unlocks env s header path_id w p.1.db) (sym passed)
              (elim (Option-cases (env.parse_uuid path_id)) [
                | inl bad ↦ rw bad (inl refl)
                | inr (id, parsed) ↦ rw parsed (elim (clear_lockout_cases env s.admin_id id w) [
                  | inl (same, _) ↦ inl same
                  | inr (a, v, row, latest, held, (records, _)) ↦
                      inr (id, a, v, carries, refl, row, latest, held, records)
                ])
              ])
      ]
