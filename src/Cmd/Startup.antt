-- ===== src/Cmd/Startup.antt =====
-- What the environment of the process decides about the service that `RunServe` composes.
use passwordless_auth_servic.Prelude.{
  String, Option, str_eq, eq_iff, ◌≡◌, ◌≢◌, refl, ap, sym, ◌∙◌, inl, inr, Bool-cases,
}
use passwordless_auth_servic.Auth.Failure.{Result, ok, err}
use passwordless_auth_servic.Platform.World.{World}
use passwordless_auth_servic.Platform.World.Runs.{Result-cases}
use passwordless_auth_servic.Platform.Access.{Context, rejection}
use passwordless_auth_servic.Platform.Access.Guard.{admin_middleware_passes}
use passwordless_auth_servic.Platform.Config.{Config, load}
use passwordless_auth_servic.Platform.Config.Required.{load-eq-ok}
use passwordless_auth_servic.Auth.Service.{Service, with_admin}
use passwordless_auth_servic.Auth.Handler.{Handler, behind_admin, answered_by}
use passwordless_auth_servic.Cmd.{google_link_secret, composed_service}

-- A process that starts in production signs pending links with the secret of its environment, which is
-- not empty, whatever the random source yields, so that all its replicas share it.
pub composed_service_production :
    (getenv : String → String) (drawn : Option String) (cfg : Config)
    → load getenv ≡ ok cfg
    → getenv "APP_ENV" ≡ "production"
    → (getenv "GOOGLE_LINK_SECRET" ≢ "")
      × (s : Service) × (composed_service cfg drawn ≡ ok s)
      × (s.link_secret ≡ getenv "GOOGLE_LINK_SECRET")
unfolding composed_service google_link_secret with_admin
composed_service_production getenv drawn cfg loaded production =
    let (same, complete) = load-eq-ok getenv loaded in
    let configured = ap (λ (c : Config). c.google_link_secret) same in
    let there : getenv "GOOGLE_LINK_SECRET" ≢ "" = λ unset. complete (inr (production, unset)) in
    elim (Bool-cases (str_eq cfg.google_link_secret "")) [
      | inl unset ↦ absurd (there (sym configured ∙ (eq_iff _ _).0 unset))
      | inr set ↦ (
        there,
        record {
          link_secret = cfg.google_link_secret;
          admin_api_key = cfg.admin_api_key;
          admin_id = cfg.admin_id;
        },
        rw (composed_service, set) refl,
        configured,
      )
    ]

-- Where ADMIN_API_KEY is not set, the server rejects every admin request with a 401, whatever its
-- header, and no handler runs.
pub behind_admin_unset {ℓ} :
    {A : Type ℓ} (getenv : String → String) (drawn : Option String) (cfg : Config) (s : Service)
    (handler : Context → Handler A) (header : String) (ctx : Context) (w : World)
    → load getenv ≡ ok cfg
    → getenv "ADMIN_API_KEY" ≡ ""
    → composed_service cfg drawn ≡ ok s
    → behind_admin s handler header ctx w ≡ (rejection 401 "missing or invalid admin credential", w)
unfolding composed_service with_admin
behind_admin_unset getenv drawn cfg s handler header ctx w loaded unset composed =
    elim (admin_middleware_passes s.admin_api_key s.admin_id (λ c. answered_by (handler c)) header
      ctx w) [ inr (_, rejected) ↦ rejected | inl ((set, _), _) ↦ absurd (set keyed) ]
  where
    key_or : Result Service → String
    key_or (ok t) = t.admin_api_key
    key_or (err e) = ""

    keyed : s.admin_api_key ≡ ""
    keyed = elim (Result-cases (google_link_secret cfg drawn)) [
      | inr (x, bad) ↦ let failed = rw (composed_service, bad) at composed in absurd (cc)
      | inl (secret, good) ↦
          let (same, _) = load-eq-ok getenv loaded in
          sym (ap key_or (rw (composed_service, good) at composed))
          ∙ ap (λ (c : Config). c.admin_api_key) same
          ∙ unset
    ]
