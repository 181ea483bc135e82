-- ===== src/Auth/Handler/Integrity.antt =====
-- The unique keys, the references and the accounts and audit events of the tables under the requests of
-- internal/auth/handler.go.
use passwordless_auth_servic.Prelude.{List}
use passwordless_auth_servic.Platform.World.{Env, World}
use passwordless_auth_servic.Postgres.Integrity.Keys.{IsIntact, IsSound-IsIntact, IsIntact-IsSound}
use passwordless_auth_servic.Postgres.Integrity.Pairs.{Retains-refl}
use passwordless_auth_servic.Postgres.Integrity.Retained.{Retained, Retained-Stable}
use passwordless_auth_servic.Postgres.Integrity.Statements.{IsSound-Stable}
use passwordless_auth_servic.Auth.Service.{Service}
use passwordless_auth_servic.Auth.Handler.Routes.{Request, serve_all}
use passwordless_auth_servic.Auth.Handler.Keeps.{serve_all-Keeps}

-- However many requests are served one after another, and however the driver, the sender and the
-- other outside calls answer them, tables whose unique keys and references are intact stay so: no
-- two accounts share an id, a phone or a Google subject, no two sessions an id or a token hash, no
-- two challenges or audit events an id, and each session and audit event has its account. And every
-- account and every audit event that was stored is still stored, unchanged.
pub serve_all-IsIntact :
    (env : Env) (s : Service) (requests : List Request) (w : World)
    → IsIntact w.db
    → IsIntact (serve_all env s requests w).db
      × Retained w.db.accounts w.db.audit_events (serve_all env s requests w).db
serve_all-IsIntact env s requests w intact =
    let d' = (serve_all env s requests w).db in
    let sound = serve_all-Keeps IsSound-Stable env s requests w (IsIntact-IsSound w.db intact) in
    let retained = Retained-Stable w.db.accounts w.db.audit_events in
    (
      IsSound-IsIntact d' sound,
      serve_all-Keeps retained env s requests w
          (Retains-refl w.db.accounts, Retains-refl w.db.audit_events),
    )
