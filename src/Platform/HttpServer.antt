-- ===== src/Platform/HttpServer.antt =====
-- internal/platform/httpserver and internal/platform/observability: the request context, the tally of
-- statements, the health checks and the level of the logger.
use passwordless_auth_servic.Prelude.{
  ℕ, String, Bool, Option, none, some, str_eq, leb, if◌then◌else◌,
}
use passwordless_auth_servic.Auth.Failure.{Error}

-- `QueryCountThreshold`
abbrev pub query_count_threshold : ℕ
query_count_threshold = 20

-- The warning of `withRequestContext`, at the number of statements that were counted.
unfoldable pub warns : ℕ → Bool
warns n = leb query_count_threshold n

-- What `withRequestContext` gives to a request: its id, in the context and in the response's header.
-- `fresh` is what `uuid.NewString` would give.
unfoldable pub request_id : String → String → String
request_id header fresh = if str_eq header "" then fresh else header

pub record Health : Type 0 where
  pub status : ℕ
  pub body : String

-- `healthz`
abbrev pub healthz : Health
healthz = record { status = 200; body = "{\"status\":\"ok\"}" }

-- `readyz`, at what `Ping` returns
unfoldable pub readyz : Option Error → Health
readyz (some e) = record { status = 503; body = "{\"status\":\"unavailable\"}" }
readyz none = record { status = 200; body = "{\"status\":\"ready\"}" }

pub data Level : Type 0 where
  debug info warn error : Level

-- The `switch` of `NewLogger`, over the level in lower case
unfoldable pub level_of : String → Level
level_of lower =
    if str_eq lower "debug"
    then debug
    else if str_eq lower "warn"
    then warn
    else if str_eq lower "error"
    then error
    else info
