-- ===== src/Platform/Config.antt =====
-- internal/platform/config/config.go. The process environment is a function from names to values,
-- with "" for a variable that is not set, as `os.Getenv` reports it.
pub mod Required
pub mod Origins
use Prim.Native.Char.{Char, code}
use Prim.Native.String.{[], ◌∷◌}
use passwordless_auth_servic.Prelude
use passwordless_auth_servic.Prelude.{ℕ, String, Bool, ◌&&◌, List, str_eq, ◌==◌, if◌then◌else◌}
use passwordless_auth_servic.Auth.Failure.{Result, ok, err, opaque}
use passwordless_auth_servic.Auth.Phone.{trim_space}

abbrev pub env_production : String
env_production = "production"

pub record Config : Type 0 where
  pub database_url : String
  pub http_port : String
  pub log_level : String
  pub env : String
  pub admin_api_key : String
  pub admin_id : String
  pub admin_allowed_origins : List String
  pub google_client_id : String
  pub google_link_secret : String
  pub whatsapp_access_token : String
  pub whatsapp_phone_number_id : String
  pub whatsapp_template_name : String
  pub whatsapp_template_language : String
  pub whatsapp_api_version : String

-- `Config.IsProduction`
abbrev pub is_production : Config → Bool
is_production c = str_eq c.env env_production

abbrev push : Char → List String → List String
push c Prelude.[] = Prelude.◌∷◌ (c ∷ []) Prelude.[]
push c (Prelude.◌∷◌ p ps) = Prelude.◌∷◌ (c ∷ p) ps

-- `strings.Split(v, sep)` at a one-byte `sep`
unfoldable pub split : ℕ → String → List String
split sep [] = Prelude.◌∷◌ [] Prelude.[]
split sep (c ∷ s) =
    let rest = split sep s in if code c == sep then Prelude.◌∷◌ [] rest else push c rest

-- The loop of `splitCSV`.
unfoldable pub trimmed_parts : List String → List String
trimmed_parts Prelude.[] = Prelude.[]
trimmed_parts (Prelude.◌∷◌ p ps) =
    let rest = trimmed_parts ps in
    let part = trim_space p in if str_eq part "" then rest else Prelude.◌∷◌ part rest

-- `splitCSV`
unfoldable pub split_csv : String → List String
split_csv v = if str_eq v "" then Prelude.[] else trimmed_parts (split b',' v)

-- The checks of `Load` on what it read.
unfoldable pub validate : Config → Result Config
validate cfg =
    if str_eq cfg.database_url ""
    then err (opaque "config: DATABASE_URL is required")
    else if is_production cfg && str_eq cfg.google_link_secret ""
    then err (opaque "config: GOOGLE_LINK_SECRET is required when APP_ENV=production")
    else ok cfg

module _ (getenv : String → String) where
  -- `getenvDefault`
  abbrev pub getenv_default : String → String → String
  getenv_default key default_value = if str_eq (getenv key) "" then default_value else getenv key

  -- The literal of `Load`.
  abbrev pub read_config : Config
  read_config = record {
    database_url = getenv "DATABASE_URL";
    http_port = getenv_default "HTTP_PORT" "8080";
    log_level = getenv_default "LOG_LEVEL" "info";
    env = getenv_default "APP_ENV" "development";
    admin_api_key = getenv "ADMIN_API_KEY";
    admin_id = getenv_default "ADMIN_ID" "admin";
    admin_allowed_origins = split_csv (getenv "ADMIN_ALLOWED_ORIGINS");
    google_client_id = getenv "GOOGLE_CLIENT_ID";
    google_link_secret = getenv "GOOGLE_LINK_SECRET";
    whatsapp_access_token = getenv "WHATSAPP_ACCESS_TOKEN";
    whatsapp_phone_number_id = getenv "WHATSAPP_PHONE_NUMBER_ID";
    whatsapp_template_name = getenv_default "WHATSAPP_TEMPLATE_NAME" "otp_verification";
    whatsapp_template_language = getenv_default "WHATSAPP_TEMPLATE_LANGUAGE" "en_US";
    whatsapp_api_version = getenv_default "WHATSAPP_API_VERSION" "v25.0";
  }

  -- `Load`
  unfoldable pub load : Result Config
  unfolding validate
  load = validate read_config
