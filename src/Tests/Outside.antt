-- ===== src/Tests/Outside.antt =====
-- The theorems on the configuration, the startup, the sender and the codes, with concrete parts in
-- place of the libraries.
use Prim.Native.String.{count}
use passwordless_auth_servic.Prelude.{
  ◌<◌, String, true, none, some, List, [], ◌∷◌, str_eq, ◌≡◌, ◌≢◌, refl, arith, ◌⊎◌, if◌then◌else◌,
}
use passwordless_auth_servic.Auth.Failure.{ok, is_err}
use passwordless_auth_servic.Auth.Phone.{is_space, trim_space}
use passwordless_auth_servic.Auth.Phone.Forms.{AllDigits}
use passwordless_auth_servic.Platform.Access.{rejection}
use passwordless_auth_servic.Platform.Config.{read_config, validate, load, split_csv}
use passwordless_auth_servic.Platform.Config.Required.{Lacks, load_cases}
use passwordless_auth_servic.Platform.Config.Origins.{split_csv-join_comma}
use passwordless_auth_servic.Platform.Whatsapp
use passwordless_auth_servic.Platform.Whatsapp.{Client, HttpRequest, send_code}
use passwordless_auth_servic.Platform.Whatsapp.Delivery.{Refuses, Attempts, send_code_delivers}
use passwordless_auth_servic.Auth.Service.{Service, with_admin, format_otp}
use passwordless_auth_servic.Auth.Service.Codes.{read_decimal, read_decimal-format_otp}
use passwordless_auth_servic.Auth.Handler.{behind_admin, get_analytics}
use passwordless_auth_servic.Auth.Handler.Routes.{background}
use passwordless_auth_servic.Cmd.{google_link_secret, composed_service}
use passwordless_auth_servic.Cmd.Startup.{composed_service_production, behind_admin_unset}
use passwordless_auth_servic.Tests.{calm, shop}

-- A production process without an admin key.
abbrev variables : String → String
variables name =
    if str_eq name "DATABASE_URL"
    then "postgres://db"
    else if str_eq name "APP_ENV"
    then "production"
    else if str_eq name "GOOGLE_LINK_SECRET"
    then "link"
    else ""

load_cases_example :
    ((is_err (load variables) ≡ true) × Lacks variables)
    ⊎ ((load variables ≡ ok (read_config variables)) × ¬ Lacks variables)
load_cases_example = load_cases variables

loads : load variables ≡ ok (read_config variables)
unfolding load validate
loads = refl

composed_service_production_example :
    (◌≢◌ {A = String} "link" "")
    × (s : Service) × (composed_service (read_config variables) none ≡ ok s)
    × (s.link_secret ≡ "link")
composed_service_production_example =
    composed_service_production variables none (read_config variables) loads refl

abbrev keyless : Service
keyless = record { link_secret = "link"; admin_api_key = ""; admin_id = "admin" }

composes : composed_service (read_config variables) none ≡ ok keyless
unfolding composed_service google_link_secret with_admin
composes = refl

behind_admin_unset_example :
    behind_admin keyless (λ _. get_analytics calm "24h") "Bearer key" background shop
    ≡ (rejection 401 "missing or invalid admin credential", shop)
behind_admin_unset_example =
    behind_admin_unset variables none (read_config variables) keyless
      (λ _. get_analytics calm "24h") "Bearer key" background shop loads refl composes

abbrev origins : List String
origins = " a" ∷ "" ∷ "b " ∷ " " ∷ []

split_csv-join_comma_example : split_csv " a,,b , " ≡ "a" ∷ "b" ∷ []
unfolding trim_space is_space
split_csv-join_comma_example =
    split_csv-join_comma origins ((refl, (refl, tt)), (tt, ((refl, (refl, tt)), ((refl, tt), tt))))

-- A transport whose every request is answered with a 200.
abbrev transport : Whatsapp.Outside
transport = record {
  marshal = λ r. some r.to;
  is_url = λ _. true;
  do_request = λ _. some (record { status_code = 200; body = "" });
  read_limited = λ body. body;
  unmarshal = λ _. none;
  decimal = λ _. "0";
}

abbrev client : Client
client = record {
  access_token = "access";
  phone_number_id = "1";
  template_name = "otp";
  template_language = "en_US";
  api_version = "v25.0";
  base_url = "https://graph.facebook.com";
}

send_code_delivers_example :
    Refuses [] (send_code transport client "+201012345678" "123456" [])
    ⊎ Attempts transport client "+201012345678" "123456" []
        (send_code transport client "+201012345678" "123456" [])
send_code_delivers_example = send_code_delivers transport client "+201012345678" "123456" []

six_digits : 42 < 1_000_000
six_digits = omega arith

read_decimal-format_otp_example :
    AllDigits (format_otp 42) × (count (format_otp 42) ≡ 6) × (read_decimal 0 (format_otp 42) ≡ 42)
read_decimal-format_otp_example = read_decimal-format_otp 42 six_digits
