-- ===== src/Cmd.antt =====
-- cmd/serve.go: how `RunServe` composes the service from the configuration. Logs, the tracer, the
-- pool, the router and the server's life are not modelled.
pub mod Startup
use passwordless_auth_servic.Prelude.{
  String, Bool, ◌||◌, Option, none, some, List, str_eq, if◌then◌else◌,
}
use passwordless_auth_servic.Auth.Failure.{Error, Result, ok, err, opaque, wrapped}
use passwordless_auth_servic.Platform.Config.{Config}
use passwordless_auth_servic.Platform.Whatsapp
use passwordless_auth_servic.Platform.Whatsapp.{Client, HttpRequest, Outside, new_client}
use passwordless_auth_servic.Auth.Service.{Service, with_admin}

-- `googleLinkSecret`, given what `rand.Read` of 32 bytes yields
unfoldable pub google_link_secret : Config → Option String → Result String
google_link_secret cfg drawn =
    if str_eq cfg.google_link_secret ""
    then (elim drawn [
      | none ↦ err (wrapped "generate google link secret" (opaque "rand"))
      | some secret ↦ ok secret
    ])
    else ok cfg.google_link_secret

-- The two senders of internal/platform/whatsapp.
pub data Sender : Type 0 where
  cloud_client : Client → Sender
  logging_sender : Sender

-- `selectWhatsAppSender`
unfoldable pub select_whatsapp_sender : Config → Sender
select_whatsapp_sender cfg =
    if str_eq cfg.whatsapp_access_token "" || str_eq cfg.whatsapp_phone_number_id ""
    then logging_sender
    else cloud_client (
        new_client (record {
          access_token = cfg.whatsapp_access_token;
          phone_number_id = cfg.whatsapp_phone_number_id;
          template_name = cfg.whatsapp_template_name;
          template_language = cfg.whatsapp_template_language;
          api_version = cfg.whatsapp_api_version;
          base_url = "";
        }))

-- `SendCode` of the sender. `LoggingSender.SendCode` only logs.
unfoldable pub sender_send_code :
    Outside → Sender → String → String → List HttpRequest → Result (Unit {0}) × List HttpRequest
sender_send_code o (cloud_client c) phone code sent = Whatsapp.send_code o c phone code sent
sender_send_code o logging_sender phone code sent = (ok tt, sent)

-- The fields that `NewService` and `WithAdmin` set from the configuration.
unfoldable pub composed_service : Config → Option String → Result Service
unfolding google_link_secret
composed_service cfg drawn = elim (google_link_secret cfg drawn) [
  | err e ↦ err (wrapped "serve" e)
  | ok secret ↦ ok (
      with_admin (record { link_secret = secret; admin_api_key = ""; admin_id = "" })
        cfg.admin_api_key cfg.admin_id)
]
