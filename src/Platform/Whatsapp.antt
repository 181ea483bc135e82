-- ===== src/Platform/Whatsapp.antt =====
-- internal/platform/whatsapp: the client of Meta's Cloud API in client.go. The parts of net/http,
-- encoding/json and fmt that it calls are the fields of `Outside`.
pub mod Delivery
use Prim.Native.String.{◌++◌}
use passwordless_auth_servic.Prelude.{
  ℕ, String, Bool, ◌||◌, Option, none, some, List, [], ◌∷◌, str_eq, ltb, leb, if◌then◌else◌, ℤ, pos,
}
use passwordless_auth_servic.Auth.Failure.{Error, Result, ok, err, opaque, wrapped}
use passwordless_auth_servic.Auth.Phone.{trim_space}

abbrev pub default_api_version : String
default_api_version = "v25.0"

abbrev pub default_base_url : String
default_base_url = "https://graph.facebook.com"

-- `Config` of the package
pub record ClientConfig : Type 0 where
  pub access_token : String
  pub phone_number_id : String
  pub template_name : String
  pub template_language : String
  pub api_version : String
  pub base_url : String

pub record Client : Type 0 where
  pub access_token : String
  pub phone_number_id : String
  pub template_name : String
  pub template_language : String
  pub api_version : String
  pub base_url : String

abbrev pub or_default : String → String → String
or_default s default_value = if str_eq s "" then default_value else s

-- `NewClient`
unfoldable pub new_client : ClientConfig → Client
new_client cfg = record {
  access_token = cfg.access_token;
  phone_number_id = cfg.phone_number_id;
  template_name = cfg.template_name;
  template_language = cfg.template_language;
  api_version = or_default cfg.api_version default_api_version;
  base_url = or_default cfg.base_url default_base_url;
}

pub record TemplateParameter : Type 0 where
  pub kind : String
  pub text : String

-- A field with `omitempty` is "" where the body leaves it out.
pub record TemplateComponent : Type 0 where
  pub kind : String
  pub sub_type : String
  pub index : String
  pub parameters : List TemplateParameter

pub record TemplateBody : Type 0 where
  pub name : String
  pub language_code : String
  pub components : List TemplateComponent

pub record SendTemplateRequest : Type 0 where
  pub messaging_product : String
  pub to : String
  pub kind : String
  pub template : TemplateBody

pub record HttpRequest : Type 0 where
  pub method : String
  pub url : String
  pub authorization : String
  pub content_type : String
  pub body : String

pub record HttpResponse : Type 0 where
  pub status_code : ℕ
  pub body : String

pub record MetaErrorResponse : Type 0 where
  pub message : String
  pub kind : String
  pub code : ℤ
  pub details : String
  pub fb_trace_id : String

-- `json.Marshal` of the request, `http.NewRequestWithContext` as to whether it takes the address,
-- `http.Client.Do`, reading at most 65536 bytes of a body, `json.Unmarshal` of an error body, and
-- `%d` of fmt.
pub record Outside : Type 0 where
  pub marshal : SendTemplateRequest → Option String
  pub is_url : String → Bool
  pub do_request : HttpRequest → Option HttpResponse
  pub read_limited : String → String
  pub unmarshal : String → Option MetaErrorResponse
  pub decimal : ℤ → String

abbrev pub code_parameters : String → List TemplateParameter
code_parameters code = record { kind = "text"; text = code } ∷ []

-- The literal `reqBody`.
unfoldable pub request_body : Client → String → String → SendTemplateRequest
request_body c phone code = record {
  messaging_product = "whatsapp";
  to = phone;
  kind = "template";
  template = record {
    name = c.template_name;
    language_code = c.template_language;
    components =
        record { kind = "body"; sub_type = ""; index = ""; parameters = code_parameters code }
        ∷ record {
          kind = "button";
          sub_type = "url";
          index = "0";
          parameters = code_parameters code;
        }
        ∷ [];
  };
}

abbrev pub messages_url : Client → String
messages_url c = c.base_url ++ "/" ++ c.api_version ++ "/" ++ c.phone_number_id ++ "/messages"

abbrev pub messages_request : Client → String → HttpRequest
messages_request c body = record {
  method = "POST";
  url = messages_url c;
  authorization = "Bearer " ++ c.access_token;
  content_type = "application/json";
  body = body;
}

module _ (o : Outside) where
  abbrev details_of : MetaErrorResponse → String → String
  details_of parsed msg =
      let msg' = if str_eq parsed.details "" then msg else msg ++ ": " ++ parsed.details in
      if str_eq parsed.fb_trace_id ""
      then msg'
      else msg' ++ " (fbtrace_id " ++ parsed.fb_trace_id ++ ")"

  abbrev raw_error : HttpResponse → String → Error
  raw_error resp data_read =
      opaque ("status " ++ o.decimal (pos resp.status_code) ++ ": " ++ trim_space data_read)

  abbrev meta_error : HttpResponse → String → Option MetaErrorResponse → Error
  meta_error resp data_read none = raw_error resp data_read
  meta_error resp data_read (some parsed) =
      if str_eq parsed.message ""
      then raw_error resp data_read
      else opaque (
          details_of parsed (
            "status "
            ++ o.decimal (pos resp.status_code)
            ++ ": meta error "
            ++ o.decimal parsed.code
            ++ " ("
            ++ parsed.kind
            ++ "): "
            ++ parsed.message))

  -- `parseErrorResponse`
  unfoldable pub parse_error_response : HttpResponse → Error
  parse_error_response resp =
      let data_read = o.read_limited resp.body in meta_error resp data_read (o.unmarshal data_read)

  abbrev pub settle_response : Option HttpResponse → Result (Unit {0})
  settle_response none = err (wrapped "whatsapp: send request" (opaque "http"))
  settle_response (some resp) =
      if ltb resp.status_code 200 || leb 300 resp.status_code
      then err (wrapped "whatsapp: send failed" (parse_error_response resp))
      else ok tt

  -- From the marshalled body on.
  abbrev pub post_body :
      Client → Option String → List HttpRequest → Result (Unit {0}) × List HttpRequest
  post_body c none sent = (err (wrapped "whatsapp: marshal request" (opaque "json")), sent)
  post_body c (some body) sent =
      if o.is_url (messages_url c)
      then (
        settle_response (o.do_request (messages_request c body)),
        messages_request c body ∷ sent,
      )
      else (err (wrapped "whatsapp: build request" (opaque "url")), sent)

  -- `Client.SendCode`, with the requests sent so far, the latest first.
  unfoldable pub send_code :
      Client → String → String → List HttpRequest → Result (Unit {0}) × List HttpRequest
  unfolding request_body
  send_code c phone code sent =
      if str_eq c.access_token "" || str_eq c.phone_number_id ""
      then (
        err (opaque "whatsapp: client not configured: missing access token or phone number id"),
        sent,
      )
      else post_body c (o.marshal (request_body c phone code)) sent
