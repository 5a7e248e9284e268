-- ===== src/Oidc/Tests.antt =====
-- A service with its credentials as flags, and a discovery document of two addresses.
use elephantine.Prelude.{◌≡◌, refl, String, [], ◌∷◌, Option, none, some, if◌then◌else◌, str_eq}
use elephantine.Fault.{Fault, Result, ok, err}
use elephantine.Files.{Codec, Resource, unmarshal_http_resource}
use elephantine.Secrets.{
  ParameterSource, resolve_parameter, resolve_credentials, ensure_credentials,
}
use elephantine.Oidc.{
  Authentication, authentication_cli_flags, authentication_config_from_cli, wanted_token_source,
  new_token_source, open_id_connect_config_from_url,
}
use elephantine.Oidc.Config.{OpenIdConnectConfig, empty_config}
use elephantine.Oidc.Flags.{Agree, authentication_config_from_cli_declared}

abbrev flags : String → String
flags name =
    if str_eq name "oidc-config"
    then "https://login"
    else if str_eq name "client-id"
    then "id"
    else if str_eq name "client-secret"
    then "s3cret"
    else ""

-- The same, with a flag that is not declared.
abbrev more_flags : String → String
more_flags name = if str_eq name "addr" then ":1080" else flags name

abbrev no_source : ParameterSource (Unit {0})
no_source src name = (err (Fault.text "no parameter source configured"), src)

abbrev discovered : OpenIdConnectConfig
discovered = record empty_config {
  issuer = "https://issuer";
  token_endpoint = "https://token";
  jwks_uri = "https://keys";
}

abbrev json : Codec OpenIdConnectConfig
json = record {
  encode = λ c. ok "document";
  decode = λ strict o text.
      if str_eq text "document" then (discovered, none) else (o, some (Fault.text "no JSON"));
}

abbrev get : String → Result Resource
get url =
    if str_eq url "https://login"
    then ok (record { status_code = 200; body = "document"; close_error = none })
    else err (Fault.text "no such host")

abbrev jwks : String → Option Fault
jwks url = none

authentication_config_from_cli_declared_example :
    authentication_config_from_cli flags no_source json get jwks tt ("doc_read" ∷ [])
    ≡ authentication_config_from_cli more_flags no_source json get jwks tt ("doc_read" ∷ [])
unfolding Agree authentication_cli_flags
authentication_config_from_cli_declared_example =
    authentication_config_from_cli_declared flags more_flags no_source json get jwks tt
      ("doc_read" ∷ []) (refl, (refl, (refl, (refl, (refl, (refl, (refl, (refl, tt))))))))

abbrev configured : Authentication
configured = record {
  oidc_config = discovered;
  token_source = some (record {
    client_id = "id";
    client_secret = "s3cret";
    token_url = "https://token";
    scopes = "doc_read" ∷ [];
  });
  auth_parser = record {
    jwks_url = "https://keys";
    issuer = "https://issuer";
    audience = "";
    scope_prefix = "";
  };
  credentials = record { cred_err = none; client_id = "id"; client_secret = "s3cret" };
}

configures :
    (authentication_config_from_cli flags no_source json get jwks tt ("doc_read" ∷ [])).0
    ≡ ok configured
unfolding authentication_config_from_cli wanted_token_source new_token_source resolve_parameter
    resolve_credentials ensure_credentials open_id_connect_config_from_url unmarshal_http_resource
configures = refl
