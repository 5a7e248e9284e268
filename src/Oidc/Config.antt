-- ===== src/Oidc/Config.antt =====
-- OpenIDConnectConfig (oidc.go), with the fields under their JSON names, and its zero value.
use elephantine.Prelude.{String, Bool, false, List, []}

pub record OpenIdConnectConfig : Type 0 where
  pub issuer : String
  pub authorization_endpoint : String
  pub token_endpoint : String
  pub introspection_endpoint : String
  pub userinfo_endpoint : String
  pub end_session_endpoint : String
  pub frontchannel_logout_session_supported : Bool
  pub frontchannel_logout_supported : Bool
  pub jwks_uri : String
  pub check_session_iframe : String
  pub grant_types_supported : List String
  pub acr_values_supported : List String
  pub response_types_supported : List String
  pub subject_types_supported : List String
  pub id_token_signing_alg_values_supported : List String
  pub id_token_encryption_alg_values_supported : List String
  pub id_token_encryption_enc_values_supported : List String
  pub userinfo_signing_alg_values_supported : List String
  pub userinfo_encryption_alg_values_supported : List String
  pub userinfo_encryption_enc_values_supported : List String
  pub request_object_signing_alg_values_supported : List String
  pub request_object_encryption_alg_values_supported : List String
  pub request_object_encryption_enc_values_supported : List String
  pub response_modes_supported : List String
  pub registration_endpoint : String
  pub token_endpoint_auth_methods_supported : List String
  pub token_endpoint_auth_signing_alg_values_supported : List String
  pub introspection_endpoint_auth_methods_supported : List String
  pub introspection_endpoint_auth_signing_alg_values_supported : List String
  pub authorization_signing_alg_values_supported : List String
  pub authorization_encryption_alg_values_supported : List String
  pub authorization_encryption_enc_values_supported : List String
  pub claims_supported : List String
  pub claim_types_supported : List String
  pub claims_parameter_supported : Bool
  pub scopes_supported : List String
  pub request_parameter_supported : Bool
  pub request_uri_parameter_supported : Bool
  pub require_request_uri_registration : Bool
  pub code_challenge_methods_supported : List String
  pub tls_client_certificate_bound_access_tokens : Bool
  pub revocation_endpoint : String
  pub revocation_endpoint_auth_methods_supported : List String
  pub revocation_endpoint_auth_signing_alg_values_supported : List String
  pub backchannel_logout_supported : Bool
  pub backchannel_logout_session_supported : Bool
  pub device_authorization_endpoint : String
  pub backchannel_token_delivery_modes_supported : List String
  pub backchannel_authentication_endpoint : String
  pub backchannel_authentication_request_signing_alg_values_supported : List String
  pub require_pushed_authorization_requests : Bool
  pub pushed_authorization_request_endpoint : String
  pub mtls_endpoint_aliases : List (String × String)
  pub authorization_response_iss_parameter_supported : Bool

abbrev pub empty_config : OpenIdConnectConfig
empty_config = record {
  issuer = "";
  authorization_endpoint = "";
  token_endpoint = "";
  introspection_endpoint = "";
  userinfo_endpoint = "";
  end_session_endpoint = "";
  frontchannel_logout_session_supported = false;
  frontchannel_logout_supported = false;
  jwks_uri = "";
  check_session_iframe = "";
  grant_types_supported = [];
  acr_values_supported = [];
  response_types_supported = [];
  subject_types_supported = [];
  id_token_signing_alg_values_supported = [];
  id_token_encryption_alg_values_supported = [];
  id_token_encryption_enc_values_supported = [];
  userinfo_signing_alg_values_supported = [];
  userinfo_encryption_alg_values_supported = [];
  userinfo_encryption_enc_values_supported = [];
  request_object_signing_alg_values_supported = [];
  request_object_encryption_alg_values_supported = [];
  request_object_encryption_enc_values_supported = [];
  response_modes_supported = [];
  registration_endpoint = "";
  token_endpoint_auth_methods_supported = [];
  token_endpoint_auth_signing_alg_values_supported = [];
  introspection_endpoint_auth_methods_supported = [];
  introspection_endpoint_auth_signing_alg_values_supported = [];
  authorization_signing_alg_values_supported = [];
  authorization_encryption_alg_values_supported = [];
  authorization_encryption_enc_values_supported = [];
  claims_supported = [];
  claim_types_supported = [];
  claims_parameter_supported = false;
  scopes_supported = [];
  request_parameter_supported = false;
  request_uri_parameter_supported = false;
  require_request_uri_registration = false;
  code_challenge_methods_supported = [];
  tls_client_certificate_bound_access_tokens = false;
  revocation_endpoint = "";
  revocation_endpoint_auth_methods_supported = [];
  revocation_endpoint_auth_signing_alg_values_supported = [];
  backchannel_logout_supported = false;
  backchannel_logout_session_supported = false;
  device_authorization_endpoint = "";
  backchannel_token_delivery_modes_supported = [];
  backchannel_authentication_endpoint = "";
  backchannel_authentication_request_signing_alg_values_supported = [];
  require_pushed_authorization_requests = false;
  pushed_authorization_request_endpoint = "";
  mtls_endpoint_aliases = [];
  authorization_response_iss_parameter_supported = false;
}
