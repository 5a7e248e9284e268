-- ===== src/Oidc.antt =====
-- oidc.go: the authentication of a service from its command line. Reading of the parameters and of the
-- credentials is that of `Secrets`, and of the discovery document that of `Files`.
pub mod Config
pub mod Flags
pub mod Consistent
mod Tests
use elephantine.Prelude.{ℕ, String, Bool, List, [], ◌∷◌, Option, none, some, if◌then◌else◌}
use elephantine.Fault
use elephantine.Fault.{Fault, Result, ok, err}
use elephantine.Files.{Codec, Resource, unmarshal_http_resource}
use elephantine.Secrets.{
  ParameterSource, AuthenticationConfig, resolve_parameter, ensure_credentials,
}
use Config.{OpenIdConnectConfig, empty_config}

unfoldable pub open_id_connect_config_from_url :
    Codec OpenIdConnectConfig → (String → Result Resource) → String → Result OpenIdConnectConfig
unfolding unmarshal_http_resource
open_id_connect_config_from_url json get well_known =
    let (out, conf, _) = unmarshal_http_resource json get well_known empty_config in
    elim out [ some e ↦ err e | none ↦ ok conf ]

-- A cli.StringFlag.
pub record StringFlag : Type 0 where
  pub name : String
  pub env_vars : List String

unfoldable pub authentication_cli_flags : List StringFlag
authentication_cli_flags =
    record { name = "oidc-config"; env_vars = "OIDC_CONFIG" ∷ [] }
    ∷ record { name = "oidc-config-parameter"; env_vars = "OIDC_CONFIG_PARAMETER" ∷ [] }
    ∷ record { name = "jwt-audience"; env_vars = "JWT_AUDIENCE" ∷ [] }
    ∷ record { name = "jwt-scope-prefix"; env_vars = "JWT_SCOPE_PREFIX" ∷ [] }
    ∷ record { name = "client-id"; env_vars = "CLIENT_ID" ∷ [] }
    ∷ record { name = "client-id-parameter"; env_vars = "CLIENT_ID_PARAMETER" ∷ [] }
    ∷ record { name = "client-secret"; env_vars = "CLIENT_SECRET" ∷ [] }
    ∷ record { name = "client-secret-parameter"; env_vars = "CLIENT_SECRET_PARAMETER" ∷ [] }
    ∷ []

-- clientcredentials.Config, whose token source it is.
pub record TokenSource : Type 0 where
  pub client_id : String
  pub client_secret : String
  pub token_url : String
  pub scopes : List String

-- JWTAuthInfoParserOptions, with the address of the keys.
pub record ParserConfig : Type 0 where
  pub jwks_url : String
  pub issuer : String
  pub audience : String
  pub scope_prefix : String

-- AuthenticationConfig as a whole: `credentials` are its guarded fields.
pub record Authentication : Type 0 where
  pub oidc_config : OpenIdConnectConfig
  pub token_source : Option TokenSource
  pub auth_parser : ParserConfig
  pub credentials : AuthenticationConfig

abbrev pub no_credentials : AuthenticationConfig
no_credentials = record { cred_err = none; client_id = ""; client_secret = "" }

module _ {S : Type 0} (flag : String → String) (get_value : ParameterSource S) where
  unfoldable pub new_token_source :
      OpenIdConnectConfig
      → AuthenticationConfig
      → S
      → List String
      → Result TokenSource × AuthenticationConfig × S
  new_token_source oidc conf src scopes =
      let (e, after, src') = ensure_credentials flag get_value conf src in
      elim e [
        | some e ↦ (err e, after, src')
        | none ↦ (
          ok (record {
            client_id = after.client_id;
            client_secret = after.client_secret;
            token_url = oidc.token_endpoint;
            scopes = scopes;
          }),
          after,
          src',
        )
      ]

  -- `if len(scopes) != 0`: the token source, and the credentials and parameter source after it.
  unfoldable pub wanted_token_source :
      OpenIdConnectConfig → S → List String → Result (Option TokenSource) × AuthenticationConfig × S
  unfolding new_token_source
  wanted_token_source oidc src [] = (ok none, no_credentials, src)
  wanted_token_source oidc src (scope ∷ scopes) =
      let (made, after, src') = new_token_source oidc no_credentials src (scope ∷ scopes) in
      (
        elim made [ err e ↦ err (Fault.wrap "create token source" e) | ok ts ↦ ok (some ts) ],
        after,
        src',
      )

  module _ (json : Codec OpenIdConnectConfig) (get : String → Result Resource)
      (jwks : String → Option Fault) where
    -- `jwks` is the error of NewJWKSAuthInfoParser, by the address of the keys.
    unfoldable pub authentication_config_from_cli : S → List String → Result Authentication × S
    unfolding resolve_parameter
    authentication_config_from_cli src scopes =
        let (url, src1) = resolve_parameter flag get_value src "oidc-config" in
        elim url [
          | err e ↦ (err (Fault.wrap "resolve OIDC config parameter" e), src1)
          | ok well_known ↦ elim (open_id_connect_config_from_url json get well_known) [
            | err e ↦ (err (Fault.wrap "load OIDC config from" e), src1)
            | ok oidc ↦
                let (made, credentials, src2) = wanted_token_source oidc src1 scopes in
                elim made [
                  | err e ↦ (err e, src2)
                  | ok ts ↦ elim (jwks oidc.jwks_uri) [
                    | some e ↦ (err (Fault.wrap "retrieve JWKS" e), src2)
                    | none ↦ (
                      ok (record {
                        oidc_config = oidc;
                        token_source = ts;
                        auth_parser = record {
                          jwks_url = oidc.jwks_uri;
                          issuer = oidc.issuer;
                          audience = flag "jwt-audience";
                          scope_prefix = flag "jwt-scope-prefix";
                        };
                        credentials = credentials;
                      }),
                      src2,
                    )
                  ]
                ]
          ]
        ]
