-- ===== src/Oidc/Flags.antt =====
-- Which flags the authentication of a service depends on.
use elephantine.Prelude.{◌≡◌, refl, String, List, [], ◌∷◌, Option, arith, inl, inr, ◌+++◌}
use elephantine.Prelude.Lists.{All}
use elephantine.Fault.{Fault, Result, Result-cases}
use elephantine.Files.{Codec, Resource}
use elephantine.Secrets.{
  ParameterSource, AuthenticationConfig, resolve_parameter, resolve_credentials, ensure_credentials,
}
use elephantine.Oidc.{
  StringFlag, authentication_cli_flags, new_token_source, wanted_token_source,
  authentication_config_from_cli, no_credentials, open_id_connect_config_from_url,
}
use elephantine.Oidc.Config.{OpenIdConnectConfig}

-- Two command lines that give each declared flag the same value.
unfoldable pub Agree : (f g : String → String) → Type 0
unfolding authentication_cli_flags
Agree f g = All (λ (flag : StringFlag). f flag.name ≡ g flag.name) authentication_cli_flags

module _ {S : Type 0} (f g : String → String) (get_value : ParameterSource S) where
  resolve_parameter-agree :
      (name : String) (src : S)
      → f (name +++ "-parameter") ≡ g (name +++ "-parameter")
      → f name ≡ g name
      → resolve_parameter f get_value src name ≡ resolve_parameter g get_value src name
  unfolding resolve_parameter
  resolve_parameter-agree name src parameter own = rw (parameter, own) refl

  resolve_credentials-Agree :
      Agree f g
      → (conf : AuthenticationConfig) (src : S)
      → resolve_credentials f get_value conf src ≡ resolve_credentials g get_value conf src
  unfolding resolve_credentials authentication_cli_flags Agree
  resolve_credentials-Agree (url, (urlp, (audience, (prefix, (id, (idp, (secret, (secretp, _))))))))
        conf src =
      let first = resolve_parameter-agree "client-id" src idp id in
      let second =
        resolve_parameter-agree "client-secret" (resolve_parameter g get_value src "client-id").1
          secretp secret in
      ground arith

  ensure_credentials-Agree :
      Agree f g
      → (conf : AuthenticationConfig) (src : S)
      → ensure_credentials f get_value conf src ≡ ensure_credentials g get_value conf src
  unfolding ensure_credentials
  ensure_credentials-Agree agree conf src = ground (arith, resolve_credentials-Agree agree conf src)

  wanted_token_source-Agree :
      Agree f g
      → (oidc : OpenIdConnectConfig) (src : S) (scopes : List String)
      → wanted_token_source f get_value oidc src scopes
        ≡ wanted_token_source g get_value oidc src scopes
  unfolding wanted_token_source new_token_source
  wanted_token_source-Agree agree oidc src [] = refl
  wanted_token_source-Agree agree oidc src (scope ∷ scopes) =
      ground (arith, ensure_credentials-Agree agree no_credentials src)

  -- Everything that the configuration reads of the command line is declared by
  -- AuthenticationCLIFlags: two command lines that agree on the declared flags give the same
  -- configuration, or the same error, and read the parameter source alike.
  pub authentication_config_from_cli_declared :
      (json : Codec OpenIdConnectConfig) (get : String → Result Resource)
      (jwks : String → Option Fault) (src : S) (scopes : List String)
      → Agree f g
      → authentication_config_from_cli f get_value json get jwks src scopes
        ≡ authentication_config_from_cli g get_value json get jwks src scopes
  unfolding authentication_config_from_cli authentication_cli_flags Agree
  authentication_config_from_cli_declared json get jwks src scopes agree =
      let (url, (urlp, (audience, (prefix, _)))) = agree in
      let parameter = resolve_parameter-agree "oidc-config" src urlp url in
      let src1 = (resolve_parameter g get_value src "oidc-config").1 in
      elim (Result-cases (resolve_parameter g get_value src "oidc-config").0) [
        | inr (e, unresolved) ↦ ground arith
        | inl (well_known, resolved) ↦
            elim (Result-cases (open_id_connect_config_from_url json get well_known)) [
              | inr (e, unread) ↦ ground arith
              | inl (oidc, found) ↦ ground (arith, wanted_token_source-Agree agree oidc src1 scopes)
            ]
      ]
