-- ===== src/Oidc/Consistent.antt =====
-- What a configuration that was made from the command line holds.
use mathlib.Core.Path.{subst}
use elephantine.Prelude.{
  sym, ◌≡◌, String, false, List, [], ◌∷◌, Option, none, some, arith, str_eq, inl, inr,
}
use elephantine.Fault.{Fault, Result, ok, Result-cases}
use elephantine.Files.{Codec, Resource}
use elephantine.Secrets.{ParameterSource, resolve_parameter}
use elephantine.Secrets.Credentials.{ensure_credentials_lem}
use elephantine.Oidc.{
  TokenSource, Authentication, open_id_connect_config_from_url, new_token_source,
  wanted_token_source, authentication_config_from_cli, no_credentials,
}
use elephantine.Oidc.Config.{OpenIdConnectConfig}

module _ {S : Type 0} (flag : String → String) (get_value : ParameterSource S) where
  -- A token source is there exactly for scopes, has them, the endpoint that was discovered, and
  -- credentials that are not empty.
  abbrev pub IsSourceFor : OpenIdConnectConfig → List String → Option TokenSource → Type 0
  IsSourceFor oidc [] ts = ts ≡ none
  IsSourceFor oidc (scope ∷ scopes) none = ⊥
  IsSourceFor oidc (scope ∷ scopes) (some ts) =
      (ts.scopes ≡ scope ∷ scopes)
      × (ts.token_url ≡ oidc.token_endpoint)
      × (str_eq ts.client_id "" ≡ false)
      × (str_eq ts.client_secret "" ≡ false)

  wanted_token_source-IsSourceFor :
      (oidc : OpenIdConnectConfig) (src : S) (scopes : List String) (ts : Option TokenSource)
      → (wanted_token_source flag get_value oidc src scopes).0 ≡ ok ts
      → IsSourceFor oidc scopes ts
  unfolding wanted_token_source new_token_source
  wanted_token_source-IsSourceFor oidc src [] ts h = ground arith
  wanted_token_source-IsSourceFor oidc src (scope ∷ scopes) ts h =
      let valid = ensure_credentials_lem flag get_value no_credentials src src in
      ground (arith, valid.0)

  -- A configuration that is returned goes by the discovery document that was read from the address of
  -- the parameter "oidc-config": its keys could be retrieved from the address that the document names,
  -- tokens are checked for its issuer, and there is a token source exactly if scopes were asked for,
  -- with those scopes, the document's token endpoint, and a client id and a secret that are not empty.
  pub authentication_config_from_cli-IsConsistent :
      (json : Codec OpenIdConnectConfig) (get : String → Result Resource)
      (jwks : String → Option Fault) (src : S) (scopes : List String) (conf : Authentication)
      → (authentication_config_from_cli flag get_value json get jwks src scopes).0 ≡ ok conf
      → ((well_known : String)
          → (resolve_parameter flag get_value src "oidc-config").0 ≡ ok well_known
          → open_id_connect_config_from_url json get well_known ≡ ok conf.oidc_config)
        × (jwks conf.oidc_config.jwks_uri ≡ none)
        × (conf.auth_parser.jwks_url ≡ conf.oidc_config.jwks_uri)
        × (conf.auth_parser.issuer ≡ conf.oidc_config.issuer)
        × IsSourceFor conf.oidc_config scopes conf.token_source
  unfolding authentication_config_from_cli
  authentication_config_from_cli-IsConsistent json get jwks src scopes conf h =
      elim (Result-cases (resolve_parameter flag get_value src "oidc-config").0) [
        | inr (e, unresolved) ↦ absurd (ground arith)
        | inl (well_known, resolved) ↦
            elim (Result-cases (open_id_connect_config_from_url json get well_known)) [
              | inr (e, unread) ↦ absurd (ground arith)
              | inl (oidc, found) ↦
                  let src1 = (resolve_parameter flag get_value src "oidc-config").1 in
                  elim (Result-cases (wanted_token_source flag get_value oidc src1 scopes).0) [
                    | inr (e, unmade) ↦ absurd (ground arith)
                    | inl (ts, made) ↦
                        let sound = wanted_token_source-IsSourceFor oidc src1 scopes ts made in
                        let parts : (jwks oidc.jwks_uri ≡ none)
                            × (conf.oidc_config ≡ oidc)
                            × (conf.token_source ≡ ts)
                            × (conf.auth_parser.jwks_url ≡ oidc.jwks_uri)
                            × (conf.auth_parser.issuer ≡ oidc.issuer) =
                          ground arith in
                        (
                          λ w r. ground arith,
                          ground arith,
                          ground arith,
                          ground arith,
                          subst (λ o. IsSourceFor o scopes conf.token_source) (sym parts.1)
                              (subst (IsSourceFor oidc scopes) (sym parts.2) sound),
                        )
                  ]
            ]
      ]
