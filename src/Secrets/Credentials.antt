-- ===== src/Secrets/Credentials.antt =====
-- The credentials of a token source.
use elephantine.Prelude.{◌≡◌, ◌≢◌, String, false, none, arith, str_eq}
use elephantine.Secrets.{
  ParameterSource, AuthenticationConfig, resolve_credentials, ensure_credentials,
}

module _ {S : Type 0} (flag : String → String) (get_value : ParameterSource S) where
  resolve_credentials_lem :
      (conf : AuthenticationConfig) (src : S)
      → let result = resolve_credentials flag get_value conf src in
        (result.0 ≡ none
          → (str_eq result.1.client_id "" ≡ false)
            × (str_eq result.1.client_secret "" ≡ false)
            × (result.1.cred_err ≡ conf.cred_err))
        × (result.0 ≢ none → result.1 ≡ conf)
  unfolding resolve_credentials
  resolve_credentials_lem conf src = (λ h. ground arith, λ h. ground arith)

  -- Credentials are resolved both or neither: without an error the configuration holds a client id
  -- and a secret, neither of them empty, and keeps no error; with one it keeps the id and the secret
  -- that it had. The first error is kept: asked again, whatever the source could answer by then, the
  -- configuration returns that error, does not read the source, and does not change.
  pub ensure_credentials_lem :
      (conf : AuthenticationConfig) (src later : S)
      → let result = ensure_credentials flag get_value conf src in
        (result.0 ≡ none
          → (str_eq result.1.client_id "" ≡ false)
            × (str_eq result.1.client_secret "" ≡ false)
            × (result.1.cred_err ≡ none))
        × (result.0 ≢ none
            → (result.1.client_id ≡ conf.client_id)
              × (result.1.client_secret ≡ conf.client_secret)
              × (ensure_credentials flag get_value result.1 later ≡ (result.0, result.1, later)))
  unfolding ensure_credentials
  ensure_credentials_lem conf src later = (
    λ h. ground (arith, resolve_credentials_lem conf src),
    λ h. ground (arith, resolve_credentials_lem conf src),
  )
