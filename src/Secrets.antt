-- ===== src/Secrets.antt =====
-- Parameters that are resolved at run time: parameters.go, the cached reads of vault.go, lazyssm.go's
-- lazy client, and the credentials of oidc.go.
pub mod Cached
pub mod Credentials
mod Tests
use elephantine.Prelude.{
  ℕ, String, Bool, true, false, List, [], ◌∷◌, Option, none, some, if◌then◌else◌, str_eq, cut,
  ◌+++◌, map,
}
use elephantine.Prelude.Lists.{lookup, insert}
use elephantine.Fault
use elephantine.Fault.{Fault, Result, ok, err}

-- A ParameterSource: reading a parameter may change the source, which caches.
abbrev pub ParameterSource : Type 0 → Type 0
ParameterSource S = S → String → Result String × S

unfoldable pub no_parameter_source : {S : Type 0} → ParameterSource S
no_parameter_source src name = (err (Fault.text "no parameter source configured"), src)

-- Which source a name stands for.
pub data SourceKind : Type 0 where
  no_source lazy_ssm vault : SourceKind

unfoldable pub get_parameter_source : String → Result SourceKind
get_parameter_source name =
    if str_eq name ""
    then ok no_source
    else if str_eq name "ssm"
    then ok lazy_ssm
    else if str_eq name "vault"
    then ok vault
    else err (Fault.text "unknown parameter source")

-- ResolveParameter: `flag` is cli.Context.String.
unfoldable pub resolve_parameter :
    {S : Type 0} → (String → String) → ParameterSource S → S → String → Result String × S
resolve_parameter flag get_value src name =
    let param_name = flag (name +++ "-parameter") in
    if str_eq param_name ""
    then (ok (flag name), src)
    else let (result, after) = get_value src param_name in
      (
        elim result [
          | ok value ↦ ok value
          | err e ↦ err (Fault.wrap "failed to fetch parameter value" e)
        ],
        after,
      )

-- The values of a secret, and those of all that were read.
abbrev pub Secret : Type 0
Secret = List (String × String)

abbrev pub Parameters : Type 0
Parameters = List (String × Secret)

-- A value in the KV store: a string, or another whose print by %v is taken.
pub data Value : Type 0 where
  string other : String → Value

abbrev pub text_of : String × Value → String × String
text_of (k, string s) = (k, s)
text_of (k, other s) = (k, s)

-- Vault.dataMapFromEntry. `read` is the KV store of the vault's client.
unfoldable pub data_map_from_entry :
    (String → Result (List (String × Value))) → String → Result Secret
data_map_from_entry read path = elim (read path) [
  | err e ↦ err (Fault.wrap "failed to read from KV store" e)
  | ok entries ↦ ok (map text_of entries)
]

abbrev pub value_of : String → Secret → Result String
value_of key values = elim (lookup key values) [
  | none ↦ err (Fault.text "no key")
  | some value ↦ ok value
]

-- Vault.GetParameterValue.
unfoldable pub get_parameter_value :
    (String → Result (List (String × Value))) → ParameterSource Parameters
get_parameter_value read parameters name =
    let (path, key, found) = cut "" b':' name in
    elim found [
      | false ↦ (err (Fault.text "missing ':key' qualifier in name"), parameters)
      | true ↦ elim (lookup path parameters) [
        | some values ↦ (value_of key values, parameters)
        | none ↦ elim (data_map_from_entry read path) [
          | err e ↦ (err e, parameters)
          | ok d ↦ (value_of key d, insert path d parameters)
        ]
      ]
    ]

-- LazySSM.GetParameterValue. The source is the client, once there is one.
unfoldable pub get_ssm_value :
    {Client : Type 0}
    → Result Client
    → (Client → String → Result String)
    → ParameterSource (Option Client)
get_ssm_value load get none name = elim load [
  | err e ↦ (err (Fault.wrap "failed to load AWS SDK config" e), none)
  | ok client ↦ (
    elim (get client name) [
      | ok v ↦ ok v
      | err e ↦ err (Fault.wrap "error response from AWS SSM" e)
    ],
    some client,
  )
]
get_ssm_value load get (some client) name = (
  elim (get client name) [ ok v ↦ ok v | err e ↦ err (Fault.wrap "error response from AWS SSM" e) ],
  some client,
)

-- AuthenticationConfig, without the parts that are only read.
pub record AuthenticationConfig : Type 0 where
  pub cred_err : Option Fault
  pub client_id : String
  pub client_secret : String

module _ {S : Type 0} (flag : String → String) (get_value : ParameterSource S) where
  -- resolveCredentials: the error, the configuration and the source after it.
  unfoldable pub resolve_credentials :
      AuthenticationConfig → S → Option Fault × AuthenticationConfig × S
  unfolding resolve_parameter
  resolve_credentials conf src =
      let (client_id, src1) = resolve_parameter flag get_value src "client-id" in
      elim client_id [
        | err e ↦ (some (Fault.wrap "resolve client id parameter" e), conf, src1)
        | ok id ↦
            if str_eq id ""
            then (some (Fault.text "missing client ID"), conf, src1)
            else let (client_secret, src2) =
                resolve_parameter flag get_value src1 "client-secret" in
              elim client_secret [
                | err e ↦ (some (Fault.wrap "resolve client secret parameter" e), conf, src2)
                | ok secret ↦
                    if str_eq secret ""
                    then (some (Fault.text "missing client secret"), conf, src2)
                    else (none, record conf { client_id = id; client_secret = secret }, src2)
              ]
      ]

  -- ensureCredentials, under the mutex: an error is kept for good.
  unfoldable pub ensure_credentials :
      AuthenticationConfig → S → Option Fault × AuthenticationConfig × S
  unfolding resolve_credentials
  ensure_credentials conf src = elim conf.cred_err [
    | some e ↦ (some e, conf, src)
    | none ↦
        let (result, after, src') = resolve_credentials conf src in
        elim result [
          | none ↦ (none, after, src')
          | some e ↦
              let kept = Fault.wrap "resolve credentials" e in
              (some kept, record after { cred_err = some kept }, src')
        ]
  ]
