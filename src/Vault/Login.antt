-- ===== src/Vault/Login.antt =====
-- NewVault (vault.go) and the logins that it tries: the token that the client was made with, the token
-- file, and the service account of Kubernetes. What the machine and the Vault API answer with is an
-- argument.
use elephantine.Prelude.{ℕ, String, Bool, true, false, Option, none, some, if◌then◌else◌, str_eq}
use elephantine.Fault.{Fault, Result, ok, err}
use elephantine.Vault.{Vault, Secret}

-- os and filepath, as they answer while the vault is made: `stat` is whether the path is a directory.
pub record Machine : Type 0 where
  pub getenv : String → String
  pub user_home_dir : Result String
  pub join : String → String → String
  pub stat : String → Result Bool
  pub read_file : String → Result String
  pub now : ℕ

-- vault/api and its Kubernetes login. `login` is Auth().Login, with the client's token after it.
pub record VaultApi : Type 1 where
  pub Method : Type 0
  -- The token of the client that NewClient makes.
  pub new_client : Result String
  pub new_kubernetes_auth : (role token_path : String) → Result Method
  pub login : Method → (token : String) → Result Secret × String

abbrev or_default : String → String → String
or_default default s = if str_eq s "" then default else s

abbrev pub token_path : Machine → String
token_path m =
    or_default "/var/run/secrets/kubernetes.io/serviceaccount/token"
      (m.getenv "SERVICE_ACCOUNT_TOKEN")

abbrev pub auth_role : Machine → String
auth_role m = or_default "deploy" (m.getenv "VAULT_AUTH_ROLE")

unfoldable pub try_token_file : Machine → Vault → Bool × Vault
try_token_file m v = elim m.user_home_dir [
  | err e ↦ (false, v)
  | ok home ↦
      let token_file = m.join home ".vault-token" in
      elim (m.stat token_file) [
        | err e ↦ (false, v)
        | ok directory ↦ if directory then (false, v) else elim (m.read_file token_file) [
          | err e ↦ (false, v)
          | ok token ↦ (true, record v { token = token })
        ]
      ]
]

module _ (api : VaultApi) where
  unfoldable pub kubernetes_auth : Machine → Vault → Option Fault × Vault
  kubernetes_auth m v = elim (api.new_kubernetes_auth (auth_role m) (token_path m)) [
    | err e ↦ (some (Fault.wrap "initialize Kubernetes auth method" e), v)
    | ok method ↦
        let (secret, token) = api.login method v.token in
        elim secret [
          | err e ↦ (some (Fault.wrap "log in to vault" e), record v { token = token })
          | ok login ↦
              (none, record v { token = token; start_of_lease = m.now; vault_login = some login })
        ]
  ]

  unfoldable pub auth_chain : Machine → Vault → Option Fault × Vault
  unfolding kubernetes_auth try_token_file
  auth_chain m v =
      if str_eq v.token ""
      then (let (found, after) = try_token_file m v in
          if found
          then (none, after)
          else let (e, after') = kubernetes_auth m after in
            (
              elim e [ none ↦ none | some e ↦ some (Fault.wrap "kubernetes auth failed" e) ],
              after',
            ))
      else (none, v)

  -- The vault before a login.
  abbrev pub made_with : String → Vault
  made_with token = record { token = token; stop = none; start_of_lease = 0; vault_login = none }

  unfoldable pub new_vault : Machine → Result Vault
  unfolding auth_chain
  new_vault m = elim api.new_client [
    | err e ↦ err (Fault.wrap "create vault client" e)
    | ok token ↦
        let (e, v) = auth_chain m (made_with token) in elim e [ some e ↦ err e | none ↦ ok v ]
  ]
