-- ===== src/Vault/Chain.antt =====
-- Which login a new vault has, and how it is kept alive.
use elephantine.Prelude.{◌≡◌, String, false, none, some}
use elephantine.Fault.{ok}
use elephantine.Vault.{Vault, Secret}
use elephantine.Vault.Renewals.{IsLoggedIn}
use elephantine.Vault.Login.{Machine, VaultApi}

-- Auth().Login returns a secret only with a token, which it has given to the client.
pub record IsLogin (api : VaultApi) : Type 0 where
  pub given :
      (method : api.Method) (token : String) (s : Secret)
      → (api.login method token).0 ≡ ok s
      → IsLoggedIn (record {
        token = (api.login method token).1;
        stop = none;
        start_of_lease = 0;
        vault_login = some s;
      })

-- The file ".vault-token" of the home directory, where there is one that can be read.
abbrev pub IsTokenFile : Machine → String → Type 0
IsTokenFile m token =
    (home : String) × (m.user_home_dir ≡ ok home)
    × (m.stat (m.join home ".vault-token") ≡ ok false)
    × (m.read_file (m.join home ".vault-token") ≡ ok token)

abbrev pub HasFile : Machine → Type 0
HasFile m = (token : String) × IsTokenFile m token
