-- ===== src/Vault/Tests.antt =====
-- A login that is renewed once, and then not.
use elephantine.Prelude.{
  ◌≡◌, if◌then◌else◌, str_eq, ◌+++◌, String, true, List, [], ◌∷◌, some, none, refl,
}
use elephantine.Fault
use elephantine.Fault.{ok, err}
use elephantine.Vault.{Vault, Secret, Renewal, returned, keep_alive, check_login, renew, takes_stop}
use elephantine.Vault.Login.{Machine, VaultApi}

abbrev secret : String → Secret
secret token = record {
  auth = some (record { client_token = token; renewable = true });
  lease_duration = 60;
}

abbrev logged_in : Vault
logged_in = record {
  token = "t1";
  stop = none;
  start_of_lease = 0;
  vault_login = some (secret "t1");
}

abbrev run : List Renewal
run =
    record { is_stopped = true; secret = ok (some (secret "t2")); renewed_at = 20 }
    ∷ record { is_stopped = true; secret = err (Fault.text "sealed"); renewed_at = 40 }
    ∷ []

ends :
    keep_alive logged_in run
    ≡ returned (some (Fault.wrap "renew Vault login lease" (Fault.text "sealed"))) (record {
      token = "t2";
      stop = none;
      start_of_lease = 20;
      vault_login = some (secret "t2");
    })
unfolding keep_alive check_login renew takes_stop
ends = refl

-- A pod with a service account, and no token.
abbrev pod : Machine
pod = record {
  getenv = λ name. if str_eq name "VAULT_AUTH_ROLE" then "writer" else "";
  user_home_dir = err (Fault.text "$HOME is not defined");
  join = λ directory name. directory +++ "/" +++ name;
  stat = λ path. err (Fault.text "no such file");
  read_file = λ path. err (Fault.text "no such file");
  now = 5;
}

abbrev api : VaultApi
api = record {
  Method = String;
  new_client = ok "";
  new_kubernetes_auth = λ role path. ok (role +++ "@" +++ path);
  login = λ method token. (ok (secret "t1"), "t1");
}

abbrev new : Vault
new = record { token = "t1"; stop = none; start_of_lease = 5; vault_login = some (secret "t1") }
