-- ===== src/Vault.antt =====
-- vault.go: Vault.KeepAlive. A run is the list of what each renewal returned, and when; a run that has
-- used up its list is still going.
pub mod Renewals
pub mod Login
pub mod Chain
mod Tests
use elephantine.Prelude.{
  ℕ, ◌+◌, ◌*◌, String, Bool, true, false, List, [], ◌∷◌, Option, none, some, if◌then◌else◌, str_eq,
  ◌||◌,
}
use elephantine.Fault
use elephantine.Fault.{Fault, Result, ok, err}

-- vault.SecretAuth and vault.Secret, as far as they are read.
pub record SecretAuth : Type 0 where
  pub client_token : String
  pub renewable : Bool

pub record Secret : Type 0 where
  pub auth : Option SecretAuth
  pub lease_duration : ℕ

-- `token` is that of the client. The channel `stop` is nil as `none`, and else closed or not.
pub record Vault : Type 0 where
  pub token : String
  pub stop : Option Bool
  pub start_of_lease : ℕ
  pub vault_login : Option Secret

-- `is_stopped` is whether a channel that is not nil is closed before the timer. `secret` is what
-- RenewSelf returns: a *Secret, which is nil as `none` where the answer has no body, or an error.
pub record Renewal : Type 0 where
  pub is_stopped : Bool
  pub secret : Result (Option Secret)
  pub renewed_at : ℕ

-- What KeepAlive returns, with the vault it leaves. It panics on a login without its Auth, and on a
-- renewal that returned a nil *Secret without an error.
pub data KeepAlive : Type 0 where
  returned : Option Fault → Vault → KeepAlive
  panicked : KeepAlive
  going : Vault → KeepAlive

-- What follows a renewal.
unfoldable pub renew : Vault → Renewal → KeepAlive
renew v r = elim r.secret [
  | err e ↦ returned (some (Fault.wrap "renew Vault login lease" e)) v
  | ok none ↦ panicked
  | ok (some secret) ↦ elim secret.auth [
    | none ↦ returned (some (Fault.text "no token returned by renewal")) v
    | some auth ↦
        if str_eq auth.client_token ""
        then returned (some (Fault.text "no token returned by renewal")) v
        else going (record v {
          token = auth.client_token;
          start_of_lease = r.renewed_at;
          vault_login = some secret;
        })
  ]
]

-- The test at the top of the loop: `none` to go on to the renewal.
unfoldable pub check_login : Vault → Option KeepAlive
check_login v = elim v.vault_login [
  | none ↦ some (returned none v)
  | some login ↦ elim login.auth [
    | none ↦ some panicked
    | some auth ↦
        if auth.renewable
        then none
        else some (returned (some (Fault.text "vault login is not renewable")) v)
  ]
]

-- The select between `stop` and the timer: whether it takes `stop`, as it never does of a nil channel.
unfoldable pub takes_stop : Vault → Renewal → Bool
takes_stop v r = elim v.stop [ none ↦ false | some closed ↦ closed || r.is_stopped ]

unfoldable pub keep_alive : Vault → List Renewal → KeepAlive
keep_alive v [] = elim (check_login v) [ some outcome ↦ outcome | none ↦ going v ]
keep_alive v (r ∷ later) = elim (check_login v) [
  | some outcome ↦ outcome
  | none ↦ if takes_stop v r then returned none v else elim (renew v r) [
    | going v' ↦ keep_alive v' later
    | returned e v' ↦ returned e v'
    | panicked ↦ panicked
  ]
]

-- Stop: `none` where it panics, of a nil channel and of one that is closed.
unfoldable pub stop_keep_alive : Vault → Option Vault
stop_keep_alive v = elim v.stop [
  | none ↦ none
  | some closed ↦ if closed then none else some (record v { stop = some true })
]
