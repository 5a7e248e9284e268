-- ===== src/Vault/Renewals.antt =====
-- When keeping a login alive ends, and which token the client then has.
use elephantine.Prelude.{
  ℕ, ◌≡◌, ◌≢◌, ◌↔◌, ◌⊎◌, Bool-cases, refl, String, Bool, true, false, List, [], ◌∷◌, Option, none,
  some, Option-cases, inl, inr, arith,
}
use elephantine.Fault.{Result-cases, ok}
use elephantine.Vault.{
  stop_keep_alive, Vault, Secret, SecretAuth, Renewal, KeepAlive, returned, panicked, going, renew,
  check_login, keep_alive, takes_stop,
}

-- The login's token is the client's, unless the client has a token without a login.
abbrev HasOwnToken : String → Option Secret → Type 0
HasOwnToken token none = Unit {0}
HasOwnToken token (some secret) = elim secret.auth as (λ o. Type 0) [
  | none ↦ ⊥
  | some auth ↦ auth.client_token ≡ token
]

abbrev pub IsLoggedIn : Vault → Type 0
IsLoggedIn v = HasOwnToken v.token v.vault_login

-- Some renewal of the run returned a nil *Secret without an error.
abbrev pub HasNil : List Renewal → Type 0
HasNil [] = ⊥
HasNil (r ∷ later) = (r.secret ≡ ok none) ⊎ HasNil later

-- Where the keeping alive can stand: with an error and the login and token that were valid last, or
-- going on with those of the last renewal; with no error only where there is no login; or in a panic,
-- after a renewal that returned nil.
abbrev pub IsKept : Bool → List Renewal → KeepAlive → Type 0
IsKept logged_in run panicked = (logged_in ≡ true) × HasNil run
IsKept logged_in run (going v) = (v.vault_login ≢ none) × IsLoggedIn v × (v.stop ≡ none)
IsKept logged_in run (returned e v) =
    ((e ≡ none) ↔ (v.vault_login ≡ none))
    × IsLoggedIn v
    × ((v.vault_login ≢ none) ↔ (logged_in ≡ true))
    × (v.stop ≡ none)

IsKept-later :
    (logged_in : Bool) (r : Renewal) (later : List Renewal) (k : KeepAlive)
    → IsKept logged_in later k
    → IsKept logged_in (r ∷ later) k
IsKept-later logged_in r later panicked kept = (kept.0, inr kept.1)
IsKept-later logged_in r later (going v) kept = kept
IsKept-later logged_in r later (returned e v) kept = kept

abbrev pub has_login : Vault → Bool
has_login v = elim v.vault_login [ none ↦ false | some s ↦ true ]

-- From a vault with no channel, whose client has the token of its login, KeepAlive panics only after a
-- renewal that returned nil, returns no error exactly if the vault has no login, and at its end, as at
-- every turn, the client has the token of the last login or renewal that was valid.
pub keep_alive-IsKept :
    (v : Vault) (run : List Renewal)
    → IsLoggedIn v
    → v.stop ≡ none
    → IsKept (has_login v) run (keep_alive v run)
unfolding keep_alive check_login renew takes_stop
keep_alive-IsKept v [] own nil = ground arith
keep_alive-IsKept v (r ∷ later) own nil = elim (Result-cases r.secret) [
  | inr (e, failed) ↦ ground arith
  | inl (answer, answered) ↦ elim (Option-cases answer) [
    | inl empty ↦ ground arith
    | inr (secret, renewed) ↦ elim (Option-cases secret.auth) [
      | inl missing ↦ ground arith
      | inr (auth, given) ↦
          let renewed_vault : Vault = record v {
            token = auth.client_token;
            start_of_lease = r.renewed_at;
            vault_login = some secret;
          } in
          let kept = keep_alive-IsKept renewed_vault later (rw given refl) nil in
          ground (arith, IsKept-later true r later (keep_alive renewed_vault later) kept)
    ]
  ]
]

-- The vault has a login that can be renewed.
abbrev pub IsRenewable : Vault → Type 0
IsRenewable v =
    (secret : Secret) × (auth : SecretAuth) × (v.vault_login ≡ some secret)
    × (secret.auth ≡ some auth)
    × (auth.renewable ≡ true)

-- A renewal that is answered without a body.
abbrev pub no_body : ℕ → Renewal
no_body now = record { is_stopped = false; secret = ok none; renewed_at = now }

pub keep_alive-no_body :
    (v : Vault) (now : ℕ) (run : List Renewal)
    → IsLoggedIn v
    → v.stop ≡ none
    → (keep_alive v (no_body now ∷ run) ≡ panicked) ↔ IsRenewable v
unfolding keep_alive check_login renew takes_stop
keep_alive-no_body v now run own nil = elim (Option-cases v.vault_login) [
  | inl out ↦ (λ h. ground arith, λ (secret, auth, at, given, can). cc)
  | inr (secret, at) ↦ elim (Option-cases secret.auth) [
    | inl missing ↦ ground arith
    | inr (auth, given) ↦ elim (Bool-cases auth.renewable) [
      | inl can ↦ (λ h. (secret, auth, at, given, can), λ h. ground arith)
      | inr fixed ↦ (λ h. ground arith, λ (other, a, at', given', can). ground arith)
    ]
  ]
]

pub stop_keep_alive-nil : (v : Vault) → v.stop ≡ none → stop_keep_alive v ≡ none
unfolding stop_keep_alive
stop_keep_alive-nil v nil = ground arith

-- Stop panics on the vault that is left.
abbrev pub PanicsOnStop : KeepAlive → Type 0
PanicsOnStop panicked = Unit {0}
PanicsOnStop (going v) = stop_keep_alive v ≡ none
PanicsOnStop (returned e v) = stop_keep_alive v ≡ none

pub IsKept-PanicsOnStop :
    (logged_in : Bool) (run : List Renewal) (k : KeepAlive)
    → IsKept logged_in run k
    → PanicsOnStop k
unfolding stop_keep_alive
IsKept-PanicsOnStop logged_in run panicked kept = tt
IsKept-PanicsOnStop logged_in run (going v) kept = ground arith
IsKept-PanicsOnStop logged_in run (returned e v) kept = ground arith
