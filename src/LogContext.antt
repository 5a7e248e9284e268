-- ===== src/LogContext.antt =====
-- The values that a request's context carries: the log metadata of log.go and the authentication
-- information of jwt.go. A context is the list of its values, the last set first. The metadata map is
-- shared by all contexts that have it, so it is an address in a heap of maps.
pub mod Keys
mod Tests
use elephantine.Prelude.{
  ℕ, zero, suc, ◌+◌, ◌≡◌, refl, String, Bool, true, false, List, [], ◌∷◌, ◌++◌, Option, none, some,
  if◌then◌else◌, ◌==◌,
}
use elephantine.Prelude.Lists.{insert, length}
use elephantine.Claims.{JwtClaims}

pub record AuthInfo : Type 0 where
  pub token : String
  pub claims : JwtClaims

-- A map[string]any at an address, a *AuthInfo, or a time.Time.
pub data ContextValue : Type 0 where
  metadata : ℕ → ContextValue
  auth : Option AuthInfo → ContextValue
  timestamp : ℕ → ContextValue

abbrev pub Metadata : Type 0
Metadata = List (String × String)

abbrev pub Heap : Type 0
Heap = List Metadata

abbrev pub Context : Type 0
Context = List (ℕ × ContextValue)

-- Both keys are of the type ctxKey, an int.
abbrev pub log_ctx_key : ℕ
log_ctx_key = 1

abbrev pub auth_info_ctx_key : ℕ
auth_info_ctx_key = 1

-- context.WithValue and Context.Value
abbrev pub with_value : ℕ → ContextValue → Context → Context
with_value k v ctx = (k, v) ∷ ctx

unfoldable pub value : Context → ℕ → Option ContextValue
value [] k = none
value ((j, v) ∷ ctx) k = if j == k then some v else value ctx k

abbrev pub read : Heap → ℕ → Option Metadata
read [] a = none
read (m ∷ heap) zero = some m
read (m ∷ heap) (suc a) = read heap a

abbrev pub write : Heap → ℕ → String → String → Heap
write [] a k v = []
write (m ∷ heap) zero k v = insert k v m ∷ heap
write (m ∷ heap) (suc a) k v = m ∷ write heap a k v

-- A type assertion on the value of a key.
abbrev pub as_metadata : Option ContextValue → Option ℕ
as_metadata (some (metadata a)) = some a
as_metadata _ = none

abbrev pub as_auth : Option ContextValue → Option AuthInfo
as_auth (some (auth info)) = info
as_auth _ = none

unfoldable pub with_log_metadata : Context → Heap → Context × Heap
with_log_metadata ctx heap = (with_value log_ctx_key (metadata (length heap)) ctx, heap ++ [] ∷ [])

unfoldable pub get_log_metadata : Context → Heap → Option Metadata
unfolding value
get_log_metadata ctx heap = elim (as_metadata (value ctx log_ctx_key)) [
  | none ↦ none
  | some a ↦ read heap a
]

unfoldable pub set_log_metadata : Context → String → String → Heap → Heap
unfolding value
set_log_metadata ctx k v heap = elim (as_metadata (value ctx log_ctx_key)) [
  | none ↦ heap
  | some a ↦ write heap a k v
]

unfoldable pub set_auth_info : Context → Option AuthInfo → Context
set_auth_info ctx info = with_value auth_info_ctx_key (auth info) ctx

-- The flag is `ok && info != nil`.
unfoldable pub get_auth_info : Context → Option AuthInfo
unfolding value
get_auth_info ctx = as_auth (value ctx auth_info_ctx_key)
