-- ===== src/Auth/Hook.antt =====
-- What a service makes of a request's authorization: the hook RequestRouted that
-- SetAuthInfoValidation installs (api_server.go), and RequireAnyScope (jwt.go).
use elephantine.Prelude.{
  ◌≡◌, ◌≢◌, ◌↔◌, refl, String, Bool, true, false, List, [], ◌∷◌, ◌++◌, Option, none, some, arith,
  inl, inr, Option-cases, ap, sym, ◌∙◌, if◌then◌else◌, join, ◌+++◌,
}
use elephantine.Prelude.Lists.{Exists}
use elephantine.Fault
use elephantine.Fault.{Fault, Result, ok, err}
use elephantine.Claims.{JwtClaims, scopes, has_any_scope, has_any_scope_iff}
use elephantine.LogContext.{
  Context, Heap, AuthInfo, value, auth_info_ctx_key, set_auth_info, get_auth_info, set_log_metadata,
}

-- parser.AuthInfoFromHeader returns a *AuthInfo and an error, one of them nil: `ok none` is where both
-- are.
abbrev pub Answer : Type 0
Answer = Result (Option AuthInfo)

-- The context, the metadata maps, and the error.
pub record Routed : Type 0 where
  pub context : Context
  pub heap : Heap
  pub error : Option Fault

abbrev refused : Context → Heap → Fault → Routed
refused ctx heap e = record { context = ctx; heap = heap; error = some e }

-- `auth != nil`: the context gets the information, and its metadata map the subject.
abbrev admit : Option AuthInfo → Context → Heap → Routed
admit none ctx heap = record { context = ctx; heap = heap; error = none }
admit (some auth) ctx heap =
    let authed = set_auth_info ctx (some auth) in
    record {
      context = authed;
      heap = set_log_metadata authed "sub" auth.claims.subject heap;
      error = none;
    }

-- `headers` is what twirp.HTTPRequestHeaders finds: the Authorization header that the middleware
-- put there; `parse` is the parser, and ServiceAuthRequired is true.
unfoldable pub request_routed :
    (String → Answer) → (require_auth : Bool) → Option String → Context → Heap → Routed
request_routed parse require_auth headers ctx heap = elim headers [
  | none ↦ refused ctx heap (Fault.twirp "internal" "missing HTTP header context information")
  | some authorization ↦ elim (parse authorization) [
    | err e ↦
        if Fault.is e Fault.Sentinel.no_authorization
        then (if require_auth
            then refused ctx heap (Fault.twirp "unauthenticated" "authentication required")
            else admit none ctx heap)
        else refused ctx heap (Fault.twirp "permission_denied" "invalid authorization")
    | ok none ↦ refused ctx heap (Fault.twirp "internal" "invalid auth info parser response")
    | ok (some auth) ↦ admit (some auth) ctx heap
  ]
]

unfoldable pub require_any_scope : Context → List String → Result AuthInfo
require_any_scope ctx names = elim (get_auth_info ctx) [
  | none ↦ err (Fault.twirp "unauthenticated" "no anonymous access allowed")
  | some auth ↦
      if has_any_scope auth.claims names
      then ok auth
      else err (
          Fault.twirp "permission_denied"
            ("one of the the scopes " +++ join names ", " +++ " is required"))
]

module _ (parse : String → Answer) (require_auth : Bool) (ctx : Context) (heap : Heap)
    (authorization : String) where
  abbrev routed : Routed
  routed = request_routed parse require_auth (some authorization) ctx heap

  -- Why a request is let through.
  abbrev pub IsAdmitted : Answer → Context → Type 0
  IsAdmitted (ok none) after = ⊥
  IsAdmitted (ok (some auth)) after = get_auth_info after ≡ some auth
  IsAdmitted (err e) after =
      (Fault.is e Fault.Sentinel.no_authorization ≡ true) × (require_auth ≡ false) × (after ≡ ctx)

  -- A request is let through only with the information that the parser returned for its header, which
  -- the service then finds in the context, or, where authentication is optional, with no
  -- authorization at all and the context as it was.
  pub request_routed-IsAdmitted :
      routed.error ≡ none → IsAdmitted (parse authorization) routed.context
  unfolding request_routed set_auth_info get_auth_info
  request_routed-IsAdmitted h = ground arith

-- The subject is never logged: whatever the headers are and the parser answers, the hook leaves the
-- log metadata as it was.
pub request_routed-unlogged :
    (parse : String → Answer) (require_auth : Bool) (ctx : Context) (heap : Heap)
    (headers : Option String)
    → (request_routed parse require_auth headers ctx heap).heap ≡ heap
unfolding request_routed set_auth_info set_log_metadata
request_routed-unlogged parse require_auth ctx heap headers = ground arith

-- `later` holds none of the authentication information, nor log metadata, which has the same key.
abbrev pub HasNoAuth : Context → Type 0
HasNoAuth [] = Unit {0}
HasNoAuth ((k, v) ∷ later) = (k ≢ auth_info_ctx_key) × HasNoAuth later

value-later :
    (later ctx : Context)
    → HasNoAuth later
    → value (later ++ ctx) auth_info_ctx_key ≡ value ctx auth_info_ctx_key
unfolding value
value-later [] ctx apart = refl
value-later ((k, v) ∷ later) ctx apart = ground (arith, value-later later ctx apart.1)

get_auth_info-set_auth_info :
    (later ctx : Context) (info : Option AuthInfo)
    → HasNoAuth later
    → get_auth_info (later ++ set_auth_info ctx info) ≡ info
unfolding get_auth_info set_auth_info value
get_auth_info-set_auth_info later ctx info apart =
    rw (value-later later (set_auth_info ctx info) apart) refl

-- One of the words of the token's scope is one of the names.
abbrev pub HasScope : JwtClaims → List String → Type 0
HasScope claims names = Exists (λ word. Exists (λ name. word ≡ name) names) (scopes claims)

-- In a context in which authentication information was set, and after it only values of other keys, a
-- call that demands scopes proceeds exactly if the information was not nil and one of the words of its
-- claims' scope is one of those scopes, and then with that information.
pub require_any_scope_iff :
    (later ctx : Context) (info : Option AuthInfo) (names : List String) (found : AuthInfo)
    → HasNoAuth later
    → (require_any_scope (later ++ set_auth_info ctx info) names ≡ ok found)
      ↔ ((info ≡ some found) × HasScope found.claims names)
unfolding require_any_scope
require_any_scope_iff later ctx info names found apart =
    let found_again = get_auth_info-set_auth_info later ctx info apart in
    elim (Option-cases info) [
      | inl anonymous ↦ (λ h. ground arith, λ h. ground arith)
      | inr (auth, given) ↦
          let has = (has_any_scope_iff auth.claims names).0 in
          (
            λ h.
                let proceeds : has_any_scope auth.claims names ≡ true = ground arith in
                let same : auth ≡ found = ground arith in
                (given ∙ ap some same, rw (sym same) (has.0 proceeds)),
            λ (is_found, scope).
                let same : found ≡ auth = ground arith in
                let proceeds = has.1 (rw (sym same) scope) in ground arith,
          )
    ]
