-- ===== src/Claims.antt =====
-- The claims of a token (jwt.go: JWTClaims, HasScope, HasAnyScope, claimsToSubject).
mod Tests
use elephantine.Prelude.{
  ℕ, ◌≡◌, refl, ◌⊎◌, ◌↔◌, inl, inr, String, Bool, true, false, List, [], ◌∷◌, Option, none, some,
  arith, eq_iff, str_eq, split, if◌then◌else◌, Bool-cases, ◌||◌,
}
use elephantine.Prelude.Lists.{Exists, any, any_iff}
use elephantine.Fault.{Fault, Result, ok, err}
use elephantine.Fault

-- jwt.RegisteredClaims and the claims of its own; times are in nanoseconds.
pub record JwtClaims : Type 0 where
  pub issuer : String
  pub subject : String
  pub audience : List String
  pub expires_at : Option ℕ
  pub original_sub : String
  pub name : String
  pub scope : String
  pub authorized_party : String
  pub client_id : String
  pub units : List String

abbrev pub scopes : JwtClaims → List String
scopes c = split "" b' ' c.scope

unfoldable pub has_scope : JwtClaims → String → Bool
has_scope c name = any (λ s. str_eq s name) (scopes c)

unfoldable pub has_any_scope : JwtClaims → List String → Bool
has_any_scope c names = any (λ s. any (λ name. str_eq s name) names) (scopes c)

-- A token has one of some scopes exactly when a word of its scope claim is one of them, and has one
-- scope exactly when it has one of that scope alone.
pub has_any_scope_iff :
    (c : JwtClaims) (names : List String)
    → ((has_any_scope c names ≡ true) ↔ Exists (λ s. Exists (λ name. s ≡ name) names) (scopes c))
      × ((name : String) → has_scope c name ≡ has_any_scope c (name ∷ []))
unfolding has_any_scope has_scope
has_any_scope_iff c names = (
  any_iff (λ s. any (λ name. str_eq s name) names) (λ s. Exists (λ name. s ≡ name) names)
      (λ s. any_iff (λ name. str_eq s name) (λ name. s ≡ name) (λ name. eq_iff s name) names)
      (scopes c),
  λ name. single name (scopes c),
)
  where
    single :
        (name : String) (words : List String)
        → any (λ s. str_eq s name) words ≡ any (λ s. any (λ n. str_eq s n) (name ∷ [])) words
    single name [] = refl
    single name (s ∷ words) = ground (arith, single name words)

-- What the sources use of net/url: url.Parse, the Scheme of the result, and the texts of
-- appURI.JoinPath(…), userURI.JoinPath(…) and unitBase.ResolveReference(…).
pub record UrlPackage : Type 1 where
  pub Url : Type 0
  pub parse : String → Result Url
  pub scheme : Url → String
  pub join_application : String → String
  pub join_user : String → String
  pub resolve_unit : Url → String

module _ (urls : UrlPackage) where
  open urls use {parse, scheme, join_application, join_user}

  unfoldable pub claims_to_subject : JwtClaims → Result String
  claims_to_subject claims = elim (parse claims.subject) [
    | err e ↦ err (Fault.wrap "invalid sub claim" e)
    | ok parsed ↦
        if str_eq (scheme parsed) ""
        then ok (
            if str_eq claims.client_id ""
            then join_user claims.subject
            else join_application claims.client_id)
        else ok claims.subject
  ]

  -- The URIs that the package builds parse, with their scheme.
  abbrev pub HasScheme : String → Type 0
  HasScheme uri = elim (parse uri) as (λ r. Type 0) [
    | err e ↦ ⊥
    | ok parsed ↦ str_eq (scheme parsed) "" ≡ false
  ]

  -- With URIs built for applications and users that parse and have a scheme: a subject that has been
  -- worked out parses and has a scheme, and working it out again changes nothing, whatever the
  -- authorized party is by then.
  pub claims_to_subject_stable :
      ((id : String) → HasScheme (join_application id))
      → ((id : String) → HasScheme (join_user id))
      → (claims : JwtClaims) (sub azp : String) → claims_to_subject claims ≡ ok sub
      → HasScheme sub
        × (claims_to_subject (record claims { subject = sub; authorized_party = azp }) ≡ ok sub)
  unfolding claims_to_subject
  claims_to_subject_stable apps users claims sub azp h =
      ground (arith, apps claims.client_id, users claims.subject)
