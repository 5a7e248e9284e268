-- ===== src/Auth/Parser/Documented.antt =====
-- What the packages document that a parser is made of.
use elephantine.Prelude.{
  ℕ, ◌≡◌, ◌≢◌, ◌⊎◌, inl, inr, Bool, false, ap, Option-cases, refl, String, Option, none, some,
  arith,
}
use elephantine.Prelude.Lists.{Exists}
use elephantine.Fault.{Fault, Result, ok, err}
use elephantine.Claims.{JwtClaims}
use elephantine.LogContext.{AuthInfo}
use elephantine.Auth.Parser.{ParserDeps, normalise}
use elephantine.Auth.Parser.Made.{
  JwtAuthInfoParserOptions, ValidatorOptions, JwtPackages, JwtAuthInfoParser,
  new_jwt_auth_info_parser, new_jwks_auth_info_parser, get,
}

-- What the packages document: a validator that is given an issuer or an audience asks for it, a cache
-- is empty at first, and answers with what was set for a token or with what it had before.
pub record IsDocumented (pkg : JwtPackages) : Type 0 where
  pub issuer :
      (o : ValidatorOptions) (at : ℕ) (c : JwtClaims)
      → pkg.validate o at c ≡ none
      → o.issuer ≢ ""
      → c.issuer ≡ o.issuer
  pub audience :
      (o : ValidatorOptions) (at : ℕ) (c : JwtClaims)
      → pkg.validate o at c ≡ none
      → o.audience ≢ ""
      → Exists (λ a. a ≡ o.audience) c.audience
  pub empty : (token : String) → pkg.entry pkg.new_cache token ≡ none
  pub kept :
      (cache : pkg.Cache) (token other : String) (info found : AuthInfo) (ttl : ℕ)
      → pkg.entry (pkg.set cache token info ttl) other ≡ some found
      → ((other ≡ token) × (found ≡ info)) ⊎ (pkg.entry cache other ≡ some found)

-- Normalising changes the units, the scope and the subject only.
pub normalise-keeps :
    (deps : ParserDeps) (claims normal : JwtClaims)
    → normalise deps claims ≡ ok normal
    → (normal.issuer ≡ claims.issuer)
      × (normal.audience ≡ claims.audience)
      × (normal.original_sub ≡ claims.subject)
unfolding normalise
normalise-keeps deps claims normal h = ground arith

abbrev either_ok : {A : Type 0} → Result A → A → A
either_ok (ok a) other = a
either_ok (err e) other = other

pub same_ok : {A : Type 0} (a b : A) → ok a ≡ ok b → a ≡ b
same_ok a b e = ap (λ r. either_ok r a) e

module _ (pkg : JwtPackages) (docs : IsDocumented pkg) where
  open pkg use {Key, Token, Cache, entry, is_hidden, is_expired, parse_with_claims, new_default}

  abbrev pub view : Cache → String → Option (AuthInfo × Bool)
  view cache token = elim (entry cache token) [ none ↦ none | some info ↦ some (info, false) ]

  pub view-like :
      (cache : Cache) (token other : String) (info found : AuthInfo) (ttl : ℕ) (expired : Bool)
      → view (pkg.set cache token info ttl) other ≡ some (found, expired)
      → ((other ≡ token) × (found ≡ info)) ⊎ (view cache other ≡ some (found, expired))
  view-like cache token other info found ttl expired h =
      elim (Option-cases (entry (pkg.set cache token info ttl) other)) [
        | inl absent ↦ ground arith
        | inr (f, there) ↦ ground (arith, docs.kept cache token other info f ttl there)
      ]

  pub view-shown :
      (at : ℕ) (cache : Cache) (token : String) (info : AuthInfo) (expired : Bool)
      → get pkg at cache token ≡ some (info, expired)
      → (flag : Bool) × (view cache token ≡ some (info, flag))
  view-shown at cache token info expired h = (false, ground arith)

  pub view-new :
      (token : String) (info : AuthInfo) (flag : Bool)
      → view pkg.new_cache token ≡ some (info, flag)
      → ⊥
  view-new token info flag h = let absent = docs.empty token in ground arith

  pub new_jwks-found :
      (url : String) (opts : JwtAuthInfoParserOptions) (k : Token → Result Key)
      → new_default url ≡ ok k
      → new_jwks_auth_info_parser pkg url opts ≡ ok (new_jwt_auth_info_parser pkg k opts)
  unfolding new_jwks_auth_info_parser
  new_jwks-found url opts k found = rw (new_jwks_auth_info_parser, found) refl

  pub new_jwks-failed :
      (url : String) (opts : JwtAuthInfoParserOptions) (p : JwtAuthInfoParser pkg) (e : Fault)
      → new_default url ≡ err e
      → ¬ (new_jwks_auth_info_parser pkg url opts ≡ ok p)
  unfolding new_jwks_auth_info_parser
  new_jwks-failed url opts p e failed made = ground arith
