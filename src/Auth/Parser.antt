-- ===== src/Auth/Parser.antt =====
-- JWTAuthInfoParser.AuthInfoFromHeader. Tokens are parsed and their signatures checked by the jwt
-- package, URLs by net/url, and the cache is that of the ttlcache package: parameters.
pub mod Verified
pub mod Made
pub mod Documented
pub mod Issued
mod Tests
use elephantine.Prelude.{
  ℕ, String, Bool, true, false, not, ◌&&◌, List, [], ◌∷◌, Option, none, some, if◌then◌else◌, str_eq,
  cut,
}
use elephantine.Fault
use elephantine.Fault.{Fault, Result, ok, err}
use elephantine.Duration
use elephantine.Claims.{JwtClaims, UrlPackage, claims_to_subject}
use elephantine.LogContext.{AuthInfo}

-- strings.ToLower, jwt.ParseWithClaims with the parser's key and methods, the jwt validator, the
-- pattern of the scope prefix (ReplaceAllLiteralString with ""), and the cache: what it has for a
-- token, whether that is expired, and the cache after an entry is set with its time to live.
pub record ParserDeps : Type 1 where
  pub urls : UrlPackage
  pub to_lower : String → String
  pub parse_with_claims : String → Result JwtClaims
  pub validate : JwtClaims → Option Fault
  pub scope_prefix : Option (String → String)
  pub Cache : Type 0
  pub get : Cache → String → Option (AuthInfo × Bool)
  pub set : Cache → String → AuthInfo → ℕ → Cache

module _ (deps : ParserDeps) where
  open deps use {urls, to_lower, parse_with_claims, validate, scope_prefix, Cache, get, set}

  -- The loop over claims.Units, which writes each unit back.
  unfoldable pub qualify_units : List String → Result (List String)
  qualify_units [] = ok []
  qualify_units (u ∷ us) = elim (urls.parse u) [
    | err e ↦ err (Fault.wrap "invalid unit claim" e)
    | ok parsed ↦ elim (qualify_units us) [
      | err e ↦ err e
      | ok rest ↦
          ok ((if str_eq (urls.scheme parsed) "" then urls.resolve_unit parsed else u) ∷ rest)
    ]
  ]

  abbrev pub strip : String → String
  strip scope = elim scope_prefix [ none ↦ scope | some replace ↦ replace scope ]

  -- What the parser makes of claims that are valid.
  unfoldable pub normalise : JwtClaims → Result JwtClaims
  unfolding qualify_units
  normalise claims = elim (qualify_units claims.units) [
    | err e ↦ err e
    | ok units ↦
        let stripped = record claims { units = units; scope = strip claims.scope } in
        elim (claims_to_subject urls stripped) [
          | err e ↦ err e
          | ok sub ↦ ok (record stripped { original_sub = claims.subject; subject = sub })
        ]
  ]

  -- A token that is not in the cache; `now` is what time.Until reads.
  unfoldable pub check_token : ℕ → Cache → String → Result AuthInfo × Cache
  check_token now cache token = elim (parse_with_claims token) [
    | err e ↦ (err (Fault.wrap "invalid token" e), cache)
    | ok claims ↦ elim (validate claims) [
      | some e ↦ (err (Fault.wrap "invalid claims" e), cache)
      | none ↦ elim (normalise claims) [
        | err e ↦ (err e, cache)
        | ok normal ↦
            let info : AuthInfo = record { token = token; claims = normal } in
            (
              ok info,
              elim normal.expires_at [
                | none ↦ cache
                | some t ↦ set cache token info (Duration.since t now)
              ],
            )
      ]
    ]
  ]

  unfoldable pub auth_info_from_header : ℕ → Cache → String → Result AuthInfo × Cache
  auth_info_from_header now cache authorization =
      if str_eq authorization ""
      then (err (Fault.sentinel Fault.Sentinel.no_authorization), cache)
      else let (token_type, token, found) = cut "" b' ' authorization in
        if not (str_eq (to_lower token_type) "bearer")
        then (err (Fault.text "only bearer tokens are supported"), cache)
        else elim (get cache token) [
          | none ↦ check_token now cache token
          | some (info, expired) ↦ elim expired [
            | true ↦ check_token now cache token
            | false ↦ (ok info, cache)
          ]
        ]
