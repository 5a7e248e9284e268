-- ===== src/Auth/Parser/Made.antt =====
-- The making of a JWTAuthInfoParser (jwt.go): NewStaticAuthInfoParser and NewJWKSAuthInfoParser. The
-- packages jwt, keyfunc, regexp and ttlcache are arguments.
use elephantine.Prelude.{
  ℕ, ◌*◌, ◌^◌, String, Bool, List, [], ◌∷◌, Option, none, some, ◌+++◌, str_eq, if◌then◌else◌,
}
use elephantine.Fault.{Fault, Result, ok, err}
use elephantine.Claims.{JwtClaims, UrlPackage}
use elephantine.LogContext.{AuthInfo}
use elephantine.Auth.Parser.{ParserDeps, auth_info_from_header}

pub record JwtAuthInfoParserOptions : Type 0 where
  pub audience : String
  pub issuer : String
  pub scope_prefix : String

-- The options of jwt.NewValidator, the leeway in nanoseconds.
pub record ValidatorOptions : Type 0 where
  pub leeway : ℕ
  pub issuer : String
  pub audience : String

-- jwt.ParseWithClaims and Validator.Validate at a time, with a token that is not verified yet for the
-- function that picks its key; keyfunc.NewDefaultCtx; regexp.MustCompile with ReplaceAllLiteralString
-- by ""; and a cache: the entry it has for a token, whether Get no longer answers with it at a time, and
-- whether it is expired then.
pub record JwtPackages : Type 1 where
  pub Key : Type 0
  pub Token : Type 0
  pub parse_with_claims : ℕ → (Token → Result Key) → List String → String → Result JwtClaims
  pub validate : ValidatorOptions → ℕ → JwtClaims → Option Fault
  pub new_default : String → Result (Token → Result Key)
  pub quote_meta : String → String
  pub must_compile : String → String → String
  pub Cache : Type 0
  pub new_cache : Cache
  pub entry : Cache → String → Option AuthInfo
  pub is_hidden : ℕ → Cache → String → Bool
  pub is_expired : ℕ → Cache → String → Bool
  pub set : Cache → String → AuthInfo → ℕ → Cache

module _ (pkg : JwtPackages) where
  open pkg use {
    Key, Token, parse_with_claims, validate, new_default, quote_meta, must_compile, Cache,
    new_cache, entry, is_hidden, is_expired, set,
  }

  -- A validator is given by its options. The cache is passed on from call to call.
  pub record JwtAuthInfoParser : Type 0 where
    pub keyfunc : Token → Result Key
    pub validator : ValidatorOptions
    pub cache : Cache
    pub scope_prefix : Option (String → String)

  unfoldable pub scope_prefix_regexp : String → Option (String → String)
  scope_prefix_regexp prefix =
      if str_eq prefix "" then none else some (must_compile ("\\b" +++ quote_meta prefix))

  unfoldable pub new_jwt_auth_info_parser :
      (Token → Result Key) → JwtAuthInfoParserOptions → JwtAuthInfoParser
  unfolding scope_prefix_regexp
  new_jwt_auth_info_parser keyfunc opts = record {
    keyfunc = keyfunc;
    validator = record { leeway = 5 * 10 ^ 9; issuer = opts.issuer; audience = opts.audience };
    cache = new_cache;
    scope_prefix = scope_prefix_regexp opts.scope_prefix;
  }

  unfoldable pub new_jwks_auth_info_parser :
      String → JwtAuthInfoParserOptions → Result JwtAuthInfoParser
  unfolding new_jwt_auth_info_parser
  new_jwks_auth_info_parser jwks_url opts = elim (new_default jwks_url) [
    | err e ↦ err (Fault.wrap "could not create keyfunc" e)
    | ok k ↦ ok (new_jwt_auth_info_parser k opts)
  ]

  unfoldable pub new_static_auth_info_parser : Key → JwtAuthInfoParserOptions → JwtAuthInfoParser
  unfolding new_jwt_auth_info_parser
  new_static_auth_info_parser key opts = new_jwt_auth_info_parser (λ t. ok key) opts

  abbrev pub get : ℕ → Cache → String → Option (AuthInfo × Bool)
  get at cache token = elim (entry cache token) [
    | none ↦ none
    | some info ↦ if is_hidden at cache token then none else some (info, is_expired at cache token)
  ]

  abbrev pub valid_methods : List String
  valid_methods = "RS256" ∷ "ES384" ∷ []

  module _ (urls : UrlPackage) (to_lower : String → String) where
    -- What AuthInfoFromHeader works with at a time; `validate` is the method Valid.
    abbrev pub deps_of : JwtAuthInfoParser → ℕ → ParserDeps
    deps_of p at = record {
      urls = urls;
      to_lower = to_lower;
      parse_with_claims = parse_with_claims at p.keyfunc valid_methods;
      validate = validate p.validator at;
      scope_prefix = p.scope_prefix;
      Cache = Cache;
      get = get at;
      set = set;
    }

    -- A call of AuthInfoFromHeader, with the times at which it checks the token and asks how long it
    -- lasts.
    pub record Call : Type 0 where
      pub at : ℕ
      pub until : ℕ
      pub authorization : String

    unfoldable pub call_parser : JwtAuthInfoParser → Call → Result AuthInfo × JwtAuthInfoParser
    unfolding auth_info_from_header
    call_parser p c =
        let (result, cache) =
          auth_info_from_header (deps_of p c.at) c.until p.cache c.authorization in
        (result, record p { cache = cache })

    -- Calls one after another, each with what it returns.
    unfoldable pub call_all : JwtAuthInfoParser → List Call → List (Call × Result AuthInfo)
    unfolding call_parser
    call_all p [] = []
    call_all p (c ∷ calls) =
        let (result, after) = call_parser p c in (c, result) ∷ call_all after calls
