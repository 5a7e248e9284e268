-- ===== src/Auth/Parser/Issued.antt =====
-- Whom a parser lets in, over all calls of one parser.
use mathlib.Core.Path.{subst}
use elephantine.Prelude.{
  ℕ, ◌≡◌, ◌≢◌, inl, inr, Bool, sym, ◌∙◌, refl, String, List, [], ◌∷◌, none, some, cut,
}
use elephantine.Prelude.Lists.{All, Exists}
use elephantine.Fault.{Result, ok, Result-cases}
use elephantine.Claims.{JwtClaims, UrlPackage}
use elephantine.LogContext.{AuthInfo}
use elephantine.Auth.Parser.{normalise}
use elephantine.Auth.Parser.Verified.{IsVerified, Gives, auth_info_from_header-Keeps}
use elephantine.Auth.Parser.Made.{
  JwtAuthInfoParserOptions, JwtPackages, JwtAuthInfoParser, new_jwt_auth_info_parser,
  new_jwks_auth_info_parser, new_static_auth_info_parser, valid_methods, deps_of, Call, call_parser,
  call_all,
}
use elephantine.Auth.Parser.Documented.{
  IsDocumented, normalise-keeps, same_ok, view, view-like, view-shown, view-new, new_jwks-found,
  new_jwks-failed,
}

module _ (pkg : JwtPackages) (docs : IsDocumented pkg) (urls : UrlPackage)
    (to_lower : String → String) where
  open pkg use {Key, Token, Cache, entry, is_hidden, is_expired, parse_with_claims, new_default}

  -- Where the keys of a parser come from: one key, or the address of a key set.
  pub data Source : Type 0 where
    static : Key → Source
    jwks : String → Source

  abbrev pub made_from : Source → JwtAuthInfoParserOptions → Result (JwtAuthInfoParser pkg)
  made_from (static key) opts = ok (new_static_auth_info_parser pkg key opts)
  made_from (jwks url) opts = new_jwks_auth_info_parser pkg url opts

  abbrev pub Picks : Source → (Token → Result Key) → Type 0
  Picks (static key) keyfunc = keyfunc ≡ (λ t. ok key)
  Picks (jwks url) keyfunc = new_default url ≡ ok keyfunc

  -- The information stems from a token that was checked with the keys, for the issuer and the audience
  -- of the options.
  pub record IsIssued (source : Source) (opts : JwtAuthInfoParserOptions) (info : AuthInfo)
      : Type 0 where
    pub keyfunc : Token → Result Key
    pub at : ℕ
    pub signed : JwtClaims
    pub picked : Picks source keyfunc
    pub checked : parse_with_claims at keyfunc ("RS256" ∷ "ES384" ∷ []) info.token ≡ ok signed
    pub subject : info.claims.original_sub ≡ signed.subject
    pub issuer : opts.issuer ≢ "" → info.claims.issuer ≡ opts.issuer
    pub audience : opts.audience ≢ "" → Exists (λ a. a ≡ opts.audience) info.claims.audience

  given :
      (p : JwtAuthInfoParser pkg) (at : ℕ) (normal signed : JwtClaims)
      → Gives (deps_of pkg urls to_lower p at) (ok signed) normal
      → (pkg.validate p.validator at signed ≡ none)
        × (normalise (deps_of pkg urls to_lower p at) signed ≡ ok normal)
  given p at normal signed g = g

  module _ (source : Source) (opts : JwtAuthInfoParserOptions) where
    -- What the calls leave of a parser.
    record IsKept (p : JwtAuthInfoParser pkg) : Type 0 where
      picks : Picks source p.keyfunc
      issuer : p.validator.issuer ≡ opts.issuer
      audience : p.validator.audience ≡ opts.audience
      entries :
          (token : String) (info : AuthInfo) (flag : Bool)
          → (view pkg docs) p.cache token ≡ some (info, flag)
          → (info.token ≡ token) × IsIssued source opts info

    verified-IsIssued :
        (p : JwtAuthInfoParser pkg) (at : ℕ) (info : AuthInfo)
        → IsKept p
        → IsVerified (deps_of pkg urls to_lower p at) info
        → IsIssued source opts info
    verified-IsIssued p at info kept verified =
        elim (Result-cases (parse_with_claims at p.keyfunc (valid_methods pkg) info.token)) [
          | inr (e, failed) ↦ absurd (rw failed at verified)
          | inl (signed, checked) ↦
              let (valid, normal) = given p at info.claims signed (rw checked at verified) in
              let (issuer, audience, subject) =
                normalise-keeps (deps_of pkg urls to_lower p at) signed info.claims normal in
              record {
                keyfunc = p.keyfunc;
                at = at;
                signed = signed;
                picked = kept.picks;
                checked = checked;
                subject = subject;
                issuer = λ set.
                    issuer
                    ∙ docs.issuer p.validator at signed valid (rw kept.issuer set)
                    ∙ kept.issuer;
                audience = λ set.
                    rw (audience, ← kept.audience)
                      (docs.audience p.validator at signed valid (rw kept.audience set));
              }
        ]

    call_parser-IsKept :
        (p : JwtAuthInfoParser pkg) (c : Call pkg urls to_lower)
        → IsKept p
        → IsKept (call_parser pkg urls to_lower p c).1
          × ((info : AuthInfo)
              → (call_parser pkg urls to_lower p c).0 ≡ ok info
              → (to_lower (cut "" b' ' c.authorization).0 ≡ "bearer")
                × (info.token ≡ (cut "" b' ' c.authorization).1)
                × IsIssued source opts info)
    unfolding call_parser
    call_parser-IsKept p c kept =
        let (entries, admits) =
          auth_info_from_header-Keeps (deps_of pkg urls to_lower p c.at) (view pkg docs)
            (view-like pkg docs) ((view-shown pkg docs) c.at) (IsIssued source opts)
            (λ info verified. verified-IsIssued p c.at info kept verified) c.until p.cache
            c.authorization kept.entries in
        (
          record {
            picks = kept.picks;
            issuer = kept.issuer;
            audience = kept.audience;
            entries = entries;
          },
          admits,
        )

    -- What is promised of a call and what it returns.
    abbrev pub IsSafe : Call pkg urls to_lower × Result AuthInfo → Type 0
    IsSafe (c, result) =
        (info : AuthInfo)
        → result ≡ ok info
        → (to_lower (cut "" b' ' c.authorization).0 ≡ "bearer")
          × (info.token ≡ (cut "" b' ' c.authorization).1)
          × IsIssued source opts info

    call_all-IsSafe :
        (p : JwtAuthInfoParser pkg) (calls : List (Call pkg urls to_lower))
        → IsKept p
        → All IsSafe (call_all pkg urls to_lower p calls)
    unfolding call_all
    call_all-IsSafe p [] kept = tt
    call_all-IsSafe p (c ∷ calls) kept =
        let (kept', admits) = call_parser-IsKept p c kept in
        (admits, call_all-IsSafe (call_parser pkg urls to_lower p c).1 calls kept')

    fresh-IsKept :
        (keyfunc : Token → Result Key)
        → Picks source keyfunc
        → IsKept (new_jwt_auth_info_parser pkg keyfunc opts)
    unfolding new_jwt_auth_info_parser
    fresh-IsKept keyfunc picks = record {
      picks = picks;
      issuer = refl;
      audience = refl;
      entries = λ token info flag there. absurd ((view-new pkg docs) token info flag there);
    }

  new-IsKept :
      (source : Source) (opts : JwtAuthInfoParserOptions) (p : JwtAuthInfoParser pkg)
      → made_from source opts ≡ ok p
      → IsKept source opts p
  unfolding new_static_auth_info_parser
  new-IsKept (static key) opts p made =
      subst (IsKept (static key) opts) (same_ok _ p made)
        (fresh-IsKept (static key) opts (λ t. ok key) refl)
  new-IsKept (jwks url) opts p made = elim (Result-cases (new_default url)) [
    | inr (e, failed) ↦ absurd ((new_jwks-failed pkg docs) url opts p e failed made)
    | inl (k, found) ↦
        subst (IsKept (jwks url) opts)
          (same_ok _ p (sym ((new_jwks-found pkg docs) url opts k found) ∙ made))
          (fresh-IsKept (jwks url) opts k found)
  ]

  -- Over any calls of one parser, made for one key or for a key set: information that a call returns,
  -- from the cache or not, belongs to the token behind "Bearer " in its header; the jwt package found
  -- the token valid with the keys of the parser and the methods RS256 and ES384; the original subject
  -- is that of the signed claims; and if the options name an issuer or an audience, it is the issuer
  -- and among the audiences of the information.
  pub parser_admits :
      (source : Source) (opts : JwtAuthInfoParserOptions) (p : JwtAuthInfoParser pkg)
      (calls : List (Call pkg urls to_lower))
      → made_from source opts ≡ ok p
      → All (IsSafe source opts) (call_all pkg urls to_lower p calls)
  parser_admits source opts p calls made =
      call_all-IsSafe source opts p calls (new-IsKept source opts p made)
