-- ===== src/Auth/Parser/Tests.antt =====
-- A parser with one key, called twice with one token.
use elephantine.Prelude.{
  ℕ, ◌≡◌, refl, String, Bool, true, false, List, [], ◌∷◌, none, some, arith, eq_iff, str_eq,
  if◌then◌else◌, cut,
}
use elephantine.Prelude.Lists.{All, Exists, lookup, insert, lookup-insert}
use elephantine.Fault.{Fault, Result, ok, err}
use elephantine.Claims.{JwtClaims, claims_to_subject}
use elephantine.LogContext.{AuthInfo}
use elephantine.Auth.Parser.{auth_info_from_header, check_token, normalise, qualify_units}
use elephantine.Auth.Parser.Made.{
  JwtAuthInfoParserOptions, JwtPackages, JwtAuthInfoParser, Call, call_all, call_parser,
  new_static_auth_info_parser, new_jwt_auth_info_parser, scope_prefix_regexp,
}
use elephantine.Auth.Parser.Documented.{IsDocumented}
use elephantine.Auth.Parser.Issued.{static, IsSafe, parser_admits}
use elephantine.Auth.Tests.{url_package, writer}

abbrev has : String → List String → Bool
has name [] = false
has name (s ∷ later) = if str_eq s name then true else has name later

has-Exists : (name : String) (l : List String) → has name l ≡ true → Exists (λ s. s ≡ name) l
has-Exists name [] h = cc
has-Exists name (s ∷ later) h = ground (arith, eq_iff s name, has-Exists name later)

abbrev editor : JwtClaims
editor = record writer { audience = "docs" ∷ [] }

abbrev asks_for : String → String → Bool
asks_for wanted s = if str_eq wanted "" then true else str_eq s wanted

-- Keys are numbers; a token is valid under the key 7 if it is "tok".
abbrev packages : JwtPackages
packages = record {
  Key = ℕ;
  Token = String;
  parse_with_claims = λ at keyfunc methods token. elim (keyfunc token) [
    | err e ↦ err e
    | ok key ↦ if str_eq token "tok" then ok editor else err (Fault.text "unknown")
  ];
  validate = λ o at c.
      if asks_for o.issuer c.issuer
      then (if str_eq o.audience ""
          then none
          else if has o.audience c.audience
          then none
          else some (Fault.text "audience"))
      else some (Fault.text "issuer");
  new_default = λ url. err (Fault.text "offline");
  quote_meta = λ s. s;
  must_compile = λ pattern s. s;
  Cache = List (String × AuthInfo);
  new_cache = [];
  entry = λ cache token. lookup token cache;
  is_hidden = λ at cache token. false;
  is_expired = λ at cache token. false;
  set = λ cache token info ttl. insert token info cache;
}

packages-IsDocumented : IsDocumented packages
packages-IsDocumented = record {
  issuer = λ o at c valid set. ground (arith, eq_iff o.issuer "", eq_iff c.issuer o.issuer);
  audience =
      λ o at c valid set. ground (arith, eq_iff o.audience "", has-Exists o.audience c.audience);
  empty = λ token. unfold lookup in refl;
  kept = λ cache token other info found ttl there.
      ground (arith, lookup-insert token other info cache, eq_iff token other);
}

abbrev options : JwtAuthInfoParserOptions
options = record { audience = "docs"; issuer = "issuer"; scope_prefix = "" }

abbrev lower : String → String
lower s = if str_eq s "Bearer" then "bearer" else s

abbrev calls : List (Call packages url_package lower)
calls =
    record { at = 5; until = 6; authorization = "Bearer tok" }
    ∷ record { at = 7; until = 8; authorization = "Bearer tok" }
    ∷ record { at = 9; until = 9; authorization = "Bearer other" }
    ∷ []

abbrev parser : JwtAuthInfoParser packages
parser = new_static_auth_info_parser packages 7 options

parser_admits_example :
    All
      (IsSafe packages packages-IsDocumented url_package lower (static 7) options)
      (call_all packages url_package lower parser calls)
parser_admits_example =
    parser_admits packages packages-IsDocumented url_package lower (static 7) options parser calls
      refl

abbrev returns : List (Call packages url_package lower × Result AuthInfo) → List Bool
returns [] = []
returns ((c, ok info) ∷ later) = true ∷ returns later
returns ((c, err e) ∷ later) = false ∷ returns later

two_admitted : returns (call_all packages url_package lower parser calls) ≡ true ∷ true ∷ false ∷ []
unfolding call_all call_parser auth_info_from_header check_token normalise qualify_units cut
    claims_to_subject new_static_auth_info_parser new_jwt_auth_info_parser scope_prefix_regexp
    lookup insert
two_admitted = refl
