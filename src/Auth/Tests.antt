-- ===== src/Auth/Tests.antt =====
-- Concrete requests, with a parser that knows one token.
use elephantine.Prelude.{
  ◌≡◌, ◌↔◌, String, false, [], ◌∷◌, ◌++◌, arith, Option, none, some, refl, if◌then◌else◌, str_eq,
  cut, split,
}
use elephantine.Fault
use elephantine.Fault.{Result, ok, err}
use elephantine.Claims.{JwtClaims, UrlPackage, has_any_scope, claims_to_subject}
use elephantine.LogContext.{Context, AuthInfo, metadata, timestamp, set_auth_info, get_auth_info}
use elephantine.Auth.Parser.{ParserDeps, auth_info_from_header, normalise, check_token}
use elephantine.Auth.Hook.{HasScope, require_any_scope, require_any_scope_iff}

abbrev pub writer : JwtClaims
writer = record {
  issuer = "issuer";
  subject = "core://user/u1";
  audience = [];
  expires_at = some 100;
  original_sub = "";
  name = "A writer";
  scope = "doc_write";
  authorized_party = "";
  client_id = "";
  units = [];
}

abbrev pub url_package : UrlPackage
url_package = record {
  Url = String;
  parse = ok;
  scheme = λ u. "core";
  join_application = λ id. id;
  join_user = λ id. id;
  resolve_unit = λ id. id;
}

-- A cache of one entry, which forgets nothing.
abbrev deps : ParserDeps
deps = record {
  urls = url_package;
  to_lower = λ s. if str_eq s "Bearer" then "bearer" else s;
  parse_with_claims = λ token. if str_eq token "tok" then ok writer else err (Fault.text "unknown");
  validate = λ c. none;
  scope_prefix = none;
  Cache = Option (String × AuthInfo);
  get = λ cache token. elim cache [
    | none ↦ none
    | some (k, info) ↦ if str_eq k token then some (info, false) else none
  ];
  set = λ cache token info ttl. some (token, info);
}

abbrev writer_info : AuthInfo
writer_info = record { token = "tok"; claims = record writer { original_sub = "core://user/u1" } }

passes : (auth_info_from_header deps 5 none "Bearer tok").0 ≡ ok writer_info
unfolding auth_info_from_header check_token normalise cut claims_to_subject
passes = refl

abbrev logged : Context
logged = (1, metadata 0) ∷ []

-- A time that is set after the information, under a key of its own.
abbrev timed : Context
timed = (7, timestamp 3) ∷ []

require_any_scope_iff_example :
    (require_any_scope (timed ++ set_auth_info logged (some writer_info)) ("doc_write" ∷ [])
      ≡ ok writer_info)
    ↔ ((◌≡◌ {A = Option AuthInfo} (some writer_info) (some writer_info))
        × HasScope writer_info.claims ("doc_write" ∷ []))
require_any_scope_iff_example =
    require_any_scope_iff timed logged (some writer_info) ("doc_write" ∷ []) writer_info
      ((λ same. absurd (omega arith)), tt)

proceeds :
    require_any_scope (set_auth_info logged (some writer_info)) ("doc_write" ∷ []) ≡ ok writer_info
unfolding require_any_scope set_auth_info get_auth_info has_any_scope split
proceeds = refl
