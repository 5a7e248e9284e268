-- ===== src/Claims/Tests.antt =====
-- Scopes and subjects of concrete tokens.
use Prim.Native.Char.{code}
use elephantine.Prelude.{◌≡◌, String, true, [], ◌∷◌, none, refl, if◌then◌else◌, ◌==◌, split}
use elephantine.Fault.{ok}
use elephantine.Claims.{JwtClaims, UrlPackage, has_any_scope}

abbrev pub reader : JwtClaims
reader = record {
  issuer = "issuer";
  subject = "u1";
  audience = [];
  expires_at = none;
  original_sub = "";
  name = "A reader";
  scope = "doc_read doc_write";
  authorized_party = "web";
  client_id = "";
  units = [];
}

may_read : has_any_scope reader ("doc_admin" ∷ "doc_read" ∷ []) ≡ true
unfolding has_any_scope split
may_read = refl

-- A scheme is what starts with "c".
abbrev scheme_of : String → String
scheme_of String.[] = ""
scheme_of (String.◌∷◌ c s) = if code c == 99 then "core" else ""

abbrev pub urls : UrlPackage
urls = record {
  Url = String;
  parse = ok;
  scheme = scheme_of;
  join_application = String.◌∷◌ "c";
  join_user = String.◌∷◌ "c";
  resolve_unit = String.◌∷◌ "c";
}
