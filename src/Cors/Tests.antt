-- ===== src/Cors/Tests.antt =====
-- The CORS theorems at concrete origins.
use Prim.Native.Nat.{ℕ}
use elephantine.Prelude.{
  ◌≡◌, ◌↔◌, String, true, false, [], ◌∷◌, Option, none, some, refl, if◌then◌else◌, str_eq,
  has_suffix, join,
}
use elephantine.Prelude.Lists.{lookup}
use elephantine.Cors.{
  Url, CorsOptions, Request, Response, Handler, valid_origin, cors_middleware, write_header,
}
use elephantine.Cors.Origin.{IsAllowed, valid_origin_iff}
use elephantine.Cors.Middleware.{cors_middleware-preflight}

abbrev parse : String → Option Url
parse origin =
    if str_eq origin "https://a.example.com"
    then some (record { scheme = "https"; hostname = "a.example.com" })
    else if str_eq origin "https://badexample.com"
    then some (record { scheme = "https"; hostname = "badexample.com" })
    else none

abbrev print : ℕ → String
print n = if str_eq "" "" then "3600" else ""

abbrev options : CorsOptions
options = record {
  allow_insecure = false;
  allow_insecure_localhost = true;
  hosts = "example.com" ∷ [];
  allowed_methods = "GET" ∷ "POST" ∷ [];
  allowed_headers = "Authorization" ∷ [];
  max_age_seconds = 0;
}

valid_origin_iff_example :
    (valid_origin parse "https://a.example.com" options ≡ true)
    ↔ IsAllowed parse "https://a.example.com" options
valid_origin_iff_example = valid_origin_iff parse "https://a.example.com" options

subdomain : valid_origin parse "https://a.example.com" options ≡ true
unfolding valid_origin has_suffix
subdomain = refl

no_subdomain : valid_origin parse "https://badexample.com" options ≡ false
unfolding valid_origin has_suffix
no_subdomain = refl

abbrev asks : Request
asks = record {
  method = "OPTIONS";
  access_control_request_method = "GET";
  origin = "https://a.example.com";
}

abbrev gets : Request
gets = record {
  method = "GET";
  access_control_request_method = "";
  origin = "https://a.example.com";
}

abbrev empty : Response
empty = record { header = []; status = none }

abbrev handler : Handler
handler r w = write_header 200 w

cors_middleware-preflight_example :
    let answer = cors_middleware parse print options handler asks empty in
    if valid_origin parse "https://a.example.com" options
    then (answer.status ≡ some 204)
      × (lookup "Access-Control-Allow-Origin" answer.header ≡ some "https://a.example.com")
      × (lookup "Access-Control-Allow-Methods" answer.header
          ≡ some (join ("GET" ∷ "POST" ∷ []) ","))
      × (lookup "Access-Control-Allow-Headers" answer.header
          ≡ some (join ("Authorization" ∷ []) ","))
      × (lookup "Access-Control-Max-Age" answer.header ≡ some "3600")
    else (answer.status ≡ some 405) × (answer.header ≡ [])
cors_middleware-preflight_example =
    cors_middleware-preflight parse print options handler asks empty refl (λ e. cc) refl
