-- ===== src/Cors.antt =====
-- cors.go: CORSMiddleware and validOrigin. What url.Parse makes of an origin, and fmt's decimal
-- print of a number, are arguments.
pub mod Origin
pub mod Middleware
mod Tests
use elephantine.Prelude.{
  ℕ, String, Bool, true, false, not, ◌&&◌, ◌||◌, List, [], ◌∷◌, Option, none, some, ◌==◌,
  if◌then◌else◌, str_eq, has_suffix, join, ◌+++◌,
}
use elephantine.Prelude.Lists.{any, insert}

-- What validOrigin reads of a url.URL: its Scheme, and its Hostname().
pub record Url : Type 0 where
  pub scheme : String
  pub hostname : String

pub record CorsOptions : Type 0 where
  pub allow_insecure : Bool
  pub allow_insecure_localhost : Bool
  pub hosts : List String
  pub allowed_methods : List String
  pub allowed_headers : List String
  pub max_age_seconds : ℕ

-- What the middleware reads of a request; an absent header reads as "".
pub record Request : Type 0 where
  pub method : String
  pub access_control_request_method : String
  pub origin : String

-- The header so far, and the status once WriteHeader has been called.
pub record Response : Type 0 where
  pub header : List (String × String)
  pub status : Option ℕ

abbrev pub Handler : Type 0
Handler = Request → Response → Response

-- Header.Set
abbrev pub set_header : String → String → Response → Response
set_header k v w = record w { header = insert k v w.header }

-- WriteHeader: only the first call counts.
abbrev pub write_header : ℕ → Response → Response
write_header code w = elim w.status [ none ↦ record w { status = some code } | some c ↦ w ]

abbrev pub is_host : String → String → Bool
is_host host h = str_eq host h || has_suffix host ("." +++ h)

unfoldable pub valid_origin : (String → Option Url) → String → CorsOptions → Bool
valid_origin parse origin opts = elim (parse origin) [
  | none ↦ false
  | some url ↦
      let allow_insec =
        opts.allow_insecure || (str_eq url.hostname "localhost" && opts.allow_insecure_localhost) in
      if not allow_insec && not (str_eq url.scheme "https")
      then false
      else any (is_host url.hostname) opts.hosts
]

abbrev pub max_age : CorsOptions → ℕ
max_age opts = if opts.max_age_seconds == 0 then 3600 else opts.max_age_seconds

abbrev pub is_preflight : Request → Bool
is_preflight r = str_eq r.method "OPTIONS" && not (str_eq r.access_control_request_method "")

module _ (parse : String → Option Url) (print : ℕ → String) (opts : CorsOptions) where
  -- The answer to a preflight request.
  unfoldable pub preflight : String → Response → Response
  preflight origin w =
      if not (valid_origin parse origin opts)
      then write_header 405 w
      else write_header 204 (
          set_header "Access-Control-Max-Age" (print (max_age opts)) (
            set_header "Access-Control-Allow-Origin" origin (
              set_header "Access-Control-Allow-Headers" (join opts.allowed_headers ",")
                (set_header "Access-Control-Allow-Methods" (join opts.allowed_methods ",") w))))

  unfoldable pub cors_middleware : Handler → Handler
  unfolding preflight
  cors_middleware handler r w =
      if is_preflight r
      then preflight r.origin w
      else handler r (
          if not (str_eq r.origin "") && valid_origin parse r.origin opts
          then set_header "Vary" "Origin" (set_header "Access-Control-Allow-Origin" r.origin w)
          else w)
