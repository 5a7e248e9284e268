-- ===== src/Routes/Tests.antt =====
-- A server with one API.
use elephantine.Prelude.{
  ℕ, ◌≡◌, refl, String, true, not, ◌&&◌, List, [], ◌∷◌, Option, none, some, str_eq, if◌then◌else◌,
  has_suffix,
}
use elephantine.Prelude.Lists.{lookup, insert}
use elephantine.Fault.{Result, ok}
use elephantine.Cors.{Url, Response, valid_origin, cors_middleware}
use elephantine.LogContext.{
  Context, auth, value, with_value, as_auth, get_auth_info, get_log_metadata, set_log_metadata,
  set_auth_info, with_log_metadata,
}
use elephantine.Auth.Hook.{IsAdmitted, request_routed}
use elephantine.Twirp.Hooks.{TwirpPackage, IsChain}
use elephantine.Twirp.Metrics.{
  metrics_hooks, metrics_routed, new_twirp_metrics_hooks, with_registerer,
}
use elephantine.Twirp.Options.{
  ServiceOptions, new_default_service_options, set_auth_info_validation, add_logging_hooks,
  add_metrics_hooks, auth_hooks, auth_routed,
}
use elephantine.Twirp.Logging.{logging_hooks, log_routed}
use elephantine.Twirp.Defaults.{HasOwnKeys, routed_by, default_hooks}
use elephantine.Twirp.Tests.{docs, logger, user, parse, free, world}
use elephantine.Routes.{
  HttpRequest, Handler, ApiServiceHandler, ApiServer, new_api_server, new_api_server_with,
  register_api, logging_handler, default_cors, serve_mux,
}
use elephantine.Routes.Served.{
  IsKept, first, served_context, register_api-IsRegistered, request_served,
}
use elephantine.Routes.Authenticated.{request_authenticated}
use elephantine.Routes.Alive.{registered}

-- A package that keeps the header as the token of some information under a key of its own.
abbrev header_of : Context → Option String
header_of ctx = elim (as_auth (value ctx 5)) [ none ↦ none | some info ↦ some info.token ]

abbrev pub keep : List String → Context → Context
keep headers ctx = with_value 5 (auth (some (record user { token = first headers }))) ctx

abbrev twirp_package : TwirpPackage
twirp_package = record docs { http_request_headers = header_of }

twirp_package-IsKept : IsKept twirp_package keep
unfolding value
twirp_package-IsKept = record { found = λ headers ctx. refl; other = λ headers ctx. refl }

twirp_package-IsChain : IsChain twirp_package
twirp_package-IsChain = record {
  received = λ a b ctx w. refl;
  routed = λ a b ctx w. refl;
  sent = λ a b ctx w. refl;
}

twirp_package-HasOwnKeys : HasOwnKeys twirp_package
twirp_package-HasOwnKeys = record { service = λ ctx info. refl; method = λ ctx info. refl }

abbrev pub options : ServiceOptions
options = record {
  hooks = some (default_hooks twirp_package logger parse true free);
  auth_middleware = true;
  json_skip_defaults = true;
}

options-made : new_default_service_options twirp_package logger parse free free true ≡ ok options
unfolding new_default_service_options set_auth_info_validation add_logging_hooks add_metrics_hooks
    new_twirp_metrics_hooks with_registerer
options-made = refl

abbrev pub api : ApiServiceHandler
api = record {
  path_prefix = "/twirp/docs/";
  serve_http = λ r heap w. record w { status = some 200 };
}

abbrev pub perform : String → Result (ℕ × String)
perform url = ok (200, "200 OK")

abbrev server : ApiServer
server = registered keep ((api, options) ∷ []) (new_api_server perform ":1080" ":1081")

abbrev pub parse_url : String → Option Url
parse_url s = some (record { scheme = "https"; hostname = "tt.se" })

abbrev pub print : ℕ → String
print n = "3600"

-- A mux for the two patterns.
abbrev pub route : List String → HttpRequest → Option String
route patterns r =
    if str_eq r.path "/health/alive" then some "GET /health/alive" else some "POST /twirp/docs/"

abbrev pub not_found : Handler
not_found r heap w = record w { status = some 404 }

abbrev pub call : String → String → HttpRequest
call method path = record {
  head = record { method = method; access_control_request_method = ""; origin = "https://tt.se" };
  path = path;
  authorization = "Bearer tok" ∷ [];
  context = [];
}

abbrev pub fresh : Response
fresh = record { header = []; status = none }

abbrev served : Context
served =
    served_context parse_url print route not_found twirp_package keep twirp_package-IsKept
      (call "POST" "/twirp/docs/Get") []

has_cors : server.cors ≡ some default_cors
unfolding new_api_server new_api_server_with register_api
has_cors = refl

is_unset : lookup "Access-Control-Allow-Origin" fresh.header ≡ none
unfolding lookup
is_unset = refl

request_served_example :
    ((seen : Response) × (logging_handler parse_url print route not_found server
          (call "POST" "/twirp/docs/Get")
          []
          fresh
        ≡ record seen { status = some 200 })
      × (seen.status ≡ none)
      × (lookup "Access-Control-Allow-Origin" seen.header ≡ (
          if not (str_eq "https://tt.se" "") && valid_origin parse_url "https://tt.se" default_cors
          then some "https://tt.se"
          else none)))
    × (header_of served ≡ some "Bearer tok")
    × (get_log_metadata served ([] ∷ []) ≡ some [])
unfolding with_log_metadata
request_served_example =
    request_served parse_url print route not_found twirp_package keep twirp_package-IsKept api
      options server default_cors (call "POST" "/twirp/docs/Get") [] fresh
      (register_api-IsRegistered parse_url print route not_found twirp_package keep
        twirp_package-IsKept api options (new_api_server perform ":1080" ":1081"))
      refl has_cors (λ h. cc) is_unset refl

is_new : get_auth_info served ≡ none
unfolding with_log_metadata get_auth_info value
is_new = refl

let_through : (routed_by options served world).error ≡ none
unfolding logging_hooks log_routed auth_hooks auth_routed request_routed metrics_hooks
    metrics_routed with_log_metadata set_log_metadata set_auth_info value
let_through = refl

request_authenticated_example :
    IsAdmitted parse true served
      (set_log_metadata served "method" "Get" (set_log_metadata served "service" "Docs" ([] ∷ [])))
      "Bearer tok"
      (parse "Bearer tok")
      (routed_by options served world).context
unfolding get_auth_info
request_authenticated_example =
    request_authenticated twirp_package keep twirp_package-IsKept logger parse true free free
      options (call "POST" "/twirp/docs/Get") [] served world "Docs" "Get" twirp_package-IsChain
      twirp_package-HasOwnKeys options-made refl refl refl is_new let_through

answers :
    (logging_handler parse_url print route not_found server
      (call "GET" "/health/alive")
      []
      fresh).status
    ≡ some 200
unfolding logging_handler new_api_server new_api_server_with register_api serve_mux cors_middleware
    valid_origin lookup insert has_suffix with_log_metadata
answers = refl

-- A mux that knows the alive handler, and answers all else with an empty response.
abbrev route_alive : List String → HttpRequest → Option String
route_alive patterns r =
    if str_eq r.head.method "GET" && str_eq r.path "/health/alive"
    then some "GET /health/alive"
    else none

abbrev accept : Handler
accept r heap w = w
