-- ===== src/Routes.antt =====
-- APIServer and its handlers (api_server.go): what becomes of a request. The mux of net/http and what
-- twirp keeps in a context are arguments. `TestServers` is NewTestAPIServer.
pub mod Served
pub mod Authenticated
pub mod Alive
pub mod TestServers
pub mod Deployed
mod Tests
use elephantine.Prelude.{
  ℕ, String, Bool, true, false, List, [], ◌∷◌, Option, none, some, if◌then◌else◌, ◌+++◌, map,
  starts_with,
}
use elephantine.Prelude.Lists.{lookup}
use elephantine.Fault.{Fault, Result}
use elephantine.Cors
use elephantine.Cors.{Url, CorsOptions, Response, set_header, write_header, cors_middleware}
use elephantine.Health.{HealthServer, new_health_server, add_ready_function, liveness_ready_check}
use elephantine.LogContext.{Context, Heap, with_log_metadata}
use elephantine.Twirp.Options.{ServiceOptions}

-- What is read of a request: `head` by CORSMiddleware, and the values of its header Authorization.
pub record HttpRequest : Type 0 where
  pub head : Cors.Request
  pub path : String
  pub authorization : List String
  pub context : Context

-- A handler, with the metadata maps that its request's context refers to.
abbrev pub Handler : Type 0
Handler = HttpRequest → Heap → Response → Response

-- The handlers by their patterns.
abbrev pub ServeMux : Type 0
ServeMux = List (String × Handler)

pub record ApiServiceHandler : Type 0 where
  pub path_prefix : String
  pub serve_http : Handler

-- `handler` is the Handler of the handlerWrapper: nil as `none`, and else the logging handler that
-- ListenAndServe has set, by the CORS options that it was made with.
pub record ApiServer : Type 0 where
  pub test_server : Bool
  pub addr : String
  pub profile_addr : String
  pub handler : Option (Option CorsOptions)
  pub mux : ServeMux
  pub health : HealthServer
  pub cors : Option CorsOptions

abbrev pub alive_handler : Handler
alive_handler r heap w = write_header 200 (set_header "Content-Type" "text/plain" w)

unfoldable pub public_addr : String → String
public_addr addr = if starts_with addr ":" then "localhost" +++ addr else addr

unfoldable pub alive_endpoint : String → String
alive_endpoint addr = "http://" +++ public_addr addr +++ "/health/alive"

abbrev pub default_cors : CorsOptions
default_cors = record {
  allow_insecure = false;
  allow_insecure_localhost = true;
  hosts = "localhost" ∷ "tt.se" ∷ [];
  allowed_methods = "GET" ∷ "POST" ∷ [];
  allowed_headers = "Authorization" ∷ "Content-Type" ∷ [];
  max_age_seconds = 0;
}

-- newAPIServer: `perform` is what the HTTP client gets for a GET of a URL.
unfoldable pub new_api_server_with :
    (perform : String → Result (ℕ × String))
    → Bool
    → (addr profile_addr : String) → ServeMux
    → Option (Option CorsOptions)
    → HealthServer
    → ApiServer
unfolding add_ready_function liveness_ready_check alive_endpoint
new_api_server_with perform test_server addr profile_addr mux handler health = record {
  test_server = test_server;
  addr = addr;
  profile_addr = profile_addr;
  handler = handler;
  mux = ("GET /health/alive", alive_handler) ∷ mux;
  health =
      add_ready_function "api_liveness" (liveness_ready_check none (perform (alive_endpoint addr)))
        health;
  cors = some default_cors;
}

unfoldable pub new_api_server :
    (perform : String → Result (ℕ × String)) → (addr profile_addr : String) → ApiServer
unfolding new_api_server_with
new_api_server perform addr profile_addr =
    new_api_server_with perform false addr profile_addr [] none (new_health_server profile_addr)

-- twirp.WithHTTPRequestHeaders, of a header that has Authorization alone.
module _ (with_http_request_headers : List String → Context → Context) where
  -- The handler that RegisterAPI installs; AuthMiddleware, where it is set, is that of
  -- SetAuthInfoValidation, which returns no error.
  unfoldable pub api_handler : ApiServiceHandler → ServiceOptions → Handler
  api_handler api opt r heap w =
      if opt.auth_middleware
      then api.serve_http
          (record r { context = with_http_request_headers r.authorization r.context }) heap w
      else api.serve_http r heap w

  unfoldable pub register_api : ApiServiceHandler → ServiceOptions → ApiServer → ApiServer
  unfolding api_handler
  register_api api opt s = record s {
    mux = ("POST " +++ api.path_prefix, api_handler api opt) ∷ s.mux;
  }

module _ (parse : String → Option Url) (print : ℕ → String)
    (route : List String → HttpRequest → Option String) (not_found : Handler) where
  -- The mux: `route` picks one of the patterns.
  unfoldable pub serve_mux : ServeMux → Handler
  serve_mux mux r heap w = elim (route (map (λ ((p, h) : String × Handler). p) mux) r) [
    | none ↦ not_found r heap w
    | some pattern ↦ elim (lookup pattern mux) [
      | none ↦ not_found r heap w
      | some handler ↦ handler r heap w
    ]
  ]

  -- The handler that ListenAndServe sets up.
  unfoldable pub logging_handler : ApiServer → Handler
  unfolding serve_mux cors_middleware with_log_metadata
  logging_handler s r heap w =
      let (ctx, logged) = with_log_metadata r.context heap in
      let inner : Cors.Handler =
        λ head w'. serve_mux s.mux (record r { head = head; context = ctx }) logged w' in
      elim s.cors [
        | none ↦ inner r.head w
        | some opts ↦ cors_middleware parse print opts inner r.head w
      ]
