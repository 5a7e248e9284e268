-- ===== src/Routes/TestServers.antt =====
-- NewTestAPIServer (api_server.go): servers that listen from the start, and whose handler is set by
-- ListenAndServe.
use elephantine.Prelude.{
  ◌⊎◌, inl, inr, String, true, false, ℕ, List, [], Option, none, some, if◌then◌else◌,
}
use elephantine.Fault.{Fault, Result}
use elephantine.Cors.{Url, Response}
use elephantine.LogContext.{Heap}
use elephantine.Health.{HttpServer, new_test_health_server, health_addr, close_health}
use elephantine.Server.Group.{GroupPackage}
use elephantine.Server.Api.{Service, listen_and_serve}
use elephantine.Routes.{HttpRequest, Handler, ApiServer, new_api_server_with, logging_handler}

-- An API server with the server of httptest that calls its handlerWrapper.
pub record TestApiServer : Type 0 where
  pub api : ApiServer
  pub listener : HttpServer

-- `addr` and `health_addr` are where the servers of httptest listen. `none` is for a panic.
unfoldable pub new_test_api_server :
    (perform : String → Result (ℕ × String)) → (addr health_at : String) → Option TestApiServer
unfolding new_api_server_with new_test_health_server health_addr
new_test_api_server perform addr health_at =
    let health = new_test_health_server health_at in
    elim (health_addr health) [
      | none ↦ none
      | some profile_addr ↦ some (record {
        api = new_api_server_with perform true addr profile_addr [] none health;
        listener = record { addr = addr; is_closed = false };
      })
    ]

-- The function given to Cleanup: the error of closing the health server is dropped.
unfoldable pub clean_up : Option Fault → TestApiServer → TestApiServer
unfolding close_health
clean_up close_error t = record {
  api = record t.api { health = (close_health close_error t.api.health).1 };
  listener = record t.listener { is_closed = true };
}

-- ListenAndServe: a test server has its handler set, which is all; for any other the service runs.
unfoldable pub start_api_server : (grp : GroupPackage) → ApiServer → ApiServer ⊎ Service grp
unfolding listen_and_serve
start_api_server grp s =
    if s.test_server then inl (record s { handler = some s.cors }) else inr (listen_and_serve grp)

module _ (parse : String → Option Url) (print : ℕ → String)
    (route : List String → HttpRequest → Option String) (not_found : Handler) where
  -- A request to the test server, through handlerWrapper.ServeHTTP: `none` where there is no answer,
  -- since the server is closed, or calls the method of a nil handler.
  unfoldable pub serve_test : TestApiServer → HttpRequest → Heap → Response → Option Response
  unfolding logging_handler
  serve_test t r heap w = if t.listener.is_closed then none else elim t.api.handler [
    | none ↦ none
    | some cors ↦
        some (logging_handler parse print route not_found (record t.api { cors = cors }) r heap w)
  ]
