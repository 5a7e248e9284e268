-- ===== src/Routes/Deployed.antt =====
-- That a test server does what the deployed server does.
mod Tests
use elephantine.Prelude.{
  ◌≡◌, ◌⊎◌, inl, inr, refl, sym, ◌∙◌, ap, String, Bool, true, false, ℕ, List, [], ◌∷◌, ◌++◌, Option,
  none, some, arith, if◌then◌else◌,
}
use elephantine.Fault.{Fault, Result}
use elephantine.Cors.{Url, CorsOptions, Response}
use elephantine.LogContext.{Context, Heap}
use elephantine.Twirp.Options.{ServiceOptions}
use elephantine.Health.{
  HealthServer, HttpServer, new_test_health_server, health_addr, close_health, new_health_server,
  add_ready_function,
}
use elephantine.Server.Group.{GroupPackage}
use elephantine.Server.Api.{Service, listen_and_serve}
use elephantine.Routes.{
  HttpRequest, Handler, ApiServiceHandler, ApiServer, new_api_server_with, new_api_server,
  register_api, serve_mux, logging_handler, ServeMux,
}
use elephantine.Routes.Alive.{registered}
use elephantine.Routes.TestServers.{
  TestApiServer, new_test_api_server, clean_up, start_api_server, serve_test,
}

module _ (with_headers : List String → Context → Context) where
  -- The calls of RegisterAPI change the mux alone, by the mux alone.
  registered-mux_only :
      (apis : List (ApiServiceHandler × ServiceOptions)) (s : ApiServer)
      → registered with_headers apis s ≡ record s { mux = (registered with_headers apis s).mux }
  unfolding register_api
  registered-mux_only [] s = refl
  registered-mux_only ((api, opt) ∷ later) s =
      registered-mux_only later (register_api with_headers api opt s)

  registered-same :
      (apis : List (ApiServiceHandler × ServiceOptions)) (s : ApiServer)
      → ((registered with_headers apis s).test_server ≡ s.test_server)
        × ((registered with_headers apis s).handler ≡ s.handler)
        × ((registered with_headers apis s).health ≡ s.health)
  registered-same apis s =
      let keep = registered-mux_only apis s in
      (
        ap (λ (a : ApiServer). a.test_server) keep,
        ap (λ (a : ApiServer). a.handler) keep,
        ap (λ (a : ApiServer). a.health) keep,
      )

  registered-mux :
      (apis : List (ApiServiceHandler × ServiceOptions)) (s s' : ApiServer)
      → s.mux ≡ s'.mux
      → (registered with_headers apis s).mux ≡ (registered with_headers apis s').mux
  unfolding register_api
  registered-mux [] s s' same = same
  registered-mux ((api, opt) ∷ later) s s' same =
      registered-mux later (register_api with_headers api opt s)
        (register_api with_headers api opt s') (rw same refl)

  -- A server with its APIs and its CORS options.
  abbrev pub configured :
      List (ApiServiceHandler × ServiceOptions) → Option CorsOptions → ApiServer → ApiServer
  configured apis cors s = record (registered with_headers apis s) { cors = cors }

  registered-append :
      (apis later : List (ApiServiceHandler × ServiceOptions)) (s : ApiServer)
      → registered with_headers (apis ++ later) s
        ≡ registered with_headers later (registered with_headers apis s)
  registered-append [] later s = refl
  registered-append ((api, opt) ∷ apis) later s =
      registered-append apis later (register_api with_headers api opt s)

  module _ (parse : String → Option Url) (print : ℕ → String)
      (route : List String → HttpRequest → Option String) (not_found : Handler) where
    logging_handler-same :
        (s s' : ApiServer) (r : HttpRequest) (heap : Heap) (w : Response)
        → s.mux ≡ s'.mux
        → s.cors ≡ s'.cors
        → logging_handler parse print route not_found s r heap w
          ≡ logging_handler parse print route not_found s' r heap w
    unfolding logging_handler
    logging_handler-same s s' r heap w mux cors = rw (mux, cors) refl

    -- A test server with an address, and the server that is deployed at that address with the same APIs
    -- and the same CORS options. The test server is made without a panic. Before ListenAndServe it
    -- answers no request; ListenAndServe returns at once, and from then on the test server answers as
    -- the deployed one, with the APIs that are registered later included, and whatever its CORS options
    -- are changed to later. It has the deployed server's check of liveness from the start. After the
    -- clean-up it answers nothing, and its health server is closed.
    pub test_server_as_deployed :
        (grp : GroupPackage) (perform : String → Result (ℕ × String))
        (addr health_at profile_addr : String)
        (apis later : List (ApiServiceHandler × ServiceOptions)) (c changed : Option CorsOptions)
        (close_error : Option Fault) (r : HttpRequest) (heap : Heap) (w : Response)
        → let deployed = configured (apis ++ later) c (new_api_server perform addr profile_addr) in
          (t : TestApiServer) × (new_test_api_server perform addr health_at ≡ some t)
          × (let before = configured apis c t.api in
              (serve_test parse print route not_found (record t { api = before }) r heap w ≡ none)
              × (before.health.ready_functions ≡ deployed.health.ready_functions)
              × ((listening : ApiServer) × (start_api_server grp before ≡ inl listening)
                  × (let after : TestApiServer = record t {
                    api = configured later changed listening;
                  } in
                      (serve_test parse print route not_found after r heap w
                        ≡ some (logging_handler parse print route not_found deployed r heap w))
                      × (serve_test parse print route not_found
                            (clean_up close_error after)
                            r
                            heap
                            w
                          ≡ none)
                      × ((clean_up close_error after).api.health.test_server
                          ≡ some (record { addr = health_at; is_closed = true })))))
    unfolding new_test_api_server new_api_server new_api_server_with serve_test start_api_server
        clean_up close_health new_test_health_server new_health_server add_ready_function
    test_server_as_deployed grp perform addr health_at profile_addr apis later c changed close_error
          r heap w =
        let made =
          new_api_server_with perform true addr health_at [] none
            (new_test_health_server health_at) in
        let server = new_api_server perform addr profile_addr in
        let (is_test, handler, health) = registered-same apis made in
        let listening : ApiServer = record (configured apis c made) { handler = some c } in
        let (_, handler', health') = registered-same later listening in
        let (_, _, checks) = registered-same (apis ++ later) server in
        let mux : (registered with_headers later listening).mux
            ≡ (registered with_headers (apis ++ later) server).mux =
          registered-mux later listening (registered with_headers apis server)
            (registered-mux apis made server refl)
          ∙ ap (λ (a : ApiServer). a.mux) (sym (registered-append apis later server)) in
        (
          _,
          refl,
          (
            rw handler refl,
            rw (health, checks) refl,
            (
              listening,
              rw is_test refl,
              (
                rw handler' (
                    ap some (
                      logging_handler-same
                        (record (configured later changed listening) { cors = c })
                        (configured (apis ++ later) c server) r heap w mux refl)),
                refl,
                rw (health', health) refl,
              ),
            ),
          ),
        )
