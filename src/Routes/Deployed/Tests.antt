-- ===== src/Routes/Deployed/Tests.antt =====
-- A test server with one API.
use elephantine.Prelude.{◌≡◌, true, [], ◌∷◌, none, some, inl}
use elephantine.Server.Tests.{first_error}
use elephantine.Routes.{ApiServer, new_api_server, logging_handler, default_cors}
use elephantine.Routes.TestServers.{
  TestApiServer, new_test_api_server, clean_up, start_api_server, serve_test,
}
use elephantine.Routes.Deployed.{configured, test_server_as_deployed}
use elephantine.Routes.Tests.{
  keep, options, api, perform, parse_url, print, route, not_found, call, fresh,
}

abbrev deployed : ApiServer
deployed =
    configured keep ((api, options) ∷ []) (some default_cors)
      (new_api_server perform ":1080" ":1081")

test_server_as_deployed_example :
    (t : TestApiServer) × (new_test_api_server perform ":1080" ":2081" ≡ some t)
    × (let before = configured keep [] (some default_cors) t.api in
        (serve_test parse_url print route not_found
            (record t { api = before })
            (call "POST" "/twirp/docs/Get")
            []
            fresh
          ≡ none)
        × (before.health.ready_functions ≡ deployed.health.ready_functions)
        × ((listening : ApiServer) × (start_api_server first_error before ≡ inl listening)
            × (let after : TestApiServer = record t {
              api = configured keep ((api, options) ∷ []) none listening;
            } in
                (serve_test parse_url print route not_found after
                    (call "POST" "/twirp/docs/Get")
                    []
                    fresh
                  ≡ some (
                      logging_handler parse_url print route not_found deployed
                        (call "POST" "/twirp/docs/Get")
                        []
                        fresh))
                × (serve_test parse_url print route not_found
                      (clean_up none after)
                      (call "POST" "/twirp/docs/Get")
                      []
                      fresh
                    ≡ none)
                × ((clean_up none after).api.health.test_server
                    ≡ some (record { addr = ":2081"; is_closed = true })))))
test_server_as_deployed_example =
    test_server_as_deployed keep parse_url print route not_found first_error perform ":1080" ":2081"
      ":1081" [] ((api, options) ∷ []) (some default_cors) none none (call "POST" "/twirp/docs/Get")
      [] fresh
