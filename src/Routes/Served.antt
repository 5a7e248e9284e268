-- ===== src/Routes/Served.antt =====
-- Which requests an API is served, and what its hooks then make of them.
use elephantine.Prelude.{
  ℕ, ◌≡◌, ◌≢◌, refl, inl, ◌∙◌, String, true, not, ◌&&◌, List, [], ◌∷◌, Option, none, some, arith,
  eq_iff, str_eq, if◌then◌else◌, ◌+++◌, map,
}
use elephantine.Prelude.Lists.{lookup}
use elephantine.Cors
use elephantine.Cors.{Url, CorsOptions, Response, valid_origin}
use elephantine.Cors.Middleware.{cors_middleware-request}
use elephantine.LogContext.Keys.{read-length}
use elephantine.LogContext.{Context, Heap, value, log_ctx_key, get_log_metadata, with_log_metadata}
use elephantine.Twirp.Hooks.{TwirpPackage}
use elephantine.Twirp.Options.{ServiceOptions}
use elephantine.Routes.{
  HttpRequest, Handler, ApiServiceHandler, ApiServer, api_handler, register_api, serve_mux,
  logging_handler,
}

-- Header.Get of the header that twirp keeps.
abbrev pub first : List String → String
first [] = ""
first (s ∷ later) = s

-- What the package documents of WithHTTPRequestHeaders: the headers are found in the context again, and
-- are kept under a key of the package's own.
pub record IsKept (twirp : TwirpPackage) (with_headers : List String → Context → Context)
    : Type 0 where
  pub found :
      (headers : List String) (ctx : Context)
      → twirp.http_request_headers (with_headers headers ctx) ≡ some (first headers)
  pub other :
      (headers : List String) (ctx : Context)
      → value (with_headers headers ctx) log_ctx_key ≡ value ctx log_ctx_key

module _ (parse : String → Option Url) (print : ℕ → String)
    (route : List String → HttpRequest → Option String) (not_found : Handler) where
  -- The pattern that the mux picks for a request. By then the context is the one with log metadata.
  abbrev pub patterns : ApiServer → List String
  patterns s = map (λ ((p, h) : String × Handler). p) s.mux

  pub logging_handler-request :
      (s : ApiServer) (opts : CorsOptions) (r : HttpRequest) (heap : Heap) (w : Response)
      → s.cors ≡ some opts
      → r.head.method ≢ "OPTIONS"
      → lookup "Access-Control-Allow-Origin" w.header ≡ none
      → (seen : Response) × (logging_handler parse print route not_found s r heap w
          ≡ serve_mux parse print route not_found s.mux
              (record r { context = (with_log_metadata r.context heap).0 })
              (with_log_metadata r.context heap).1
              seen)
        × (seen.status ≡ w.status)
        × (lookup "Access-Control-Allow-Origin" seen.header ≡ (
            if not (str_eq r.head.origin "") && valid_origin parse r.head.origin opts
            then some r.head.origin
            else none))
  unfolding logging_handler
  logging_handler-request s opts r heap w set plain unset =
      let (ctx, logged) = with_log_metadata r.context heap in
      let inner : Cors.Handler = λ head w'.
        serve_mux parse print route not_found s.mux (record r { head = head; context = ctx }) logged
          w' in
      let (seen, through, status, allowed, _) =
        cors_middleware-request parse print opts inner r.head w (inl plain) unset in
      (seen, rw set through, status, allowed)

  module _ (twirp : TwirpPackage) (with_headers : List String → Context → Context)
      (keeps : IsKept twirp with_headers) where
    -- The context that an API is served with.
    abbrev pub served_context : HttpRequest → Heap → Context
    served_context r heap = with_headers r.authorization (with_log_metadata r.context heap).0

    abbrev pub IsRegistered : ApiServiceHandler → ServiceOptions → ApiServer → Type 0
    IsRegistered api opt s =
        lookup ("POST " +++ api.path_prefix) s.mux ≡ some (api_handler with_headers api opt)

    pub register_api-IsRegistered :
        (api : ApiServiceHandler) (opt : ServiceOptions) (s : ApiServer)
        → IsRegistered api opt (register_api with_headers api opt s)
    unfolding register_api lookup
    register_api-IsRegistered api opt s =
        ground (arith, eq_iff ("POST " +++ api.path_prefix) ("POST " +++ api.path_prefix))

    -- The mux picks the API's pattern for the request.
    abbrev pub IsRouted : ApiServiceHandler → ApiServer → HttpRequest → Heap → Type 0
    IsRouted api s r heap =
        route (patterns s) (record r { context = (with_log_metadata r.context heap).0 })
        ≡ some ("POST " +++ api.path_prefix)

    -- A request that the mux routes to an API with authentication, through a server with CORS, and
    -- that is no OPTIONS request, reaches the API itself, before any status is written: its origin is
    -- allowed exactly if it is given and valid, its context has log metadata of its own, which is
    -- empty, and the headers that twirp finds in the context are the request's own Authorization.
    pub request_served :
        (api : ApiServiceHandler) (opt : ServiceOptions) (s : ApiServer) (opts : CorsOptions)
        (r : HttpRequest) (heap : Heap) (w : Response)
        → IsRegistered api opt s
        → opt.auth_middleware ≡ true
        → s.cors ≡ some opts
        → r.head.method ≢ "OPTIONS"
        → lookup "Access-Control-Allow-Origin" w.header ≡ none
        → IsRouted api s r heap
        → let ctx = served_context r heap in
          let (_, logged) = with_log_metadata r.context heap in
          ((seen : Response) × (logging_handler parse print route not_found s r heap w
              ≡ api.serve_http (record r { context = ctx }) logged seen)
            × (seen.status ≡ w.status)
            × (lookup "Access-Control-Allow-Origin" seen.header ≡ (
                if not (str_eq r.head.origin "") && valid_origin parse r.head.origin opts
                then some r.head.origin
                else none)))
          × (twirp.http_request_headers ctx ≡ some (first r.authorization))
          × (get_log_metadata ctx logged ≡ some [])
    unfolding serve_mux api_handler with_log_metadata get_log_metadata value
    request_served api opt s opts r heap w registered auth set plain unset routed =
        let (seen, through, status, allowed) =
          logging_handler-request s opts r heap w set plain unset in
        (
          (
            seen,
            through ∙ rw (serve_mux, routed, registered, api_handler, auth) refl,
            status,
            allowed,
          ),
          keeps.found _ _,
          rw (get_log_metadata, keeps.other) (read-length heap []),
        )
