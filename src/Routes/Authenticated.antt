-- ===== src/Routes/Authenticated.antt =====
-- Which requests the methods of an API are called for.
use elephantine.Prelude.{◌≡◌, String, Bool, List, Option, some, none, ap, sym, ◌∙◌}
use elephantine.Fault.{Fault, ok}
use elephantine.LogContext.{Context, Heap, get_auth_info, set_log_metadata, with_log_metadata}
use elephantine.Auth.Hook.{Answer, IsAdmitted, request_routed, request_routed-IsAdmitted}
use elephantine.Log.{ContextHandler}
use elephantine.Twirp.Hooks.{World, TwirpPackage, IsChain}
use elephantine.Twirp.Options.{ServiceOptions, new_default_service_options}
use elephantine.Twirp.Defaults.{HasOwnKeys, routed_by, routed_by_defaults}
use elephantine.Routes.{HttpRequest}
use elephantine.Routes.Served.{IsKept, first}

module _ (twirp : TwirpPackage) (with_headers : List String → Context → Context)
    (keeps : IsKept twirp with_headers) where
  -- With the default options, a request that the hooks let through was let in by its own header
  -- Authorization: the service finds in the context the information that the parser returned for it,
  -- or, where authentication is optional, the parser found no authorization there and the context is
  -- as it was. The context is any with the headers of the one that the API is served with, and with
  -- no authentication information yet.
  pub request_authenticated :
      (logger : ContextHandler) (parse : String → Answer) (require_auth : Bool)
      (default reg : String → Option Fault) (so : ServiceOptions) (r : HttpRequest) (heap : Heap)
      (ctx : Context) (w : World) (service method : String)
      → IsChain twirp
      → HasOwnKeys twirp
      → new_default_service_options twirp logger parse default reg require_auth ≡ ok so
      → twirp.http_request_headers ctx
        ≡ twirp.http_request_headers
            (with_headers r.authorization (with_log_metadata r.context heap).0)
      → twirp.service_name ctx ≡ some service
      → twirp.method_name ctx ≡ some method
      → get_auth_info ctx ≡ none
      → (routed_by so ctx w).error ≡ none
      → let noted =
          set_log_metadata ctx "method" method (set_log_metadata ctx "service" service w.heap) in
        let header = first r.authorization in
        IsAdmitted parse require_auth ctx noted header (parse header) (routed_by so ctx w).context
  request_authenticated logger parse require_auth default reg so r heap ctx w service method chains
        own made headers named called fresh through =
      let (error, context, _, _) =
        routed_by_defaults twirp logger parse require_auth default reg so ctx w service method
          chains own made named called fresh in
      let found = headers ∙ keeps.found r.authorization (with_log_metadata r.context heap).0 in
      let noted =
        set_log_metadata ctx "method" method (set_log_metadata ctx "service" service w.heap) in
      let admitted =
        ap (λ h. (request_routed parse require_auth h ctx noted).error) (sym found)
        ∙ sym error
        ∙ through in
      rw (context, found)
        (request_routed-IsAdmitted parse require_auth ctx noted (first r.authorization) admitted)
