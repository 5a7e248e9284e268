-- ===== src/Twirp/Defaults.antt =====
-- What a service with the default options does with a request that is routed to it.
use elephantine.Prelude.{
  ◌≡◌, refl, String, Bool, [], ◌∷◌, Option, none, some, arith, is_some, Option-cases, inl, inr,
  if◌then◌else◌,
}
use elephantine.Fault.{Fault, ok, Result-cases}
use elephantine.LogContext.{Context, Heap, AuthInfo, get_auth_info, set_auth_info, set_log_metadata}
use elephantine.Auth.Hook.{Answer, request_routed, request_routed-unlogged}
use elephantine.Log.{ContextHandler}
use elephantine.Twirp.Hooks.{World, Routing, passes, chained, ServerHooks, TwirpPackage, IsChain}
use elephantine.Twirp.Logging.{logging_hooks, log_routed}
use elephantine.Twirp.Metrics.{
  TwirpMetricsOptions, metrics_hooks, metrics_routed, new_twirp_metrics_hooks, with_registerer,
}
use elephantine.Twirp.Options.{ServiceOptions, auth_hooks, auth_routed, new_default_service_options}

-- The package keeps what it knows of a request under keys of its own.
pub record HasOwnKeys (twirp : TwirpPackage) : Type 0 where
  pub service :
      (ctx : Context) (info : Option AuthInfo)
      → twirp.service_name (set_auth_info ctx info) ≡ twirp.service_name ctx
  pub method :
      (ctx : Context) (info : Option AuthInfo)
      → twirp.method_name (set_auth_info ctx info) ≡ twirp.method_name ctx

abbrev pub received_by : ServiceOptions → Context → World → Routing
received_by so ctx w = elim so.hooks [ none ↦ passes ctx w | some h ↦ h.request_received ctx w ]

abbrev pub routed_by : ServiceOptions → Context → World → Routing
routed_by so ctx w = elim so.hooks [ none ↦ passes ctx w | some h ↦ h.request_routed ctx w ]

abbrev pub sent_by : ServiceOptions → Context → World → World
sent_by so ctx w = elim so.hooks [ none ↦ w | some h ↦ h.response_sent ctx w ]

-- The options of the metrics that the defaults ask for.
abbrev pub metrics_options : (String → Option Fault) → TwirpMetricsOptions
metrics_options reg = record { register = reg; test_latency = 0; context_customer = λ ctx. "" }

module _ (twirp : TwirpPackage) (logger : ContextHandler) (parse : String → Answer)
    (require_auth : Bool) where
  -- The hooks of the default options, in their order.
  abbrev pub default_hooks : (String → Option Fault) → ServerHooks
  default_hooks reg =
      twirp.chain
        (some (
          twirp.chain (some (logging_hooks twirp logger))
            (some (auth_hooks twirp parse require_auth))))
        (some (metrics_hooks twirp (metrics_options reg)))

  pub new_default_service_options-hooks :
      (default reg : String → Option Fault) (so : ServiceOptions)
      → new_default_service_options twirp logger parse default reg require_auth ≡ ok so
      → so.hooks ≡ some (default_hooks reg)
  unfolding new_default_service_options new_twirp_metrics_hooks with_registerer
  new_default_service_options-hooks default reg so h = ground arith

  -- What the three hooks do one after the other.
  abbrev pub routed_in_order : (String → Option Fault) → Context → World → Routing
  routed_in_order reg ctx w =
      chained (chained (log_routed twirp logger ctx w) (auth_routed twirp parse require_auth))
        (metrics_routed twirp (metrics_options reg))

  pub routed_by-in_order :
      (default reg : String → Option Fault) (so : ServiceOptions) (ctx : Context) (w : World)
      → IsChain twirp
      → new_default_service_options twirp logger parse default reg require_auth ≡ ok so
      → routed_by so ctx w ≡ routed_in_order reg ctx w
  unfolding logging_hooks auth_hooks metrics_hooks
  routed_by-in_order default reg so ctx w chains h =
      rw (new_default_service_options-hooks default reg so h, chains.routed, chains.routed) refl

  -- Authentication changes nothing of what the package knows of a request.
  routed-names :
      (ctx : Context) (heap : Heap) (headers : Option String)
      → HasOwnKeys twirp
      → let after = (request_routed parse require_auth headers ctx heap).context in
        (twirp.service_name after ≡ twirp.service_name ctx)
        × (twirp.method_name after ≡ twirp.method_name ctx)
  unfolding request_routed
  routed-names ctx heap none own = ground arith
  routed-names ctx heap (some header) own = elim (Result-cases (parse header)) [
    | inr (e, failed) ↦ ground arith
    | inl (answer, parsed) ↦ elim (Option-cases answer) [
      | inl nothing ↦ ground arith
      | inr (auth, found) ↦ ground (arith, own.service ctx (some auth), own.method ctx (some auth))
    ]
  ]

  -- With the default options, on a request to a service and a method, without authentication in its
  -- context yet: whether the request is let through, and with which context, is what authentication
  -- answers; the service and the method are logged, the subject is not, although both the logging and
  -- the authentication set it; and the request is counted exactly if it is let through.
  pub routed_by_defaults :
      (default reg : String → Option Fault) (so : ServiceOptions) (ctx : Context) (w : World)
      (service method : String)
      → IsChain twirp
      → HasOwnKeys twirp
      → new_default_service_options twirp logger parse default reg require_auth ≡ ok so
      → twirp.service_name ctx ≡ some service
      → twirp.method_name ctx ≡ some method
      → get_auth_info ctx ≡ none
      → let noted =
          set_log_metadata ctx "method" method (set_log_metadata ctx "service" service w.heap) in
        let auth = request_routed parse require_auth (twirp.http_request_headers ctx) ctx noted in
        let r = routed_by so ctx w in
        (r.error ≡ auth.error)
        × (r.context ≡ auth.context)
        × (r.world.heap ≡ noted)
        × (r.world.metrics ≡ (
            if is_some auth.error
            then w.metrics
            else record w.metrics { requests = (service ∷ method ∷ "" ∷ []) ∷ w.metrics.requests }))
  unfolding log_routed auth_routed metrics_routed
  routed_by_defaults default reg so ctx w service method chains own h named called fresh =
      let noted =
        set_log_metadata ctx "method" method (set_log_metadata ctx "service" service w.heap) in
      let headers = twirp.http_request_headers ctx in
      let names = routed-names ctx noted headers own in
      let unlogged = request_routed-unlogged parse require_auth ctx noted headers in
      rw (routed_by-in_order default reg so ctx w chains h)
        (ground arith, ground arith, ground arith, ground arith)
