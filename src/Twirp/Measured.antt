-- ===== src/Twirp/Measured.antt =====
-- What the metrics of a service with the default options tell of a request.
use elephantine.Prelude.{◌≡◌, refl, ◌∙◌, String, Bool, [], ◌∷◌, Option, some, arith}
use elephantine.Duration
use elephantine.Fault.{Fault, ok}
use elephantine.LogContext.{Context, Heap, set_auth_info, timestamp, value}
use elephantine.Auth.Hook.{Answer, request_routed}
use elephantine.Log.{ContextHandler}
use elephantine.Twirp.Hooks.{World, TwirpPackage, IsChain}
use elephantine.Twirp.Logging.{logging_hooks, log_routed}
use elephantine.Twirp.Metrics.{
  metrics_hooks, metrics_received, metrics_routed, metrics_sent, observed, request_start_key,
  status_text,
}
use elephantine.Twirp.Options.{ServiceOptions, auth_hooks, auth_routed, new_default_service_options}
use elephantine.Twirp.Defaults.{
  received_by, routed_by, sent_by, metrics_options, new_default_service_options-hooks,
  routed_by-in_order,
}

-- What the package adds to a context hides nothing of the metrics' own.
abbrev pub Extends : Context → Context → Type 0
Extends ctx later = value later request_start_key ≡ value ctx request_start_key

module _ (twirp : TwirpPackage) (logger : ContextHandler) (parse : String → Answer)
    (require_auth : Bool) (default reg : String → Option Fault) (so : ServiceOptions)
    (chains : IsChain twirp)
    (made : new_default_service_options twirp logger parse default reg require_auth ≡ ok so) where
  received-start :
      (ctx : Context) (w : World)
      → value (received_by so ctx w).context request_start_key ≡ some (timestamp w.now)
  unfolding logging_hooks auth_hooks metrics_hooks metrics_received value
  received-start ctx w =
      rw
        (
          new_default_service_options-hooks twirp logger parse require_auth default reg so made,
          chains.received,
          chains.received,
        )
        refl

  -- Routing leaves the time of the request in its context.
  auth-start :
      (ctx : Context) (heap : Heap) (headers : Option String)
      → value (request_routed parse require_auth headers ctx heap).context request_start_key
        ≡ value ctx request_start_key
  unfolding request_routed set_auth_info value
  auth-start ctx heap headers = ground arith

  routed-start :
      (ctx : Context) (w : World)
      → value (routed_by so ctx w).context request_start_key ≡ value ctx request_start_key
  unfolding log_routed auth_routed metrics_routed
  routed-start ctx w =
      rw (routed_by-in_order twirp logger parse require_auth default reg so ctx w chains made) (
        ground (
          arith,
          auth-start ctx (log_routed twirp logger ctx w).world.heap
              (twirp.http_request_headers ctx),
        ))

  sent-metrics :
      (ctx : Context) (w : World)
      → sent_by so ctx w ≡ metrics_sent twirp (metrics_options reg) ctx w
  unfolding logging_hooks auth_hooks metrics_hooks
  sent-metrics ctx w =
      rw
        (
          new_default_service_options-hooks twirp logger parse require_auth default reg so made,
          chains.sent,
          chains.sent,
        )
        refl

  -- A request that is received, routed and answered, whether it is let through or not, is counted once
  -- as answered, under its service, method and status, and its duration is observed once: the time from
  -- when it was received until it was answered. The package may add to the context on the way.
  pub request_measured :
      (ctx routed_ctx sent_ctx : Context) (received routed sent : World) (service method : String)
      → Extends (received_by so ctx received).context routed_ctx
      → Extends (routed_by so routed_ctx routed).context sent_ctx
      → twirp.service_name sent_ctx ≡ some service
      → twirp.method_name sent_ctx ≡ some method
      → sent_by so sent_ctx sent ≡ record sent {
        metrics = record sent.metrics {
          responses =
              (service ∷ method ∷ status_text (twirp.status_code sent_ctx) ∷ "" ∷ [])
              ∷ sent.metrics.responses;
          durations =
              (service ∷ method ∷ "" ∷ [], Duration.since sent.now received.now)
              ∷ sent.metrics.durations;
        };
      }
  unfolding metrics_sent observed
  request_measured ctx routed_ctx sent_ctx received routed sent service method first second named
        called =
      let started : value sent_ctx request_start_key ≡ some (timestamp received.now) =
        second ∙ (routed-start routed_ctx routed ∙ (first ∙ received-start ctx received)) in
      rw (sent-metrics sent_ctx sent) (ground arith)
