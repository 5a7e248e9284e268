-- ===== src/Twirp/Metrics.antt =====
-- NewTwirpMetricsHooks (twirp_metrics.go). Metrics that are registered with one registerer have names
-- of their own: `register` is Registerer.Register, by the name of the metric.
use elephantine.Prelude.{ℕ, String, List, [], ◌∷◌, Option, none, some, ◌==◌, if◌then◌else◌}
use elephantine.Fault.{Fault, Result, ok, err}
use elephantine.Duration
use elephantine.LogContext.{Context, ContextValue, timestamp, with_value, value}
use elephantine.Twirp.Hooks.{Labels, Metrics, World, Routing, passes, ServerHooks, TwirpPackage}

pub record TwirpMetricsOptions : Type 0 where
  pub register : String → Option Fault
  pub test_latency : ℕ
  pub context_customer : Context → String

abbrev pub TwirpMetricOptionFunc : Type 0
TwirpMetricOptionFunc = TwirpMetricsOptions → TwirpMetricsOptions

unfoldable pub with_registerer : (String → Option Fault) → TwirpMetricOptionFunc
with_registerer reg opts = record opts { register = reg }

unfoldable pub with_static_test_latency : ℕ → TwirpMetricOptionFunc
with_static_test_latency latency opts = record opts { test_latency = latency }

unfoldable pub with_customer_func : (Context → String) → TwirpMetricOptionFunc
with_customer_func fn opts = record opts { context_customer = fn }

abbrev pub apply_all : List TwirpMetricOptionFunc → TwirpMetricsOptions → TwirpMetricsOptions
apply_all [] opt = opt
apply_all (f ∷ fs) opt = apply_all fs (f opt)

-- The key is a pointer of its own, which is no other key.
abbrev pub request_start_key : ℕ
request_start_key = 2

abbrev pub as_time : Option ContextValue → Option ℕ
as_time (some (timestamp t)) = some t
as_time _ = none

-- The calls of Register, in order.
abbrev pub register_all : (String → Option Fault) → List String → Option Fault
register_all register [] = none
register_all register (name ∷ names) = elim (register name) [
  | some e ↦ some (Fault.wrap "failed to register metric" e)
  | none ↦ register_all register names
]

abbrev pub status_text : Option String → String
status_text none = ""
status_text (some status) = status

module _ (twirp : TwirpPackage) (opt : TwirpMetricsOptions) where
  open twirp use {service_name, method_name, status_code}

  unfoldable pub metrics_received : Context → World → Routing
  metrics_received ctx w = passes (with_value request_start_key (timestamp w.now) ctx) w

  -- The duration that is observed for a request that was received at `start`.
  unfoldable pub observed : ℕ → World → ℕ
  observed start w = if opt.test_latency == 0 then Duration.since w.now start else opt.test_latency

  abbrev pub observe : Labels → Option ℕ → World → Metrics → Metrics
  observe labels none w m = m
  observe labels (some start) w m = record m {
    durations = (labels, observed start w) ∷ m.durations;
  }

  unfoldable pub metrics_sent : Context → World → World
  unfolding value
  metrics_sent ctx w = elim (service_name ctx) [
    | none ↦ w
    | some service ↦ elim (method_name ctx) [
      | none ↦ w
      | some method ↦
          let customer = opt.context_customer ctx in
          let counted = record w.metrics {
            responses =
                (service ∷ method ∷ status_text (status_code ctx) ∷ customer ∷ [])
                ∷ w.metrics.responses;
          } in
          record w {
            metrics =
                observe (service ∷ method ∷ customer ∷ []) (as_time (value ctx request_start_key)) w
                  counted;
          }
    ]
  ]

  unfoldable pub metrics_routed : Context → World → Routing
  metrics_routed ctx w = elim (service_name ctx) [
    | none ↦ passes ctx w
    | some service ↦ elim (method_name ctx) [
      | none ↦ passes ctx w
      | some method ↦ passes ctx (record w {
        metrics = record w.metrics {
          requests = (service ∷ method ∷ opt.context_customer ctx ∷ []) ∷ w.metrics.requests;
        };
      })
    ]
  ]

  unfoldable pub metrics_hooks : ServerHooks
  unfolding metrics_received metrics_sent metrics_routed
  metrics_hooks = record {
    request_received = metrics_received;
    request_routed = metrics_routed;
    response_sent = metrics_sent;
    error = λ ctx e w. w;
  }

-- `default` is prometheus.DefaultRegisterer.
unfoldable pub new_twirp_metrics_hooks :
    TwirpPackage
    → (default : String → Option Fault) → List TwirpMetricOptionFunc
    → Result ServerHooks
unfolding metrics_hooks
new_twirp_metrics_hooks twirp default opts =
    let opt =
      apply_all opts
        (record { register = default; test_latency = 0; context_customer = λ ctx. "" }) in
    elim (register_all opt.register
      ("rpc_requests_total" ∷ "rpc_duration_seconds" ∷ "rpc_responses_total" ∷ [])) [
        | some e ↦ err e
        | none ↦ ok (metrics_hooks twirp opt)
      ]
