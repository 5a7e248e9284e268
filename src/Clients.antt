-- ===== src/Clients.antt =====
-- HTTPClientInstrumentation (http.go): the metrics of HTTP clients. The registry and the round trippers
-- of the package prometheus are arguments. A round tripper that panics has an outcome too, since the
-- deferred calls are made then.
pub mod Registered
pub mod InFlight
mod Tests
use elephantine.Prelude.{ℕ, String, Bool, List, [], ◌∷◌, Option, none, some}
use elephantine.Fault
use elephantine.Fault.{Fault, Result, ok, err}

-- A registerer, by the names of the collectors: `register` leaves the registry that it is called on
-- changed or not, with its error.
pub record RegistererPackage : Type 1 where
  pub Registry : Type 0
  pub register : String → Registry → Option Fault × Registry
  pub has : String → Registry → Bool

unfoldable pub collectors : List String
collectors =
    "client_in_flight_requests" ∷ "client_requests_total" ∷ "tls_duration_seconds"
    ∷ "dns_duration_seconds" ∷ "client_request_duration_seconds" ∷ []

module _ (prom : RegistererPackage) where
  open prom use {Registry, register}

  -- The loop over the collectors.
  unfoldable pub register_collectors : List String → Registry → Option Fault × Registry
  register_collectors [] reg = (none, reg)
  register_collectors (name ∷ names) reg =
      let (e, after) = register name reg in
      let rest = register_collectors names after in
      elim e [
        | some f ↦ (some (Fault.wrap "failed to register metrics collector" f), after)
        | none ↦ rest
      ]

  unfoldable pub new_http_client_instrumentation : Registry → Option Fault × Registry
  unfolding collectors
  new_http_client_instrumentation reg = register_collectors collectors reg

-- What a histogram is told: its name, the label "event", and the value.
pub record Observation : Type 0 where
  pub histogram : String
  pub event : String
  pub value : ℕ

-- The calls of Inc and Dec on the gauge of requests in flight, by their client, and what the two
-- histograms of the trace have observed, the last first.
pub record Metrics : Type 0 where
  pub raised : List String
  pub lowered : List String
  pub observed : List Observation

abbrev pub observe : (histogram event : String) → ℕ → Metrics → Metrics
observe histogram event value g = record g {
  observed = record { histogram = histogram; event = event; value = value } ∷ g.observed;
}

-- The hooks of promhttp.InstrumentTrace that are set.
pub record InstrumentTrace : Type 0 where
  pub dns_start : ℕ → Metrics → Metrics
  pub dns_done : ℕ → Metrics → Metrics
  pub tls_handshake_start : ℕ → Metrics → Metrics
  pub tls_handshake_done : ℕ → Metrics → Metrics

unfoldable pub trace : InstrumentTrace
trace = record {
  dns_start = observe "dns_duration_seconds" "dns_start";
  dns_done = observe "dns_duration_seconds" "dns_done";
  tls_handshake_start = observe "tls_duration_seconds" "tls_handshake_start";
  tls_handshake_done = observe "tls_duration_seconds" "tls_handshake_done";
}

module _ (Request Outcome : Type 0) where
  abbrev pub RoundTripper : Type 0
  RoundTripper = Request → Metrics → Outcome × Metrics

  pub record HttpClient : Type 0 where
    pub transport : Option RoundTripper

  -- InstrumentRoundTripperDuration, -Trace and -Counter, with the metrics curried with the client's name,
  -- and the errors of currying them.
  pub record InstrumentPackage : Type 0 where
    pub counter_curry : String → Option Fault
    pub histogram_curry : String → Option Fault
    pub duration : String → RoundTripper → RoundTripper
    pub trace : InstrumentTrace → RoundTripper → RoundTripper
    pub counter : String → RoundTripper → RoundTripper
    pub default_transport : RoundTripper

  -- Inc, then the round trip, then the deferred Dec.
  unfoldable pub instrument_in_flight : String → RoundTripper → RoundTripper
  instrument_in_flight client next r g =
      let (out, after) = next r (record g { raised = client ∷ g.raised }) in
      (out, record after { lowered = client ∷ after.lowered })

  abbrev pub current_transport : InstrumentPackage → HttpClient → RoundTripper
  current_transport pkg c = elim c.transport [ none ↦ pkg.default_transport | some t ↦ t ]

  unfoldable pub instrument_client :
      InstrumentPackage → String → HttpClient → Option Fault × HttpClient
  unfolding instrument_in_flight trace
  instrument_client pkg name c = elim (pkg.counter_curry name) [
    | some e ↦ (some (Fault.wrap "failed to curry request counter" e), c)
    | none ↦ elim (pkg.histogram_curry name) [
      | some e ↦ (some (Fault.wrap "failed to curry duration histogram" e), c)
      | none ↦ (
        none,
        record {
          transport = some (
              instrument_in_flight name
                (pkg.counter name (pkg.trace trace (pkg.duration name (current_transport pkg c)))));
        },
      )
    ]
  ]
