-- ===== src/Health.antt =====
-- health.go: a health server and its checks. What a check returns for a request, the text of an error
-- and the encoding of the answer as JSON are left to the caller, as are the pages of other packages
-- that the mux serves.
pub mod Ready
mod Tests
use elephantine.Prelude.{
  ℕ, String, Bool, true, false, List, [], ◌∷◌, Option, none, some, if◌then◌else◌, ◌==◌, map,
}
use elephantine.Prelude.Lists.{insert, lookup}
use elephantine.Fault
use elephantine.Fault.{Fault, Result, ok, err}

abbrev pub ReadyFunctions : Type 0
ReadyFunctions = List (String × Option Fault)

-- What the sources use of http.Server and of httptest.Server, which listens from the start.
pub record HttpServer : Type 0 where
  pub addr : String
  pub is_closed : Bool

-- A nil server is `none`.
pub record HealthServer : Type 0 where
  pub ready_functions : ReadyFunctions
  pub server : Option HttpServer
  pub test_server : Option HttpServer

unfoldable pub new_health_server : String → HealthServer
new_health_server addr = record {
  ready_functions = [];
  server = some (record { addr = addr; is_closed = false });
  test_server = none;
}

-- NewTestHealthServer: `addr` is where httptest.NewServer listens.
unfoldable pub new_test_health_server : String → HealthServer
new_test_health_server addr = record {
  ready_functions = [];
  server = none;
  test_server = some (record { addr = addr; is_closed = false });
}

-- HealthServer.Addr: `none` where it panics, since there is no server.
unfoldable pub health_addr : HealthServer → Option String
health_addr s = elim s.test_server [
  | some t ↦ some t.addr
  | none ↦ elim s.server [ none ↦ none | some h ↦ some h.addr ]
]

unfoldable pub add_ready_function : String → Option Fault → HealthServer → HealthServer
add_ready_function name fn s = record s { ready_functions = insert name fn s.ready_functions }

abbrev closed : HttpServer → HttpServer
closed h = record h { is_closed = true }

-- HealthServer.Close: `close_error` is what http.Server's Close returns.
unfoldable pub close_health : Option Fault → HealthServer → Option Fault × HealthServer
close_health close_error s = elim s.server [
  | some h ↦ (
    elim close_error [ none ↦ none | some e ↦ some (Fault.wrap "failed to close http server" e) ],
    record s { server = some (closed h) },
  )
  | none ↦
      (none, elim s.test_server [ none ↦ s | some t ↦ record s { test_server = some (closed t) } ])
]

pub record ReadyResult : Type 0 where
  pub is_ok : Bool
  pub error : String

-- What the handler answers: the status, and the value that is encoded.
pub record Answer : Type 0 where
  pub status : ℕ
  pub content_type : String
  pub results : List (String × ReadyResult)

module _ (render : Fault → String) where
  abbrev pub ready_result : Option Fault → ReadyResult
  ready_result none = record { is_ok = true; error = "" }
  ready_result (some e) = record { is_ok = false; error = render e }

  abbrev pub fails : Bool → Option Fault → Bool
  fails failed none = failed
  fails failed (some e) = true

  -- The loop over the checks, in the order in which the map yields them.
  unfoldable pub check_all :
      ReadyFunctions → Bool → List (String × ReadyResult) → Bool × List (String × ReadyResult)
  check_all [] failed results = (failed, results)
  check_all ((name, e) ∷ later) failed results =
      check_all later (fails failed e) (insert name (ready_result e) results)

  unfoldable pub ready_handler : HealthServer → Answer
  ready_handler s =
      let (failed, results) = check_all s.ready_functions false [] in
      record {
        status = if failed then 500 else 200;
        content_type = "application/json";
        results = results;
      }

-- The pages of net/http/pprof, expvar and promhttp, for requests `R` and responses `A`.
pub record Pages (R A : Type 0) : Type 0 where
  pub index : R → A
  pub cmdline : R → A
  pub profile : R → A
  pub symbol : R → A
  pub trace : R → A
  pub vars : R → A
  pub metrics : R → A

module _ (R A : Type 0) (pages : Pages R A) (render : Fault → String)
    (encode : Answer → R → A) where
  -- setUpMux. The handler of /health/ready is a method of the server, whose checks it reads when it
  -- is called: `s` is the server at the time of the request.
  unfoldable pub set_up_mux : HealthServer → List (String × (R → A))
  set_up_mux s =
      ("/debug/pprof/", pages.index)
      ∷ ("/debug/pprof/cmdline", pages.cmdline)
      ∷ ("/debug/pprof/profile", pages.profile)
      ∷ ("/debug/pprof/symbol", pages.symbol)
      ∷ ("/debug/pprof/trace", pages.trace)
      ∷ ("/debug/vars", pages.vars)
      ∷ ("/metrics", pages.metrics)
      ∷ ("/health/ready", λ r. encode (ready_handler render s) r)
      ∷ []

  -- The mux of net/http: `route` picks one of the patterns.
  unfoldable pub serve_health :
      (route : List String → R → Option String) → (R → A) → HealthServer → R → A
  serve_health route not_found s r =
      let mux = set_up_mux s in
      elim (route (map (λ ((p, h) : String × (R → A)). p) mux) r) [
        | none ↦ not_found r
        | some pattern ↦ elim (lookup pattern mux) [ none ↦ not_found r | some handler ↦ handler r ]
      ]

-- LivenessReadyCheck: `created` is the error of making the request, and `performed` what it returns,
-- a status code and a status.
unfoldable pub liveness_ready_check : Option Fault → Result (ℕ × String) → Option Fault
liveness_ready_check (some e) performed =
    some (Fault.wrap "failed to create liveness check request" e)
liveness_ready_check none (err e) = some (Fault.wrap "failed to perform liveness check request" e)
liveness_ready_check none (ok (code, status)) =
    if code == 200 then none else some (Fault.text "api liveness endpoint returned non-ok status")
