-- ===== src/Twirp/Hooks.antt =====
-- The hooks of the package twirp, as functions on a context and on what they change: the log metadata,
-- the log, and the metrics. A hook that is nil is one that changes nothing.
use elephantine.Prelude.{ℕ, ◌≡◌, String, List, Option, none, some}
use elephantine.Fault.{Fault}
use elephantine.LogContext.{Context, Heap}
use elephantine.Log.{Output}

abbrev pub Labels : Type 0
Labels = List String

-- The increments of the two counters, the last first, and the observations of the histogram, in
-- nanoseconds.
pub record Metrics : Type 0 where
  pub requests : List Labels
  pub responses : List Labels
  pub durations : List (Labels × ℕ)

-- `now` is what time.Now returns.
pub record World : Type 0 where
  pub now : ℕ
  pub heap : Heap
  pub log : List Output
  pub metrics : Metrics

pub record Routing : Type 0 where
  pub context : Context
  pub error : Option Fault
  pub world : World

abbrev pub passes : Context → World → Routing
passes ctx w = record { context = ctx; error = none; world = w }

pub record TwirpError : Type 0 where
  pub code : String
  pub msg : String
  pub meta : Option (List (String × String))

pub record ServerHooks : Type 0 where
  pub request_received : Context → World → Routing
  pub request_routed : Context → World → Routing
  pub response_sent : Context → World → World
  pub error : Context → TwirpError → World → World

-- What the sources call of the package: what it keeps in a context, the HTTP status of an error code,
-- and ChainHooks, which skips hooks that are nil.
pub record TwirpPackage : Type 0 where
  pub service_name : Context → Option String
  pub method_name : Context → Option String
  pub status_code : Context → Option String
  pub http_request_headers : Context → Option String
  pub status_of : String → ℕ
  pub chain : Option ServerHooks → Option ServerHooks → ServerHooks

-- The second hook after the first, unless that returned an error.
abbrev pub chained : Routing → (Context → World → Routing) → Routing
chained r hook = elim r.error [ some e ↦ r | none ↦ hook r.context r.world ]

-- What the package documents of ChainHooks.
pub record IsChain (twirp : TwirpPackage) : Type 0 where
  pub received :
      (a b : ServerHooks) (ctx : Context) (w : World)
      → (twirp.chain (some a) (some b)).request_received ctx w
        ≡ chained (a.request_received ctx w) b.request_received
  pub routed :
      (a b : ServerHooks) (ctx : Context) (w : World)
      → (twirp.chain (some a) (some b)).request_routed ctx w
        ≡ chained (a.request_routed ctx w) b.request_routed
  pub sent :
      (a b : ServerHooks) (ctx : Context) (w : World)
      → (twirp.chain (some a) (some b)).response_sent ctx w
        ≡ b.response_sent ctx (a.response_sent ctx w)
