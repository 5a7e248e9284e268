-- ===== src/Routes/Alive.antt =====
-- The liveness of an API server, as its health server checks it.
use elephantine.Prelude.{
  ℕ, ◌≤◌, ◌<◌, ◌⊎◌, ◌≡◌, String, List, [], ◌∷◌, Option, none, some, ◌+++◌, starts_with, true, false,
}
use elephantine.Prelude.Lists.{Exists}
use elephantine.Fault.{Result, ok}
use elephantine.Cors.{Url, Response}
use elephantine.LogContext.{Context, Heap}
use elephantine.Twirp.Options.{ServiceOptions}
use elephantine.Routes.{
  HttpRequest, Handler, ApiServiceHandler, ApiServer, register_api, logging_handler,
}
use elephantine.Routes.Served.{patterns}

-- The authorities at which a server with an address is reached from its own machine: an address
-- without a host stands for all of the machine's, localhost among them.
pub data Reaches (addr : String) : String → Type 0 where
  named : starts_with addr ":" ≡ false → Reaches addr addr
  local : starts_with addr ":" ≡ true → Reaches addr ("localhost" +++ addr)

-- A response before anything is written, and the status that a client gets.
abbrev pub unwritten : Response
unwritten = record { header = []; status = none }

abbrev pub written_status : Response → ℕ
written_status w = elim w.status [ none ↦ 200 | some code ↦ code ]

module _ (with_headers : List String → Context → Context) where
  -- The server after some calls of RegisterAPI.
  abbrev pub registered : List (ApiServiceHandler × ServiceOptions) → ApiServer → ApiServer
  registered [] s = s
  registered ((api, opt) ∷ later) s = registered later (register_api with_headers api opt s)

  module _ (parse : String → Option Url) (print : ℕ → String)
      (route : List String → HttpRequest → Option String) (not_found : Handler) where
    -- The mux picks the pattern of the alive handler for a GET of its path, where it is registered.
    abbrev pub PicksAlive : Type 0
    PicksAlive =
        (patterns : List String) (r : HttpRequest)
        → r.head.method ≡ "GET"
        → r.path ≡ "/health/alive"
        → Exists (λ p. p ≡ "GET /health/alive") patterns
        → route patterns r ≡ some "GET /health/alive"

    -- A GET from the server, at any of its authorities and any path, is answered by its handlers: it is
    -- a request with that path and method, on a fresh response, and the client gets the status that
    -- they write, 200 if they write none, unless it is a redirection, which the client follows.
    abbrev pub IsServing : (String → Result (ℕ × String)) → String → ApiServer → Type 0
    IsServing perform addr s =
        (authority path : String)
        → Reaches addr authority
        → starts_with path "/" ≡ true
        → (r : HttpRequest) × (heap : Heap) × (status : String) × (r.head.method ≡ "GET")
          × (r.path ≡ path)
          × (let code =
                written_status (logging_handler parse print route not_found s r heap unwritten) in
              ((300 ≤ code) × (code < 400))
              ⊎ (perform ("http://" +++ authority +++ path) ≡ ok (code, status)))
