-- ===== src/Twirp/Tests.antt =====
-- A service that knows one token, with hooks that are chained one after the other.
use elephantine.Prelude.{
  ℕ, ◌≡◌, refl, String, true, [], ◌∷◌, Option, none, some, is_some, if◌then◌else◌, str_eq,
}
use elephantine.Duration
use elephantine.Fault.{Fault, ok, err}
use elephantine.LogContext.{Context, AuthInfo, metadata, set_log_metadata, get_auth_info}
use elephantine.Auth.Hook.{Answer, request_routed}
use elephantine.Log.{ContextHandler, level_warn}
use elephantine.Twirp.Hooks.{World, ServerHooks, TwirpPackage, IsChain, chained, passes}
use elephantine.Twirp.Metrics.{new_twirp_metrics_hooks, with_registerer}
use elephantine.Twirp.Options.{
  ServiceOptions, new_default_service_options, set_auth_info_validation, add_logging_hooks,
  add_metrics_hooks,
}
use elephantine.Twirp.Defaults.{
  HasOwnKeys, routed_by, received_by, sent_by, default_hooks, routed_by_defaults,
}
use elephantine.Twirp.Measured.{request_measured}

abbrev idle : ServerHooks
idle = record {
  request_received = passes;
  request_routed = passes;
  response_sent = λ ctx w. w;
  error = λ ctx e w. w;
}

abbrev pub in_order : Option ServerHooks → Option ServerHooks → ServerHooks
in_order none none = idle
in_order (some a) none = a
in_order none (some b) = b
in_order (some a) (some b) = record {
  request_received = λ ctx w. chained (a.request_received ctx w) b.request_received;
  request_routed = λ ctx w. chained (a.request_routed ctx w) b.request_routed;
  response_sent = λ ctx w. b.response_sent ctx (a.response_sent ctx w);
  error = λ ctx e w. b.error ctx e (a.error ctx e w);
}

abbrev pub docs : TwirpPackage
docs = record {
  service_name = λ ctx. some "Docs";
  method_name = λ ctx. some "Get";
  status_code = λ ctx. some "200";
  http_request_headers = λ ctx. some "Bearer tok";
  status_of = λ code. if str_eq code "not_found" then 404 else 500;
  chain = in_order;
}

docs-IsChain : IsChain docs
docs-IsChain = record {
  received = λ a b ctx w. refl;
  routed = λ a b ctx w. refl;
  sent = λ a b ctx w. refl;
}

docs-HasOwnKeys : HasOwnKeys docs
docs-HasOwnKeys = record { service = λ ctx info. refl; method = λ ctx info. refl }

abbrev pub logger : ContextHandler
logger = record { h = record { level = level_warn; scopes = [] } }

abbrev pub user : AuthInfo
user = record {
  token = "tok";
  claims = record {
    issuer = "issuer";
    subject = "core://user/u1";
    audience = [];
    expires_at = none;
    original_sub = "u1";
    name = "A user";
    scope = "doc_read";
    authorized_party = "";
    client_id = "";
    units = [];
  };
}

abbrev pub parse : String → Answer
parse header =
    if str_eq header "Bearer tok" then ok (some user) else err (Fault.text "unknown token")

abbrev pub free : String → Option Fault
free name = none

abbrev options : ServiceOptions
options = record {
  hooks = some (default_hooks docs logger parse true free);
  auth_middleware = true;
  json_skip_defaults = true;
}

options-made : new_default_service_options docs logger parse free free true ≡ ok options
unfolding new_default_service_options set_auth_info_validation add_logging_hooks add_metrics_hooks
    new_twirp_metrics_hooks with_registerer
options-made = refl

abbrev logged : Context
logged = (1, metadata 0) ∷ []

abbrev pub world : World
world = record {
  now = 7;
  heap = [] ∷ [];
  log = [];
  metrics = record { requests = []; responses = []; durations = [] };
}

routed_by_defaults_example :
    let noted =
      set_log_metadata logged "method" "Get" (set_log_metadata logged "service" "Docs" ([] ∷ [])) in
    let auth = request_routed parse true (some "Bearer tok") logged noted in
    let r = routed_by options logged world in
    (r.error ≡ auth.error)
    × (r.context ≡ auth.context)
    × (r.world.heap ≡ noted)
    × (r.world.metrics ≡ (
        if is_some auth.error
        then world.metrics
        else record world.metrics { requests = ("Docs" ∷ "Get" ∷ "" ∷ []) ∷ [] }))
unfolding get_auth_info
routed_by_defaults_example =
    routed_by_defaults docs logger parse true free free options logged world "Docs" "Get"
      docs-IsChain docs-HasOwnKeys options-made refl refl refl

abbrev later : ℕ → World
later t = record world { now = t }

request_measured_example :
    sent_by options
      (routed_by options (received_by options logged world).context (later 8)).context
      (later 20)
    ≡ record (later 20) {
      metrics = record {
        requests = [];
        responses = ("Docs" ∷ "Get" ∷ "200" ∷ "" ∷ []) ∷ [];
        durations = ("Docs" ∷ "Get" ∷ "" ∷ [], Duration.since 20 7) ∷ [];
      };
    }
request_measured_example =
    request_measured docs logger parse true free free options docs-IsChain options-made logged
      (received_by options logged world).context
      (routed_by options (received_by options logged world).context (later 8)).context world
      (later 8) (later 20) "Docs" "Get" refl refl refl refl
