-- ===== src/Twirp/Options.antt =====
-- ServiceOptions (api_server.go).
use elephantine.Prelude.{String, Bool, true, false, [], ◌∷◌, Option, none, some}
use elephantine.Fault.{Fault, Result, ok, err}
use elephantine.LogContext.{Context}
use elephantine.Auth.Hook.{Answer, request_routed}
use elephantine.Log.{ContextHandler}
use elephantine.Twirp.Hooks.{World, Routing, passes, ServerHooks, TwirpPackage}
use elephantine.Twirp.Logging.{logging_hooks}
use elephantine.Twirp.Metrics.{new_twirp_metrics_hooks, with_registerer}

-- Whether AuthMiddleware is set, which there is one of.
pub record ServiceOptions : Type 0 where
  pub hooks : Option ServerHooks
  pub auth_middleware : Bool
  pub json_skip_defaults : Bool

module _ (twirp : TwirpPackage) where
  open twirp use {chain, http_request_headers}

  -- The hook RequestRouted of SetAuthInfoValidation, on the world.
  unfoldable pub auth_routed : (String → Answer) → Bool → Context → World → Routing
  unfolding request_routed
  auth_routed parse require_auth ctx w =
      let routed = request_routed parse require_auth (http_request_headers ctx) ctx w.heap in
      record {
        context = routed.context;
        error = routed.error;
        world = record w { heap = routed.heap };
      }

  unfoldable pub auth_hooks : (String → Answer) → Bool → ServerHooks
  unfolding auth_routed
  auth_hooks parse require_auth = record {
    request_received = passes;
    request_routed = auth_routed parse require_auth;
    response_sent = λ ctx w. w;
    error = λ ctx e w. w;
  }

  unfoldable pub set_auth_info_validation :
      (String → Answer) → Bool → ServiceOptions → ServiceOptions
  unfolding auth_hooks
  set_auth_info_validation parse require_auth so = record so {
    auth_middleware = true;
    hooks = some (elim so.hooks [
      | none ↦ auth_hooks parse require_auth
      | some h ↦ chain (some h) (some (auth_hooks parse require_auth))
    ]);
  }

  unfoldable pub add_logging_hooks : ContextHandler → ServiceOptions → ServiceOptions
  unfolding logging_hooks
  add_logging_hooks logger so = record so {
    hooks = some (chain (some (logging_hooks twirp logger)) so.hooks);
  }

  unfoldable pub add_metrics_hooks :
      (default reg : String → Option Fault) → ServiceOptions → Result ServiceOptions
  unfolding new_twirp_metrics_hooks with_registerer
  add_metrics_hooks default reg so =
      elim (new_twirp_metrics_hooks twirp default (with_registerer reg ∷ [])) [
        | err e ↦ err e
        | ok hooks ↦ ok (record so { hooks = some (chain so.hooks (some hooks)) })
      ]

  unfoldable pub new_default_service_options :
      ContextHandler
      → (String → Answer)
      → (default reg : String → Option Fault) → Bool
      → Result ServiceOptions
  unfolding set_auth_info_validation add_logging_hooks add_metrics_hooks
  new_default_service_options logger parse default reg require_auth =
      let so : ServiceOptions = record {
        hooks = none;
        auth_middleware = false;
        json_skip_defaults = true;
      } in
      let so1 = set_auth_info_validation parse require_auth so in
      let so2 = add_logging_hooks logger so1 in
      elim (add_metrics_hooks default reg so2) [
        | err e ↦ err (Fault.wrap "set up metrics" e)
        | ok so3 ↦ ok so3
      ]
