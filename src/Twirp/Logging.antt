-- ===== src/Twirp/Logging.antt =====
-- LoggingHooks (twirp.go).
use elephantine.Prelude.{
  ℕ, String, Bool, List, [], ◌∷◌, ◌++◌, Option, none, some, str_eq, if◌then◌else◌,
}
use elephantine.LogContext.{Context, Heap, AuthInfo, set_log_metadata, get_auth_info}
use elephantine.HttpErrors.{Level, response_level}
use elephantine.Log.{
  Attrs, LogRecord, ContextHandler, handle, text, number, object, level_info, level_warn,
  level_error,
}
use elephantine.Twirp.Hooks.{World, Routing, passes, TwirpError, ServerHooks, TwirpPackage}

-- `if ok { SetLogMetadata(ctx, key, v) }`
abbrev pub note : Context → String → Option String → Heap → Heap
note ctx key none heap = heap
note ctx key (some v) heap = set_log_metadata ctx key v heap

abbrev pub subject_of : Option AuthInfo → Option String
subject_of none = none
subject_of (some auth) = some auth.claims.subject

abbrev pub level_of : Level → ℕ
level_of Level.info = level_info
level_of Level.warn = level_warn
level_of Level.error = level_error

abbrev pub meta_attrs : Option (List (String × String)) → Attrs
meta_attrs none = []
meta_attrs (some meta) = ("err_meta", object meta) ∷ []

abbrev pub scope_attrs : Bool → Option AuthInfo → Attrs
scope_attrs denied none = []
scope_attrs denied (some auth) = if denied then ("scopes", text auth.claims.scope) ∷ [] else []

module _ (twirp : TwirpPackage) (logger : ContextHandler) where
  open twirp use {service_name, method_name, status_of}

  unfoldable pub log_routed : Context → World → Routing
  log_routed ctx w =
      let with_service = note ctx "service" (service_name ctx) w.heap in
      let with_method = note ctx "method" (method_name ctx) with_service in
      let with_subject = note ctx "sub" (subject_of (get_auth_info ctx)) with_method in
      passes ctx (record w { heap = with_subject })

  unfoldable pub log_error : Context → TwirpError → World → World
  unfolding response_level
  log_error ctx e w =
      let status = status_of e.code in
      let args : Attrs =
        ("err_code", text e.code) ∷ ("err", text e.msg) ∷ ("status_code", number status) ∷ [] in
      let entry : LogRecord = record {
        level = level_of (response_level status);
        message = "error response";
        attrs =
            args
            ++ (meta_attrs e.meta
                ++ scope_attrs (str_eq e.code "permission_denied") (get_auth_info ctx));
      } in
      record w { log = w.log ++ handle logger ctx w.heap entry }

  unfoldable pub logging_hooks : ServerHooks
  unfolding log_routed log_error
  logging_hooks = record {
    request_received = passes;
    request_routed = log_routed;
    response_sent = λ ctx w. w;
    error = log_error;
  }
