-- ===== src/LogContext/Tests.antt =====
-- The metadata of a concrete request.
use elephantine.Prelude.{◌≡◌, [], ◌∷◌, none, some}
use elephantine.LogContext.{
  Context, Heap, AuthInfo, metadata, get_log_metadata, set_log_metadata, set_auth_info,
  get_auth_info, with_log_metadata,
}
use elephantine.LogContext.Keys.{keys_collide}

abbrev logged : Context
logged = (1, metadata 1) ∷ []

abbrev maps : Heap
maps = [] ∷ (("trace", "t1") ∷ []) ∷ []

abbrev user : AuthInfo
user = record {
  token = "tok";
  claims = record {
    issuer = "issuer";
    subject = "core://user/u1";
    audience = [];
    expires_at = none;
    original_sub = "u1";
    name = "A user";
    scope = "";
    authorized_party = "";
    client_id = "";
    units = [];
  };
}

keys_collide_example :
    (get_log_metadata (set_auth_info logged (some user)) maps ≡ none)
    × (set_log_metadata (set_auth_info logged (some user)) "sub" "u1" maps ≡ maps)
    × (get_auth_info (set_auth_info logged (some user)) ≡ some user)
    × (get_auth_info (with_log_metadata (set_auth_info logged (some user)) maps).0 ≡ none)
keys_collide_example = keys_collide logged maps user "sub" "u1"
