-- ===== src/Secrets/Tests.antt =====
-- A store of one secret, read twice, and a source that fails once.
use elephantine.Prelude.{◌≡◌, String, [], ◌∷◌, List, none, some, refl, if◌then◌else◌, str_eq, cut}
use elephantine.Prelude.Lists.{lookup}
use elephantine.Fault
use elephantine.Fault.{Result, ok, err}
use elephantine.Secrets.{
  Secret, Value, string, ParameterSource, AuthenticationConfig, get_parameter_value,
  data_map_from_entry, ensure_credentials, resolve_credentials, resolve_parameter,
}
use elephantine.Secrets.Cached.{uncached, IsFaithful, get_parameter_value-cached}

abbrev store : String → Result (List (String × Value))
store path =
    if str_eq path "app"
    then ok (("password", string "hunter2") ∷ [])
    else err (Fault.text "no such path")

get_parameter_value-cached_example :
    let result = get_parameter_value store [] "app:password" in
    (result.0 ≡ uncached store "app:password")
    × IsFaithful store result.1
    × ((path : String) (values : Secret)
        → lookup path [] ≡ some values
        → lookup path result.1 ≡ some values)
get_parameter_value-cached_example =
    get_parameter_value-cached store [] "app:password" (λ path values h. unfold lookup in cc)

reads : (get_parameter_value store [] "app:password").0 ≡ ok "hunter2"
unfolding get_parameter_value data_map_from_entry cut lookup
reads = refl

abbrev flags : String → String
flags name = if str_eq name "client-id" then "id" else ""

-- The source has no parameter, and no client secret is given as a flag.
abbrev empty_source : ParameterSource (Unit {0})
empty_source src name = (err (Fault.text "no such parameter"), src)

abbrev fresh : AuthenticationConfig
fresh = record { cred_err = none; client_id = ""; client_secret = "" }

refuses :
    (ensure_credentials flags empty_source fresh tt).0
    ≡ some (Fault.wrap "resolve credentials" (Fault.text "missing client secret"))
unfolding ensure_credentials resolve_credentials resolve_parameter
refuses = refl
