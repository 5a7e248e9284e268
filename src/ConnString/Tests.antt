-- ===== src/ConnString/Tests.antt =====
-- URLs of a scheme and a query, which are their own texts; what is encoded is the keys with values.
use elephantine.Prelude.{◌≡◌, refl, String, [], ◌∷◌, none, arith, eq_iff, str_eq, if◌then◌else◌}
use elephantine.Prelude.Lists.{or_else, lookup, insert}
use elephantine.Fault.{Result, ok}
use elephantine.ConnString.{Values, UrlPackage, set_conn_string_variables}
use elephantine.ConnString.Variables.{IsUrlPackage, kept, set_conn_string_variables_lem}

abbrev removed : String → Values → Values
removed k [] = []
removed k ((name, v) ∷ q) = if str_eq name k then removed k q else (name, v) ∷ removed k q

lookup-removed :
    (k name : String) (q : Values)
    → lookup name (removed k q) ≡ (if str_eq k name then none else lookup name q)
unfolding lookup
lookup-removed k name [] = ground arith
lookup-removed k name ((other, v) ∷ q) =
    ground (arith, lookup-removed k name q, eq_iff other k, eq_iff k name, eq_iff other name)

-- The pairs that are written.
abbrev written : Values → Values
written [] = []
written ((k, []) ∷ q) = removed k (written q)
written ((k, v ∷ values) ∷ q) = (k, v ∷ values) ∷ written q

lookup-written : (q : Values) (k : String) → lookup k (written q) ≡ kept (lookup k q)
unfolding lookup
lookup-written [] k = refl
lookup-written ((name, []) ∷ q) k =
    ground (arith, lookup-removed name k (written q), lookup-written q k)
lookup-written ((name, v ∷ values) ∷ q) k = ground (arith, lookup-written q k)

abbrev plain_url : UrlPackage
plain_url = record {
  Text = String × Values;
  Url = String × Values;
  Raw = Values;
  parse = λ s. ok s;
  scheme = λ u. u.0;
  raw_query = λ u. u.1;
  with_raw_query = λ u q. (u.0, q);
  parse_query = λ q. q;
  encode = written;
  print = λ u. u;
}

plain_url-IsUrlPackage : IsUrlPackage plain_url
plain_url-IsUrlPackage = record {
  reparsed = λ t u q given. ((u.0, written q), refl, refl, refl);
  decoded = lookup-written;
}

abbrev conn : String × Values
conn = ("postgres", ("sslmode", "disable" ∷ []) ∷ [])

-- The variable "pool_max_conns" is given with no values.
abbrev vars : Values
vars = ("sslmode", "require" ∷ []) ∷ ("pool_max_conns", []) ∷ []

abbrev set : String × Values
set = ("postgres", ("sslmode", "require" ∷ []) ∷ [])

set_conn_string_variables_lem_example :
    (v : String × Values) × (◌≡◌ {A = Result (String × Values)} (ok set) (ok v))
    × (v.0 ≡ "postgres")
    × ((k : String) → lookup k v.1 ≡ kept (or_else (lookup k vars) (lookup k conn.1)))
unfolding set_conn_string_variables insert
set_conn_string_variables_lem_example =
    set_conn_string_variables_lem plain_url plain_url-IsUrlPackage conn set vars conn refl refl
