-- ===== src/ConnString.antt =====
-- SetConnStringVariables (pg/pg.go). The package net/url is an argument; a query is a dictionary of the
-- values of its variables, and `vars` is listed in the order in which the map yields it, the last first.
pub mod Variables
mod Tests
use elephantine.Prelude.{String, List, [], ◌∷◌, if◌then◌else◌, str_eq}
use elephantine.Prelude.Lists.{insert}
use elephantine.Fault
use elephantine.Fault.{Fault, Result, ok, err}

abbrev pub Values : Type 0
Values = List (String × List String)

-- A query is encoded text, which is parsed each time that the values are read: `raw_query` and
-- `with_raw_query` are the field RawQuery. The strings of URLs are `Text` and those of queries `Raw`:
-- they are only parsed, encoded and printed.
pub record UrlPackage : Type 1 where
  pub Text : Type 0
  pub Url : Type 0
  pub Raw : Type 0
  pub parse : Text → Result Url
  pub scheme : Url → String
  pub raw_query : Url → Raw
  pub with_raw_query : Url → Raw → Url
  pub parse_query : Raw → Values
  pub encode : Values → Raw
  pub print : Url → Text

-- URL.Query
abbrev pub query : (url : UrlPackage) → url.Url → Values
query url u = url.parse_query (url.raw_query u)

abbrev pub set_all : Values → Values → Values
set_all [] q = q
set_all ((k, v) ∷ vars) q = insert k v (set_all vars q)

unfoldable pub set_conn_string_variables : (url : UrlPackage) → url.Text → Values → Result url.Text
set_conn_string_variables url conn vars = elim (url.parse conn) [
  | err e ↦ err (Fault.wrap "not a valid URI" e)
  | ok u ↦
      if str_eq (url.scheme u) "postgres"
      then ok (url.print (url.with_raw_query u (url.encode (set_all vars (query url u)))))
      else err (Fault.text "is not a postgres:// URI")
]
