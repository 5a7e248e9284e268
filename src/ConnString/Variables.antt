-- ===== src/ConnString/Variables.antt =====
-- Which variables a connection string has.
use elephantine.Prelude.{
  ◌≡◌, inl, inr, refl, String, List, [], ◌∷◌, Option, none, some, arith, eq_iff, Bool-cases, str_eq,
  ap, sym, ◌∙◌,
}
use elephantine.Prelude.Lists.{or_else, lookup, lookup-insert}
use elephantine.Fault.{ok}
use elephantine.ConnString.{Values, UrlPackage, query, set_all, set_conn_string_variables}

-- What a key has after Encode, which writes a pair for each of its values, and so none for a key with
-- no values.
abbrev pub kept : Option (List String) → Option (List String)
kept none = none
kept (some []) = none
kept (some (v ∷ values)) = some (v ∷ values)

-- What the package documents: a URL that was parsed, and is printed with a query that was encoded, is parsed again, with
-- its scheme and that query; and a query that was encoded is parsed into the pairs that were written.
pub record IsUrlPackage (url : UrlPackage) : Type 0 where
  pub reparsed :
      (t : url.Text) (u : url.Url) (q : Values)
      → url.parse t ≡ ok u
      → let w = url.with_raw_query u (url.encode q) in
        (v : url.Url) × (url.parse (url.print w) ≡ ok v)
        × (url.scheme v ≡ url.scheme u)
        × (url.raw_query v ≡ url.encode q)
  pub decoded :
      (q : Values) (k : String) → lookup k (url.parse_query (url.encode q)) ≡ kept (lookup k q)

set_all-lookup :
    (vars q : Values) (k : String)
    → lookup k (set_all vars q) ≡ or_else (lookup k vars) (lookup k q)
unfolding lookup
set_all-lookup [] q k = refl
set_all-lookup ((name, v) ∷ vars) q k =
    ground (arith, lookup-insert name k v (set_all vars q), set_all-lookup vars q k)

module _ (url : UrlPackage) (laws : IsUrlPackage url) where
  -- A string that SetConnStringVariables returns is a postgres URI again, in which each of the given
  -- variables has the values given, and every other variable the values that it had; a variable that
  -- would have no values is left out.
  pub set_conn_string_variables_lem :
      (conn out : url.Text) (vars : Values) (u : url.Url)
      → url.parse conn ≡ ok u
      → set_conn_string_variables url conn vars ≡ ok out
      → (v : url.Url) × (url.parse out ≡ ok v)
        × (url.scheme v ≡ "postgres")
        × ((k : String)
            → lookup k (query url v) ≡ kept (or_else (lookup k vars) (lookup k (query url u))))
  unfolding set_conn_string_variables
  set_conn_string_variables_lem conn out vars u given made =
      elim (Bool-cases (str_eq (url.scheme u) "postgres")) [
        | inr other ↦ absurd (ground arith)
        | inl postgres ↦
            let q = set_all vars (query url u) in
            let (v, back, scheme, raw) = laws.reparsed conn u q given in
            let same : url.print (url.with_raw_query u (url.encode q)) ≡ out = ground arith in
            (
              v,
              ap url.parse (sym same) ∙ back,
              scheme ∙ (eq_iff (url.scheme u) "postgres").0 postgres,
              λ k.
                  ap (λ r. lookup k (url.parse_query r)) raw
                  ∙ laws.decoded q k
                  ∙ ap kept (set_all-lookup vars (query url u) k),
            )
      ]
