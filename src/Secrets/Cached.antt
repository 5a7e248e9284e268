-- ===== src/Secrets/Cached.antt =====
-- Reading a parameter from the vault.
use elephantine.Prelude.{
  ◌≡◌, inl, inr, String, true, false, List, some, arith, eq_iff, cut, Option-cases,
}
use elephantine.Prelude.Lists.{lookup, lookup-insert}
use elephantine.Fault.{Fault, Result, ok, err, Result-cases}
use elephantine.Secrets.{
  Parameters, Secret, Value, data_map_from_entry, value_of, get_parameter_value,
}

module _ (read : String → Result (List (String × Value))) where
  -- What a reader without a cache would answer.
  abbrev pub uncached : String → Result String
  uncached name =
      let (path, key, found) = cut "" b':' name in
      elim found [
        | false ↦ err (Fault.text "missing ':key' qualifier in name")
        | true ↦ elim (data_map_from_entry read path) [ err e ↦ err e | ok d ↦ value_of key d ]
      ]

  -- The cache holds what the store answers.
  abbrev pub IsFaithful : Parameters → Type 0
  IsFaithful parameters =
      (path : String) (values : Secret)
      → lookup path parameters ≡ some values
      → data_map_from_entry read path ≡ ok values

  -- While the store does not change, the cache cannot be told: from a cache that holds what the store
  -- answers, a read answers what a read of the store would, errors included, and leaves such a cache,
  -- which holds all that it held before.
  pub get_parameter_value-cached :
      (parameters : Parameters) (name : String)
      → IsFaithful parameters
      → let result = get_parameter_value read parameters name in
        (result.0 ≡ uncached name)
        × IsFaithful result.1
        × ((path : String) (values : Secret)
            → lookup path parameters ≡ some values
            → lookup path result.1 ≡ some values)
  unfolding get_parameter_value
  get_parameter_value-cached parameters name faithful =
      let path = (cut "" b':' name).0 in
      (
        elim (Option-cases (lookup path parameters)) [
          | inl missing ↦ ground arith
          | inr (values, held) ↦ ground (arith, faithful path values held)
        ],
        λ other values h. elim (Result-cases (data_map_from_entry read path)) [
          | inl (d, read_d) ↦ ground (
            arith,
            faithful other values,
            lookup-insert path other d parameters,
            eq_iff path other,
          )
          | inr (e, failed) ↦ ground (arith, faithful other values)
        ],
        λ other values h. elim (Result-cases (data_map_from_entry read path)) [
          | inl (d, read_d) ↦
              ground (arith, lookup-insert path other d parameters, eq_iff path other)
          | inr (e, failed) ↦ ground arith
        ],
      )
