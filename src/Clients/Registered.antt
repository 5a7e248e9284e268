-- ===== src/Clients/Registered.antt =====
-- When the metrics of HTTP clients can be registered.
use elephantine.Prelude.{
  ◌≡◌, refl, String, true, List, [], ◌∷◌, none, some, arith, Option-cases, inl, inr, is_some, ◌≢◌,
  ap, sym, ◌∙◌,
}
use elephantine.Prelude.Lists.{All}
use elephantine.Fault.{Fault}
use elephantine.Clients.{
  RegistererPackage, collectors, register_collectors, new_http_client_instrumentation,
}

-- What the package documents of Register: it has an error exactly for a name that is registered, and
-- registers no other name.
pub record IsRegisterer (prom : RegistererPackage) : Type 0 where
  pub fails :
      (name : String) (reg : prom.Registry) → is_some (prom.register name reg).0 ≡ prom.has name reg
  pub registers :
      (name : String) (reg : prom.Registry) → prom.has name (prom.register name reg).1 ≡ true
  pub keeps :
      (name other : String) (reg : prom.Registry)
      → prom.has other reg ≡ true
      → prom.has other (prom.register name reg).1 ≡ true

module _ (prom : RegistererPackage) (laws : IsRegisterer prom) where
  register_collectors-keeps :
      (names : List String) (other : String) (reg : prom.Registry)
      → prom.has other reg ≡ true
      → prom.has other (register_collectors prom names reg).1 ≡ true
  unfolding register_collectors
  register_collectors-keeps [] other reg there = there
  register_collectors-keeps (name ∷ names) other reg there =
      let kept = laws.keeps name other reg there in
      ground (arith, register_collectors-keeps names other (prom.register name reg).1 kept)

  register_collectors-first :
      (names : List String) (name : String) (reg : prom.Registry)
      → prom.has name (register_collectors prom (name ∷ names) reg).1 ≡ true
  unfolding register_collectors
  register_collectors-first names name reg = ground (
    arith,
    laws.registers name reg,
    register_collectors-keeps names name (prom.register name reg).1 (laws.registers name reg),
  )

  register_collectors-fails :
      (names : List String) (name : String) (reg : prom.Registry)
      → prom.has name reg ≡ true
      → (register_collectors prom (name ∷ names) reg).0 ≢ none
  unfolding register_collectors
  register_collectors-fails names name reg there = ground (arith, laws.fails name reg)

  register_collectors-goes_on :
      (names : List String) (name : String) (reg : prom.Registry)
      → (prom.register name reg).0 ≡ none
      → register_collectors prom (name ∷ names) reg
        ≡ register_collectors prom names (prom.register name reg).1
  unfolding register_collectors
  register_collectors-goes_on names name reg well = rw (register_collectors, well) refl

  register_collectors-stops :
      (names : List String) (name : String) (reg : prom.Registry) (e : Fault)
      → (prom.register name reg).0 ≡ some e
      → is_some (register_collectors prom (name ∷ names) reg).0 ≡ true
  unfolding register_collectors
  register_collectors-stops names name reg e failed = ground arith

  register_collectors-All :
      (names : List String) (reg after : prom.Registry)
      → register_collectors prom names reg ≡ (none, after)
      → All (λ name. prom.has name after ≡ true) names
  register_collectors-All [] reg after run = tt
  register_collectors-All (name ∷ names) reg after run =
      elim (Option-cases (prom.register name reg).0) [
        | inr (e, failed) ↦
            let stops = register_collectors-stops names name reg e failed in
            let fine = ap (λ r. is_some r.0) run in ground arith
        | inl well ↦ (
          ap (λ r. prom.has name r.1) (sym run) ∙ register_collectors-first names name reg,
          register_collectors-All names (prom.register name reg).1 after
              (sym (register_collectors-goes_on names name reg well) ∙ run),
        )
      ]

  -- Where the metrics can be registered, all five are then registered. They can be only once with one
  -- registerer: whether a first call has had an error or not, and whatever else has been registered
  -- since, a second call has an error.
  pub new_http_client_instrumentation_once :
      (reg : prom.Registry) (others : List String)
      → let (out, after) = new_http_client_instrumentation prom reg in
        let later = (register_collectors prom others after).1 in
        (out ≡ none → All (λ name. prom.has name after ≡ true) collectors)
        × ((new_http_client_instrumentation prom later).0 ≢ none)
  unfolding new_http_client_instrumentation collectors
  new_http_client_instrumentation_once reg others =
      let after = (register_collectors prom collectors reg).1 in
      (
        λ fine. register_collectors-All collectors reg _ (ap (λ e. (e, after)) fine),
        register_collectors-fails _ _ _
            (register_collectors-keeps others _ _ (register_collectors-first _ _ reg)),
      )
