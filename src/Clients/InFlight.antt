-- ===== src/Clients/InFlight.antt =====
-- The gauge of the requests in flight, and the histograms of the trace.
use mathlib.Core.List.{append_assoc}
use elephantine.Prelude.{
  ℕ, ◌+◌, ◌≡◌, ◌⊎◌, inl, inr, Option-cases, refl, ap, ◌∙◌, sym, String, List, [], ◌∷◌, ◌++◌, none,
  arith, str_eq, if◌then◌else◌,
}
use elephantine.Prelude.Lists.{All}
use elephantine.Clients.{
  Metrics, Observation, InstrumentTrace, trace, RoundTripper, HttpClient, InstrumentPackage,
  instrument_in_flight, current_transport, instrument_client,
}

-- How often a client stands in a list of calls.
abbrev pub calls : String → List String → ℕ
calls client [] = 0
calls client (c ∷ cs) = if str_eq c client then calls client cs + 1 else calls client cs

-- The gauge of no client has changed on the whole.
abbrev pub IsLevel : Metrics → Metrics → Type 0
IsLevel before after =
    (client : String)
    → calls client after.raised + calls client before.lowered
      ≡ calls client before.raised + calls client after.lowered

-- Each histogram has the events of its own kind.
abbrev pub IsEvent : Observation → Type 0
IsEvent o =
    ((o.histogram ≡ "dns_duration_seconds") × ((o.event ≡ "dns_start") ⊎ (o.event ≡ "dns_done")))
    ⊎ ((o.histogram ≡ "tls_duration_seconds")
        × ((o.event ≡ "tls_handshake_start") ⊎ (o.event ≡ "tls_handshake_done")))

abbrev pub IsTraced : Metrics → Metrics → Type 0
IsTraced before after =
    (added : List Observation) × (after.observed ≡ added ++ before.observed) × All IsEvent added

abbrev pub IsSteady : Metrics → Metrics → Type 0
IsSteady before after = IsLevel before after × IsTraced before after

All-append : (a b : List Observation) → All IsEvent a → All IsEvent b → All IsEvent (a ++ b)
All-append [] b all all' = all'
All-append (x ∷ a) b (first, all) all' = (first, All-append a b all all')

pub IsSteady-refl : (g : Metrics) → IsSteady g g
IsSteady-refl g = (λ client. omega arith, ([], refl, tt))

pub IsSteady-trans : (f g h : Metrics) → IsSteady f g → IsSteady g h → IsSteady f h
IsSteady-trans f g h (level, (a, adds, all)) (level', (b, adds', all')) = (
  λ client. omega (arith, level client, level' client),
  (
    b ++ a,
    adds' ∙ ap (λ l. b ++ l) adds ∙ sym (append_assoc b a f.observed),
    All-append b a all' all,
  ),
)

-- A hook of the trace adds one event.
abbrev pub AreSteady : InstrumentTrace → Type 0
AreSteady hooks =
    ((t : ℕ) (g : Metrics) → IsSteady g (hooks.dns_start t g))
    × ((t : ℕ) (g : Metrics) → IsSteady g (hooks.dns_done t g))
    × ((t : ℕ) (g : Metrics) → IsSteady g (hooks.tls_handshake_start t g))
    × ((t : ℕ) (g : Metrics) → IsSteady g (hooks.tls_handshake_done t g))

trace-AreSteady : AreSteady trace
unfolding trace
trace-AreSteady = (
  λ t g. (λ client. omega arith, (_ ∷ [], refl, (inl (refl, inl refl), tt))),
  λ t g. (λ client. omega arith, (_ ∷ [], refl, (inl (refl, inr refl), tt))),
  λ t g. (λ client. omega arith, (_ ∷ [], refl, (inr (refl, inl refl), tt))),
  λ t g. (λ client. omega arith, (_ ∷ [], refl, (inr (refl, inr refl), tt))),
)

module _ (Request Outcome : Type 0) where
  abbrev pub IsNeutral : RoundTripper Request Outcome → Type 0
  IsNeutral t = (r : Request) (g : Metrics) → IsSteady g (t r g).1

  -- The wrappers of the package do not touch these metrics themselves, and that of the trace calls its
  -- hooks around the round trip.
  pub record IsPlain (pkg : InstrumentPackage Request Outcome) : Type 0 where
    pub duration :
        (name : String) (t : RoundTripper Request Outcome)
        → IsNeutral t
        → IsNeutral (pkg.duration name t)
    pub traced :
        (hooks : InstrumentTrace) (t : RoundTripper Request Outcome)
        → AreSteady hooks
        → IsNeutral t
        → IsNeutral (pkg.trace hooks t)
    pub counter :
        (name : String) (t : RoundTripper Request Outcome)
        → IsNeutral t
        → IsNeutral (pkg.counter name t)

  instrument_in_flight-IsNeutral :
      (name : String) (t : RoundTripper Request Outcome)
      → IsNeutral t
      → IsNeutral (instrument_in_flight Request Outcome name t)
  unfolding instrument_in_flight
  instrument_in_flight-IsNeutral name t level r g =
      let (inner, seen) = level r (record g { raised = name ∷ g.raised }) in
      (λ client. let here = inner client in ground arith, seen)

  module _ (pkg : InstrumentPackage Request Outcome) (plain : IsPlain pkg) where
    -- If a request of a client leaves the gauge of every client as it was, and adds to the histograms of
    -- the trace no events but DNS events to that of DNS and TLS events to that of TLS, then so does one
    -- of the instrumented client, with whatever outcome; and a client that cannot be instrumented is left
    -- as it was. The wrappers of the package are asked not to touch these metrics themselves, but for the
    -- hooks of the trace that they are given.
    pub instrument_client-IsNeutral :
        (name : String) (c : HttpClient Request Outcome)
        → IsNeutral (current_transport Request Outcome pkg c)
        → let (e, after) = instrument_client Request Outcome pkg name c in
          IsNeutral (current_transport Request Outcome pkg after) × ((e ≡ none) ⊎ (after ≡ c))
    unfolding instrument_client
    instrument_client-IsNeutral name c level = elim (Option-cases (pkg.counter_curry name)) [
      | inr (e, uncurried) ↦ rw (instrument_client, uncurried) (level, inr refl)
      | inl counted ↦ elim (Option-cases (pkg.histogram_curry name)) [
        | inr (e, uncurried) ↦ rw (instrument_client, counted, uncurried) (level, inr refl)
        | inl measured ↦
            let t = current_transport Request Outcome pkg c in
            let timed = pkg.duration name t in
            rw (instrument_client, counted, measured)
              (
                instrument_in_flight-IsNeutral name (pkg.counter name (pkg.trace trace timed)) (
                    plain.counter name (pkg.trace trace timed)
                      (plain.traced trace timed trace-AreSteady (plain.duration name t level))),
                inl refl,
              )
      ]
    ]
