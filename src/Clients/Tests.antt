-- ===== src/Clients/Tests.antt =====
-- A registry of names, and a client whose requests all panic.
use elephantine.Prelude.{
  ◌≡◌, ◌⊎◌, refl, String, Bool, true, false, ◌||◌, List, [], ◌∷◌, Option, none, some, arith, eq_iff,
  str_eq, if◌then◌else◌, is_some,
}
use elephantine.Fault.{Fault}
use elephantine.Clients.{
  RegistererPackage, collectors, register_collectors, new_http_client_instrumentation, RoundTripper,
  HttpClient, InstrumentPackage, instrument_client, current_transport, Metrics,
  instrument_in_flight, trace,
}
use elephantine.Clients.Registered.{IsRegisterer}
use elephantine.Clients.InFlight.{
  IsNeutral, IsPlain, IsSteady-refl, IsSteady-trans, instrument_client-IsNeutral,
}

abbrev has_name : String → List String → Bool
has_name name [] = false
has_name name (other ∷ names) = str_eq other name || has_name name names

abbrev register_name : String → List String → Option Fault × List String
register_name name names =
    if has_name name names
    then (some (Fault.text "duplicate metrics collector registration attempted"), names)
    else (none, name ∷ names)

abbrev names : RegistererPackage
names = record { Registry = List String; register = register_name; has = has_name }

names-IsRegisterer : IsRegisterer names
names-IsRegisterer = record {
  fails = λ name reg. ground arith;
  registers = λ name reg. ground (arith, eq_iff name name);
  keeps = λ name other reg there. ground arith;
}

-- A second registration with the same registerer has an error.
registered_twice :
    let (out, after) = new_http_client_instrumentation names [] in
    (out ≡ none) × (is_some (new_http_client_instrumentation names after).0 ≡ true)
unfolding new_http_client_instrumentation collectors register_collectors
registered_twice = (refl, refl)

data Outcome : Type 0 where
  response panic : Outcome

abbrev panics : RoundTripper String Outcome
panics r g = (panic, g)

abbrev wrappers : InstrumentPackage String Outcome
wrappers = record {
  counter_curry = λ name. none;
  histogram_curry = λ name. none;
  duration = λ name t. t;
  trace =
      λ hooks t r g. let (out, after) = t r (hooks.dns_start 1 g) in (out, hooks.dns_done 2 after);
  counter = λ name t. t;
  default_transport = panics;
}

wrappers-IsPlain : IsPlain String Outcome wrappers
wrappers-IsPlain = record {
  duration = λ name t level. level;
  traced = λ hooks t (start, done, _, _) level r g.
      let before = hooks.dns_start 1 g in
      IsSteady-trans g before _ (start 1 g)
        (IsSteady-trans before (t r before).1 _ (level r before) (done 2 (t r before).1));
  counter = λ name t level. level;
}

abbrev plain : HttpClient String Outcome
plain = record { transport = none }

instrument_client-IsNeutral_example :
    let (e, after) = instrument_client String Outcome wrappers "images" plain in
    IsNeutral String Outcome (current_transport String Outcome wrappers after)
    × ((e ≡ none) ⊎ (after ≡ plain))
instrument_client-IsNeutral_example =
    instrument_client-IsNeutral String Outcome wrappers wrappers-IsPlain "images" plain
      (λ r g. IsSteady-refl g)

-- A request that panics is counted down again, and its events are there.
counted_down :
    let (e, after) = instrument_client String Outcome wrappers "images" plain in
    let empty : Metrics = record { raised = []; lowered = []; observed = [] } in
    current_transport String Outcome wrappers after "GET" empty ≡ (
      panic,
      record {
        raised = "images" ∷ [];
        lowered = "images" ∷ [];
        observed =
            record { histogram = "dns_duration_seconds"; event = "dns_done"; value = 2 }
            ∷ record { histogram = "dns_duration_seconds"; event = "dns_start"; value = 1 }
            ∷ [];
      },
    )
unfolding instrument_client instrument_in_flight trace
counted_down = refl
