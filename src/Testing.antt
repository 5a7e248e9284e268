-- ===== src/Testing.antt =====
-- The package test: helpers.go, protobuf.go, twirp.go, context.go and log.go. A helper is the list of the
-- calls that it makes of its TestingT. `stops` is whether Fatalf ends the caller, as that of testing.T
-- does, and `verbose` is testing.Verbose. Of the texts the constant part is kept.
pub mod Failing
mod Tests
use elephantine.Prelude.{
  String, Bool, true, false, not, ◌||◌, List, [], ◌∷◌, ◌++◌, Option, none, some, is_some, str_eq,
  if◌then◌else◌,
}
use elephantine.Fault
use elephantine.Fault.{Fault}

pub data TestCall : Type 0 where
  helper : TestCall
  fatalf logf : String → TestCall

-- What every helper makes of its own test: t.Helper(), Fatalf where the test has failed, and Logf.
unfoldable pub report : (stops verbose failed : Bool) → (failure success : String) → List TestCall
report stops verbose failed failure success =
    let logged : List TestCall = if verbose then logf success ∷ [] else [] in
    helper ∷ (if failed then (fatalf failure ∷ (if stops then [] else logged)) else logged)

-- What errors.As leaves in the variable of IsTwirpError, and `!ok || tErr.Code() != code`.
unfoldable pub as_twirp_error : Option Fault → Option (String × String)
unfolding Fault.find
as_twirp_error none = none
as_twirp_error (some e) = Fault.find Fault.as_twirp e

abbrev pub is_other : Option (String × String) → String → Bool
is_other none code = true
is_other (some (its_code, message)) code = not (str_eq its_code code)

module _ (stops verbose : Bool) where
  unfoldable pub must : Option Fault → List TestCall
  unfolding report
  must e = report stops verbose (is_some e) "failed" "success"

  unfoldable pub must_not : Option Fault → List TestCall
  unfolding report
  must_not e = report stops verbose (not (is_some e)) "failed" "success"

  unfoldable pub not_nil : {T : Type 0} → Option T → List TestCall
  unfolding report
  not_nil v = report stops verbose (not (is_some v)) "failed" "success"

  -- Equal, EqualDiff and EqualMessage, by what cmp.Diff returns with the options of each.
  unfoldable pub equal : {T : Type 0} → (diff : T → T → String) → T → T → List TestCall
  unfolding report
  equal diff want got =
      report stops verbose (not (str_eq (diff want got) "")) "failed: mismatch (-want +got)"
        "success"

  unfoldable pub equal_diff : {T : Type 0} → (diff : T → T → String) → T → T → List TestCall
  unfolding report
  equal_diff diff want got =
      report stops verbose (not (str_eq (diff want got) "")) "mismatch (-want +got)" "success"

  unfoldable pub is_twirp_error : Option Fault → String → List TestCall
  unfolding report
  is_twirp_error e code =
      report stops verbose (is_other (as_twirp_error e) code) "failed: expected another error"
        "success: got the error"

-- Context: a context that is cancelled or not, and the functions given to Cleanup.
pub record Contexts : Type 0 where
  pub is_cancelled : Bool
  pub cleanups : List (Bool → Bool)

unfoldable pub context : List (Bool → Bool) → Contexts
context cleanups = record { is_cancelled = false; cleanups = (λ c. true) ∷ cleanups }

-- The cleanups are called, the last first.
abbrev pub clean : List (Bool → Bool) → Bool → Bool
clean [] c = c
clean (f ∷ later) c = clean later (f c)
