-- ===== src/Testing/Tests.antt =====
-- Helpers of a test that Fatalf ends.
use elephantine.Prelude.{
  ◌≡◌, ◌↔◌, refl, String, true, false, not, [], ◌∷◌, Option, none, some, arith, eq_iff, str_eq,
  if◌then◌else◌,
}
use elephantine.Fault
use elephantine.Fault.{Fault}
use elephantine.HttpErrors.{is_twirp_error_code}
use elephantine.Testing.{
  helper, logf, report, must, must_not, not_nil, equal, equal_diff, is_twirp_error, as_twirp_error,
  context, clean,
}
use elephantine.Testing.Failing.{IsReport, fails, helpers_fail_iff}

abbrev differ : String → String → String
differ want got = if str_eq want got then "" else "-want +got"

differ_iff : (want got : String) → (differ want got ≡ "") ↔ (want ≡ got)
differ_iff want got = ground (arith, eq_iff want got, eq_iff "-want +got" "")

abbrev not_found : Option Fault
not_found = some (Fault.wrap "get document" (Fault.twirp "not_found" "no document"))

helpers_fail_iff_example :
    IsReport true
      (not (is_twirp_error_code not_found "not_found"))
      (is_twirp_error true false not_found "not_found")
    × IsReport true true (must true false not_found)
    × IsReport true false (must_not true false not_found)
    × IsReport true true (not_nil true false {T = String} none)
    × ((fails (equal true false differ "a" "b") ≡ false) ↔ (◌≡◌ {A = String} "a" "b"))
    × ((fails (equal_diff true false differ "a" "b") ≡ false) ↔ (◌≡◌ {A = String} "a" "b"))
helpers_fail_iff_example =
    helpers_fail_iff true false differ differ_iff not_found "not_found" none "a" "b"

passes :
    is_twirp_error true true not_found "not_found" ≡ helper ∷ logf "success: got the error" ∷ []
unfolding is_twirp_error report as_twirp_error Fault.find
passes = refl

-- The context of a test is cancelled by its cleanup.
is_cleaned : let c = context [] in clean c.cleanups c.is_cancelled ≡ true
unfolding context
is_cleaned = refl
