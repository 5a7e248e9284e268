-- ===== src/Testing/Failing.antt =====
-- When a test fails by its helpers.
use elephantine.Prelude.{
  ◌≡◌, ◌↔◌, inl, inr, refl, String, Bool, true, false, not, List, [], ◌∷◌, Option, none, some,
  is_some, arith, str_eq, eq_iff, Option-cases,
}
use elephantine.Prelude.Lists.{any}
use elephantine.Fault
use elephantine.Fault.{Fault}
use elephantine.HttpErrors.{is_twirp_error_code}
use elephantine.Testing.{
  TestCall, fatalf, report, must, must_not, not_nil, equal, equal_diff, is_twirp_error, is_other,
  as_twirp_error,
}

abbrev pub is_fatal : TestCall → Bool
is_fatal (fatalf s) = true
is_fatal _ = false

-- The test has failed.
abbrev pub fails : List TestCall → Bool
fails calls = any is_fatal calls

abbrev pub ends_fatally : List TestCall → Bool
ends_fatally [] = false
ends_fatally (c ∷ []) = is_fatal c
ends_fatally (c ∷ d ∷ calls) = ends_fatally (d ∷ calls)

-- A helper fails exactly on its test, and a failing one calls nothing more where Fatalf ends it.
abbrev pub IsReport : Bool → Bool → List TestCall → Type 0
IsReport stops failed calls =
    (fails calls ≡ failed) × (stops ≡ true → failed ≡ true → ends_fatally calls ≡ true)

report-IsReport :
    (stops verbose failed : Bool) (failure success : String)
    → IsReport stops failed (report stops verbose failed failure success)
unfolding report
report-IsReport stops verbose failed failure success = (ground arith, λ s f. ground arith)

report-same :
    (stops verbose : Bool) (d failure success : String)
    → (fails (report stops verbose (not (str_eq d "")) failure success) ≡ false) ↔ (d ≡ "")
report-same stops verbose d failure success =
    let (failed, last) = report-IsReport stops verbose (not (str_eq d "")) failure success in
    ground (arith, eq_iff d "")

-- The two readings of a Twirp error, that of the package test and that of twirp.go, agree.
is_other-is_twirp_error_code :
    (e : Option Fault) (code : String)
    → is_other (as_twirp_error e) code ≡ not (is_twirp_error_code e code)
unfolding as_twirp_error is_twirp_error_code
is_other-is_twirp_error_code none code = refl
is_other-is_twirp_error_code (some e) code = elim (Option-cases (Fault.find Fault.as_twirp e)) [
  | inl other ↦ ground arith
  | inr ((its_code, message), found) ↦ ground arith
]

module _ (stops verbose : Bool) {T : Type 0} (diff : T → T → String)
    (diff_iff : (want got : T) → (diff want got ≡ "") ↔ (want ≡ got)) where
  -- With a cmp.Diff that is empty exactly for equal values: IsTwirpError fails exactly where
  -- IsTwirpErrorCode of the library denies the code, Must where there is an error, MustNot where there
  -- is none, NotNil on nil, and Equal and EqualDiff on different values. Where Fatalf ends its caller,
  -- it is the last call of a helper that fails.
  pub helpers_fail_iff :
      (e : Option Fault) (code : String) (v : Option T) (want got : T)
      → IsReport stops (not (is_twirp_error_code e code)) (is_twirp_error stops verbose e code)
        × IsReport stops (is_some e) (must stops verbose e)
        × IsReport stops (not (is_some e)) (must_not stops verbose e)
        × IsReport stops (not (is_some v)) (not_nil stops verbose v)
        × ((fails (equal stops verbose diff want got) ≡ false) ↔ (want ≡ got))
        × ((fails (equal_diff stops verbose diff want got) ≡ false) ↔ (want ≡ got))
  unfolding must must_not not_nil equal equal_diff is_twirp_error
  helpers_fail_iff e code v want got =
      let same = diff_iff want got in
      (
        rw (← is_other-is_twirp_error_code e code)
            (report-IsReport stops verbose (is_other (as_twirp_error e) code) _ _),
        report-IsReport stops verbose (is_some e) _ _,
        report-IsReport stops verbose (not (is_some e)) _ _,
        report-IsReport stops verbose (not (is_some v)) _ _,
        (
          λ h. same.0 ((report-same stops verbose (diff want got) _ _).0 h),
          λ h. (report-same stops verbose (diff want got) _ _).1 (same.1 h),
        ),
        (
          λ h. same.0 ((report-same stops verbose (diff want got) _ _).0 h),
          λ h. (report-same stops verbose (diff want got) _ _).1 (same.1 h),
        ),
      )
