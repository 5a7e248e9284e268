-- ===== src/Health/Ready.antt =====
-- What a health server answers.
use elephantine.Prelude.{
  ℕ, ◌≡◌, ◌≢◌, ◌⊎◌, ◌↔◌, refl, sym, ◌∙◌, inl, inr, String, Bool, true, false, List, [], ◌∷◌, Option,
  none, some, arith, eq_iff, str_eq, if◌then◌else◌, map,
}
use elephantine.Prelude.Lists.{lookup, insert, lookup-insert}
use elephantine.Fault.{Fault, Result, ok, err}
use elephantine.Health.{
  ReadyFunctions, HealthServer, ReadyResult, Answer, Pages, check_all, ready_handler, ready_result,
  fails, new_health_server, new_test_health_server, add_ready_function, set_up_mux, serve_health,
  liveness_ready_check,
}

-- A map has one value for a key.
abbrev IsMap : ReadyFunctions → Type 0
IsMap [] = Unit {0}
IsMap ((name, e) ∷ later) = (lookup name later ≡ none) × IsMap later

insert-IsMap :
    (name : String) (e : Option Fault) (functions : ReadyFunctions)
    → IsMap functions
    → IsMap (insert name e functions)
unfolding insert lookup
insert-IsMap name e [] map = (refl, tt)
insert-IsMap name e ((other, f) ∷ later) (once, map) = ground (
  arith,
  insert-IsMap name e later map,
  lookup-insert name other e later,
  eq_iff other name,
  eq_iff name other,
)

abbrev HasFailed : ReadyFunctions → Type 0
HasFailed [] = ⊥
HasFailed ((name, e) ∷ later) = (e ≢ none) ⊎ HasFailed later

-- A check that fails is found under its name.
found-HasFailed :
    (functions : ReadyFunctions) (name : String) (e : Fault)
    → lookup name functions ≡ some (some e)
    → HasFailed functions
unfolding lookup
found-HasFailed [] name e found = cc
found-HasFailed ((other, f) ∷ later) name e found = ground (arith, found-HasFailed later name e)

HasFailed-found :
    (functions : ReadyFunctions)
    → IsMap functions
    → HasFailed functions
    → (name : String) × (e : Fault) × (lookup name functions ≡ some (some e))
unfolding lookup
HasFailed-found [] map failed = absurd failed
HasFailed-found ((name, none) ∷ later) (once, map) (inl fails) = absurd (fails refl)
HasFailed-found ((name, some e) ∷ later) (once, map) (inl fails) =
    (name, e, ground (arith, eq_iff name name))
HasFailed-found ((name, f) ∷ later) (once, map) (inr failed) =
    let (other, e, found) = HasFailed-found later map failed in
    (other, e, ground (arith, eq_iff name other))

-- The calls of AddReadyFunction, and the check that they leave under a name: the last of them.
abbrev pub add_all : List (String × Option Fault) → HealthServer → HealthServer
add_all [] s = s
add_all ((name, e) ∷ later) s = add_all later (add_ready_function name e s)

abbrev pub latest : String → List (String × Option Fault) → Option (Option Fault)
latest name [] = none
latest name ((other, e) ∷ later) = elim (latest name later) [
  | some f ↦ some f
  | none ↦ if str_eq other name then some e else none
]

abbrev or_before : Option (Option Fault) → Option (Option Fault) → Option (Option Fault)
or_before none before = before
or_before (some e) before = some e

or_before-none : (e : Option (Option Fault)) → or_before e none ≡ e
or_before-none none = refl
or_before-none (some e) = refl

add_all-lookup :
    (added : List (String × Option Fault)) (s : HealthServer) (name : String)
    → lookup name (add_all added s).ready_functions
      ≡ or_before (latest name added) (lookup name s.ready_functions)
unfolding add_ready_function
add_all-lookup [] s name = refl
add_all-lookup ((other, e) ∷ later) s name = ground (
  arith,
  add_all-lookup later (add_ready_function other e s) name,
  lookup-insert other name e s.ready_functions,
)

add_all-IsMap :
    (added : List (String × Option Fault)) (s : HealthServer)
    → IsMap s.ready_functions
    → IsMap (add_all added s).ready_functions
unfolding add_ready_function
add_all-IsMap [] s map = map
add_all-IsMap ((name, e) ∷ later) s map =
    add_all-IsMap later (add_ready_function name e s) (insert-IsMap name e s.ready_functions map)

-- A server of either kind.
abbrev pub made : Bool → String → HealthServer
made is_test addr = if is_test then new_test_health_server addr else new_health_server addr

made-empty : (is_test : Bool) (addr : String) → (made is_test addr).ready_functions ≡ []
unfolding new_test_health_server new_health_server
made-empty true addr = refl
made-empty false addr = refl

made-lookup :
    (is_test : Bool) (addr : String) (added : List (String × Option Fault)) (name : String)
    → lookup name (add_all added (made is_test addr)).ready_functions ≡ latest name added
unfolding lookup
made-lookup is_test addr added name =
    add_all-lookup added (made is_test addr) name
    ∙ rw (made-empty is_test addr) (or_before-none (latest name added))

module _ (render : Fault → String) where
  -- What is to be reported of a check that is there, or else what has been.
  abbrev pub reported : Option (Option Fault) → Option ReadyResult → Option ReadyResult
  reported none before = before
  reported (some e) before = some (ready_result render e)

  check_all-failed :
      (functions : ReadyFunctions) (failed : Bool) (results : List (String × ReadyResult))
      → ((check_all render functions failed results).0 ≡ true)
        ↔ ((failed ≡ true) ⊎ HasFailed functions)
  unfolding check_all
  check_all-failed [] failed results = ground arith
  check_all-failed ((name, e) ∷ later) failed results = ground (
    arith,
    check_all-failed later (fails render failed e) (insert name (ready_result render e) results),
  )

  check_all-results :
      (functions : ReadyFunctions) (failed : Bool) (results : List (String × ReadyResult))
      (key : String)
      → IsMap functions
      → lookup key (check_all render functions failed results).1
        ≡ reported (lookup key functions) (lookup key results)
  unfolding check_all lookup
  check_all-results [] failed results key map = refl
  check_all-results ((name, e) ∷ later) failed results key (once, map) = ground (
    arith,
    check_all-results later (fails render failed e) (insert name (ready_result render e) results)
        key map,
    lookup-insert name key (ready_result render e) results,
    eq_iff name key,
  )

  ready_handler-status :
      (s : HealthServer)
      → let answer = ready_handler render s in
        ((answer.status ≡ 500) ↔ HasFailed s.ready_functions)
        × ((answer.status ≡ 500) ⊎ (answer.status ≡ 200))
  unfolding ready_handler
  ready_handler-status s =
      (ground (arith, check_all-failed s.ready_functions false []), ground arith)

  ready_handler-results :
      (s : HealthServer) (name : String)
      → IsMap s.ready_functions
      → lookup name (ready_handler render s).results ≡ reported (lookup name s.ready_functions) none
  unfolding ready_handler lookup
  ready_handler-results s name map = check_all-results s.ready_functions false [] name map

  module _ (R A : Type 0) (pages : Pages R A) (encode : Answer → R → A)
      (route : List String → R → Option String) (not_found : R → A) where
    abbrev pub patterns : HealthServer → List String
    patterns s = map (λ ((p, h) : String × (R → A)). p) (set_up_mux R A pages render encode s)

    -- A health server of either kind, to which checks have been added since: a request that the mux
    -- routes to /health/ready is answered from the last check that was added under each name. The
    -- answer is 500 if one of them fails and 200 if none does, whatever the order of the checks, and it
    -- reports for each name the result of its check, and for no other name.
    pub ready_endpoint_complete :
        (is_test : Bool) (addr : String) (added : List (String × Option Fault)) (r : R)
        → let s = add_all added (made is_test addr) in
          route (patterns s) r ≡ some "/health/ready"
          → (answer : Answer) × (serve_health R A pages render encode route not_found s r
              ≡ encode answer r)
            × ((answer.status ≡ 500)
                ↔ ((name : String) × (e : Fault) × (latest name added ≡ some (some e))))
            × ((answer.status ≡ 500) ⊎ (answer.status ≡ 200))
            × ((name : String) → lookup name answer.results ≡ reported (latest name added) none)
    unfolding serve_health set_up_mux lookup
    ready_endpoint_complete is_test addr added r routed =
        let s = add_all added (made is_test addr) in
        let empty = made-empty is_test addr in
        let map : IsMap s.ready_functions = add_all-IsMap added (made is_test addr) (rw empty tt) in
        let (failed, either) = ready_handler-status s in
        let there = made-lookup is_test addr added in
        (
          ready_handler render s,
          rw (serve_health, routed) refl,
          (
            λ bad.
                let (name, e, found) = HasFailed-found s.ready_functions map (failed.0 bad) in
                (name, e, sym (there name) ∙ found),
            λ (name, e, found).
                failed.1 (found-HasFailed s.ready_functions name e (there name ∙ found)),
          ),
          either,
          λ name. ready_handler-results s name map ∙ rw (there name) refl,
        )

-- The answer to the request of a check.
abbrev pub IsOk : Result (ℕ × String) → Type 0
IsOk (err e) = ⊥
IsOk (ok (code, status)) = code ≡ 200

-- A check of liveness passes exactly when the request can be made, is answered, and the answer's
-- status code is 200.
pub liveness_ready_check_iff :
    (created : Option Fault) (performed : Result (ℕ × String))
    → (liveness_ready_check created performed ≡ none) ↔ ((created ≡ none) × IsOk performed)
unfolding liveness_ready_check
liveness_ready_check_iff created performed = ground arith
