-- ===== src/Server/Tests.antt =====
-- A group that keeps its first error, a health server whose address is taken, and a whole shutdown.
use elephantine.Prelude.{
  ◌≤◌, ◌≡◌, ◌≢◌, ◌⊎◌, ◌||◌, refl, Bool, true, false, Option, none, some, is_some, arith,
}
use elephantine.Fault
use elephantine.Fault.{Fault}
use elephantine.Server.Serving.{
  listening, listen_and_serve_context, listen_error, fail, notice, finish, shut_down, give_up,
  close,
}
use elephantine.Server.Group.{GroupPackage, IsGroup}
use elephantine.Server.Api.{
  Service, task_error, listen_and_serve, Step, health_step, api_step, health_return, api_return,
  cancel_parent, is_own, Reach, here, next, HasReturned,
}
use elephantine.Server.Returning.{listen_and_serve_outlives}
use elephantine.Health.{new_test_health_server}
use elephantine.Server.HealthServing
use elephantine.Server.HealthServing.{
  Watched, begin, health_listen_and_serve, health_listen_and_serve_returns,
}
use elephantine.Server.Termination.{listen_and_serve_terminates}

abbrev keep : Option Fault → Option Fault → Option Fault
keep (some f) out = some f
keep none out = out

-- The first error, and whether Wait has returned.
abbrev pub first_error : GroupPackage
first_error = record {
  Group = Option Fault × Bool;
  new = (none, false);
  finish = λ g out. (keep g.0 out, g.1);
  is_cancelled = λ g. is_some g.0 || g.1;
  wait = λ g. g.0;
  waited = λ g. (g.0, true);
}

keep-is_some : (g : Option Fault) (e : Fault) → is_some (keep g (some e)) ≡ true
keep-is_some none e = refl
keep-is_some (some f) e = refl

keep-none : (g : Option Fault) → keep g none ≡ g
keep-none none = refl
keep-none (some f) = refl

keep-some : (g : Option Fault) (e f : Fault) → g ≡ some f → keep g (some e) ≡ some f
keep-some none e f h = cc
keep-some (some g) e f h = h

pub first_error-IsGroup : IsGroup first_error
first_error-IsGroup = record {
  new_open = refl;
  new_clean = refl;
  finish_well = λ g. rw (keep-none g.0) refl;
  finish_badly = λ g e. rw (keep-is_some g.0 e) refl;
  wait_well = λ g. keep-none g.0;
  wait_first = λ g e h. rw h refl;
  wait_later = λ g. keep-some g.0;
  waited_cancelled = λ g. ground arith;
  waited_answer = λ g. refl;
}

abbrev taken : Fault
taken = Fault.text "address already in use"

-- The health server cannot listen, its task returns, and the API server is served on.
abbrev no_health : (s : Service first_error) × Reach first_error (listen_and_serve first_error) 2 s
unfolding listen_and_serve listen_and_serve_context listen_error task_error Fault.is Fault.find
no_health = (_, next (next here (health_step _ (fail taken refl refl))) (health_return _ refl refl))

listen_and_serve_outlives_example :
    (no_health.0.api.caller ≡ listening) × ¬ HasReturned first_error no_health.0
unfolding listen_and_serve listen_and_serve_context no_health
listen_and_serve_outlives_example =
    listen_and_serve_outlives first_error first_error-IsGroup 2 no_health.0 no_health.1 refl refl

-- Then the context is cancelled, and the API server is closed after a Shutdown that fails.
abbrev shut_service :
    (s : Service first_error) × Reach first_error (listen_and_serve first_error) 9 s
unfolding listen_and_serve listen_and_serve_context listen_error task_error Fault.is Fault.find
shut_service = (
  _,
  next
      (next
        (next
          (next
            (next (next (next no_health.1 (cancel_parent refl)) (api_step _ (shut_down refl refl)))
              (api_step _ (give_up refl)))
            (api_step _ (close refl)))
          (api_step _ (notice refl refl)))
        (api_step _ (finish refl refl)))
      (api_return _ refl refl),
)

listen_and_serve_terminates_example :
    (9 ≤ 15)
    × (shut_service.0.parent_done ≡ true
        → HasReturned first_error shut_service.0
          ⊎ ((t : Service first_error) × (step : Step first_error shut_service.0 t) × (is_own
                  first_error step
                ≡ true)))
listen_and_serve_terminates_example =
    listen_and_serve_terminates first_error first_error-IsGroup 9 shut_service.0 shut_service.1

reports_health :
    shut_service.0.group.0
    ≡ some (Fault.wrap "health server error" (Fault.wrap "failed to start listening" taken))
unfolding listen_and_serve listen_and_serve_context listen_error task_error Fault.is Fault.find
reports_health = refl

-- The context of a test server is cancelled.
abbrev unwatched : (v : Watched) × HealthServing.Reach (begin true "127.0.0.1:1081") v
unfolding health_listen_and_serve new_test_health_server
unwatched = (
  _,
  HealthServing.Reach.next
      (HealthServing.Reach.next HealthServing.Reach.here HealthServing.Step.cancel)
      (HealthServing.Step.wake refl refl),
)

health_listen_and_serve_returns_example :
    (true ≡ true → (◌≡◌ {A = Option Fault} none none) × (unwatched.0.done ≡ true))
    × (true ≡ false
        → (◌≢◌ {A = Option Fault} none none)
          × ((e : Fault)
              → none ≡ some e
              → Fault.is e Fault.Sentinel.server_closed ≡ true
              → unwatched.0.done ≡ true))
unfolding health_listen_and_serve new_test_health_server
health_listen_and_serve_returns_example =
    health_listen_and_serve_returns true "127.0.0.1:1081" unwatched.0 none unwatched.1 refl
