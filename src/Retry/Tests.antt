-- ===== src/Retry/Tests.antt =====
-- Three failures, one after the other, with a limit of two retries, and a group of two tasks.
use Prim.Native.Nat.{ℕ}
use elephantine.Prelude.{◌≡◌, ◌⊎◌, ◌≤◌, String, false, true, List, [], ◌∷◌, none, some, refl, arith}
use elephantine.Duration
use elephantine.Fault
use elephantine.Retry.{Attempt, Progress, gave_up, go_with_retries, round, count_failure}
use elephantine.Retry.Crew.{
  once, retried, Kind, Task, attempting, ended, attempted, ErrGroup, new_err_group, is_done, go,
  wait_group, HaveEnded, Step, attempt, Reach, Turns,
}
use elephantine.Retry.Winding.{err_group_winds_down}
use elephantine.Server.Tests.{first_error, first_error-IsGroup}
use elephantine.Retry.Bounds.{go_with_retries-burst, tries_of, has_given_up}

abbrev fails_at : ℕ → Attempt
fails_at t = record {
  error = some (Fault.text "down");
  cancelled = none;
  cancelled_waiting = none;
  failed_at = t;
  noted_at = t;
}

abbrev run : List Attempt
run = fails_at 1 ∷ fails_at 2 ∷ fails_at 3 ∷ []

abbrev begin : Progress
begin = record { tries = 0; last_state_change = 0 }

go_with_retries-burst_example :
    let outcome = go_with_retries 2 50 begin run in
    (has_given_up 2 50 outcome ≡ true) × (tries_of 2 50 outcome ≡ 3)
unfolding Duration.lt Duration.since
go_with_retries-burst_example =
    go_with_retries-burst 2 50 begin run (omega arith) (omega arith) (
      (λ e. cc),
      refl,
      refl,
      refl,
      ((λ e. cc), refl, refl, refl, ((λ e. cc), refl, refl, refl, tt)),
    )

gives_up : go_with_retries 2 50 begin run ≡ gave_up 3 (Fault.text "down")
unfolding go_with_retries round count_failure Duration.lt Duration.since
gives_up = refl

abbrev task : String → Kind → Task
task name kind = record { name = name; kind = kind; phase = attempting begin }

-- One task of a group fails, and then the other, which is not tried again.
abbrev one_failed :
    (eg : ErrGroup first_error) × Reach first_error (new_err_group first_error false) eg
unfolding new_err_group go attempted
one_failed = (
  _,
  Reach.next (Reach.start "a" once 0 (Reach.start "b" (retried 2 50) 0 Reach.here))
      (attempt [] (task "b" (retried 2 50) ∷ []) (task "a" once) begin (fails_at 1) refl refl refl),
)

-- Waiting for a group of no tasks cancels its context, and a task that is started then sees it.
cancels :
    (eg : ErrGroup first_error) × Reach first_error (new_err_group first_error false) eg
    × (is_done first_error eg ≡ true)
unfolding new_err_group wait_group
cancels = (_, Reach.join Reach.here tt, refl)

abbrev both_failed : (after : ErrGroup first_error) × Turns first_error one_failed.0 1 after
unfolding new_err_group go attempted round one_failed
both_failed = (
  _,
  Turns.next Turns.here (
      attempt
        (record {
          name = "a";
          kind = once;
          phase = ended (some (Fault.wrap "a" (Fault.text "down")));
        }
          ∷ [])
        [] (task "b" (retried 2 50)) begin
        (record (fails_at 2) { cancelled = some (Fault.text "context canceled") }) refl refl refl),
)

err_group_winds_down_example :
    (1 ≤ 5)
    × (HaveEnded both_failed.0.tasks
        ⊎ ((later : ErrGroup first_error) × Step first_error both_failed.0 later))
unfolding new_err_group go attempted one_failed
err_group_winds_down_example =
    err_group_winds_down first_error first_error-IsGroup one_failed.0 both_failed.0 1 refl
      both_failed.1
