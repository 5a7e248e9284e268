-- ===== src/JobLock/Runner/Tests.antt =====
-- Runs of RunWithContext: one that acquires the lock, and one that loses it unnoticed.
use elephantine.Prelude.{◌≤◌, ◌≡◌, ◌⊎◌, true, false, [], ◌∷◌, refl}
use elephantine.Fault
use elephantine.JobLock.Table.{JobLockRow, get_job_lock, insert_job_lock, ping_job_lock}
use elephantine.JobLock.Lock.{held, lost, done, attempt_acquire, ping}
use elephantine.JobLock.Lifecycle.{rank}
use elephantine.JobLock.Loop.{TurnEnv, turn, finish}
use elephantine.JobLock.Tests.{free_lock, first_env, steady}
use elephantine.JobLock.Runner.{
  Runner, Reach, Watches, run_with_context, stop, watch, stopping, finished, running, returned,
  take_turn, wake, leave, watch_out, call,
}
use elephantine.JobLock.Runner.Outcome.{run_with_context-safe, stop_panics, loss_unnoticed}

abbrev taken_run : (s : Runner) × Reach (run_with_context (free_lock 0)) s
unfolding run_with_context turn attempt_acquire insert_job_lock Fault.is get_job_lock
taken_run = (_, Reach.next Reach.here refl (take_turn first_env [] refl))

abbrev started_run : (s : Runner) × Reach (run_with_context (free_lock 0)) s
unfolding run_with_context turn attempt_acquire insert_job_lock Fault.is get_job_lock watch
started_run = (
  _,
  Reach.next (Reach.next taken_run.1 refl (watch_out held [] refl refl)) refl (call refl refl),
)

-- The row of another process, at a time when a ping is due.
abbrev row_of_other : JobLockRow
row_of_other = record { name = "job"; holder = "b"; touched = 60; iteration = 2 }

abbrev late_env : TurnEnv
late_env = record first_env { polled_at = 100; scheduled_at = 100; exec = steady 100 }

abbrev lost_run : (s : Runner) × Reach (run_with_context (free_lock 0)) s
unfolding run_with_context turn attempt_acquire insert_job_lock Fault.is get_job_lock ping
    ping_job_lock finish
lost_run = (
  _,
  Reach.next
      (Reach.next (Reach.next taken_run.1 refl (wake _ refl)) refl
        (take_turn late_env (row_of_other ∷ []) refl))
      refl (leave done (row_of_other ∷ []) refl),
)

run_with_context-safe_example :
    (started_run.0.caller ≡ running → 1 ≤ rank started_run.0.worker.lock.state)
    × ((started_run.0.watcher ≡ stopping) ⊎ (started_run.0.watcher ≡ finished)
        → started_run.0.cancelled ≡ true)
    × (started_run.0.caller ≡ returned → started_run.0.cancelled ≡ true)
    × (started_run.0.stops ≡ 0 → started_run.0.panicked ≡ false)
run_with_context-safe_example = run_with_context-safe (free_lock 0) started_run.0 refl started_run.1

stop_panics_example :
    (started_run.0.abort ≡ false)
    × ((u : Runner) × Watches (stop (record started_run.0 { stops = 1 })) u × (u.panicked ≡ true))
    × ((u : Runner)
        → Reach (stop (record started_run.0 { stops = 1 })) u
        → u.watcher ≡ finished
        → u.panicked ≡ true)
unfolding run_with_context turn attempt_acquire insert_job_lock Fault.is get_job_lock watch
stop_panics_example = stop_panics (free_lock 0) started_run.0 refl started_run.1 refl refl refl

loss_unnoticed_example :
    (u : Runner) × Reach lost_run.0 u
    × (u.caller ≡ running)
    × (u.cancelled ≡ false)
    × (u.worker.lock.state ≡ lost)
unfolding run_with_context turn attempt_acquire insert_job_lock Fault.is get_job_lock ping
    ping_job_lock finish
loss_unnoticed_example =
    loss_unnoticed (free_lock 0) lost_run.0 refl lost_run.1 refl refl refl refl refl refl
