-- ===== src/JobLock/Jobs/Tests.antt =====
-- Two processes whose functions run at once, since the first has not renewed its lock.
use elephantine.Prelude.{◌+◌, ◌≤◌, ◌⊎◌, refl, [], arith}
use elephantine.Fault
use elephantine.JobLock.Table.{get_job_lock, insert_job_lock, steal_job_lock}
use elephantine.JobLock.Lock.{held, attempt_acquire}
use elephantine.JobLock.Loop.{turn}
use elephantine.JobLock.Tests.{
  free_lock, first_env, second_env, identity, identity-distinct, free_lock-IsMember,
}
use elephantine.JobLock.Runner.{run_with_context, watch, watch_out, call}
use elephantine.JobLock.Jobs.{Jobs, turn_of, local, pass, Reach, here, next, start}
use elephantine.JobLock.Jobs.Alone.{HasEnded, functions_exclusive}

abbrev first_runs : (t : Jobs) × Reach 5 (start free_lock [] 0) t
unfolding run_with_context turn attempt_acquire insert_job_lock Fault.is get_job_lock watch
first_runs = (
  _,
  next
      (next (next here (turn_of 0 first_env 5 refl refl (omega arith) (omega arith) tt))
        (local 0 _ refl (watch_out held [] refl refl) refl))
      (local 0 _ refl (call refl refl) refl),
)

abbrev both_run : (t : Jobs) × Reach 5 (start free_lock [] 0) t
unfolding run_with_context turn attempt_acquire insert_job_lock Fault.is get_job_lock watch
    steal_job_lock
both_run = (
  _,
  next
      (next
        (next (next first_runs.1 (pass 100 (omega arith)))
          (turn_of 1 second_env 110 refl refl (omega arith) (omega arith) refl))
        (local 1 _ refl (watch_out held [] refl refl) refl))
      (local 1 _ refl (call refl refl) refl),
)

functions_exclusive_example :
    (HasEnded (both_run.0.runners 0) ⊎ HasEnded (both_run.0.runners 1))
    ⊎ (((both_run.0.runners 0).worker.lock.last_ping + 50 ≤ both_run.0.now + 5)
        ⊎ ((both_run.0.runners 1).worker.lock.last_ping + 50 ≤ both_run.0.now + 5))
unfolding run_with_context turn attempt_acquire insert_job_lock Fault.is get_job_lock watch
    steal_job_lock
functions_exclusive_example =
    functions_exclusive "job" identity 5 50 (omega arith) identity-distinct free_lock [] 0
      both_run.0 free_lock-IsMember (λ i. refl) tt both_run.1 0 1 (omega arith) refl refl
