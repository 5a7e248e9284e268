-- ===== src/JobLock/Refinement/Tests.antt =====
-- The leases of two processes, and that the second can have the lock, at concrete inputs.
use elephantine.Prelude.{ℕ, refl, [], arith}
use elephantine.Fault
use elephantine.JobLock.Table.{get_job_lock, insert_job_lock, steal_job_lock}
use elephantine.JobLock.Lock.{attempt_acquire}
use elephantine.JobLock.Loop.{turn}
use elephantine.JobLock.Lease.{Run}
use elephantine.JobLock.Refinement.{leases_refined, book_of, IsPatient}
use elephantine.JobLock.Takeover.{can_acquire, Holds}
use elephantine.JobLock.Tests.{identity, free_lock, begin, taken, second_env, stolen, append}

free_lock-IsPatient : (i : ℕ) → IsPatient identity 5 50 i (free_lock i)
free_lock-IsPatient i = record { own_identity = refl; patient = omega arith; small = omega arith }

leases_refined_example :
    Run 50 identity (book_of identity 5 50 "job" begin) (book_of identity 5 50 "job" stolen.0)
unfolding turn attempt_acquire insert_job_lock Fault.is get_job_lock steal_job_lock
leases_refined_example =
    leases_refined identity 5 50 (omega arith) "job" begin stolen.0 tt (λ i. free_lock-IsPatient i)
      (append taken.1 stolen.1)

-- The first process holds the lock, and leaves its row alone; the second takes it.
can_acquire_example : Holds 5 taken.0 1 second_env 110
unfolding turn attempt_acquire insert_job_lock Fault.is get_job_lock steal_job_lock
can_acquire_example =
    can_acquire 5 free_lock [] 0 taken.0 1 second_env 110 (λ j. refl) (omega arith) taken.1 refl
      refl
      (record {
        after = ground arith;
        timely = record {
          checked = omega arith;
          acquired = omega arith;
          in_order = ground arith;
          renewed = omega arith;
        };
        no_failure = (refl, refl, refl, refl);
        as_it_stands = refl;
        left_alone = ground arith;
      })
