-- ===== src/JobLock/Tests.antt =====
-- Runs of two processes over one table, and the theorems at concrete inputs.
use text.Mathlib.TextLemmas.{tail-eq_of_cons-eq, cons-ne-nil}
use elephantine.Prelude.{
  ℕ, zero, suc, ◌+◌, ◌^◌, ◌≤◌, ◌<◌, ◌≡◌, ◌⊎◌, ◌↔◌, false, refl, sym, ap, String, true, none, some,
  [], ◌∷◌, arith,
}
use elephantine.Fault
use elephantine.Fault.{ok}
use elephantine.JobLock.Table.{
  JobLockRow, Table, get_job_lock, release_job_lock, insert_job_lock, steal_job_lock,
}
use elephantine.Prelude.Lists.{length}
use elephantine.JobLock.Lock.{
  JobLock, JobLockOptions, AcquireEnv, ExecEnv, none_held, held, done, new_job_lock,
  attempt_acquire, release,
}
use elephantine.JobLock.Loop.{TurnEnv, turn}
use elephantine.JobLock.Options.{new_job_lock-ordered, new_job_lock-defaults}
use elephantine.JobLock.Attempts.{attempt_acquire_iff, IsFree}
use elephantine.JobLock.Fleet.{Fleet, Reach, here, next, take_turn, pass}
use elephantine.JobLock.Exclusion.{IsMember, start, exclusive}
use elephantine.JobLock.Lifecycle.{rank, NextState, state_moves_on}

abbrev pub identity : ℕ → String
identity zero = "a"
identity (suc n) = String.◌∷◌ "a" (identity n)

pub identity-distinct : (i j : ℕ) → identity i ≡ identity j → i ≡ j
identity-distinct zero zero e = refl
identity-distinct zero (suc zero) e = absurd (cons-ne-nil _ _ (sym (tail-eq_of_cons-eq e)))
identity-distinct zero (suc (suc j)) e = absurd (cons-ne-nil _ _ (sym (tail-eq_of_cons-eq e)))
identity-distinct (suc zero) zero e = absurd (cons-ne-nil _ _ (tail-eq_of_cons-eq e))
identity-distinct (suc (suc i)) zero e = absurd (cons-ne-nil _ _ (tail-eq_of_cons-eq e))
identity-distinct (suc i) (suc j) e = ap suc (identity-distinct i j (tail-eq_of_cons-eq e))

abbrev pub free_lock : ℕ → JobLock
free_lock i = record {
  state = none_held;
  last_ping = 0;
  name = "job";
  identity = identity i;
  iteration = 0;
  ping_interval = 10;
  stale_after = 50;
  check_interval = 20;
  timeout = 5;
}

abbrev pub calm : ℕ → AcquireEnv
calm now = record {
  begin_error = none;
  get_error = none;
  write_error = none;
  commit = done;
  tx_now = now;
  checked_at = now + 1;
  pinged_at = now + 2;
}

abbrev pub steady : ℕ → ExecEnv
steady now = record { fate = done; tx_now = now; checked_at = now + 1; pinged_at = now + 2 }

abbrev pub first_env : TurnEnv
first_env = record {
  polled_at = 1;
  scheduled_at = 1;
  seen = none;
  acquire = calm 1;
  exec = steady 1;
}

abbrev pub row_of_first : JobLockRow
row_of_first = record { name = "job"; holder = "a"; touched = 1; iteration = 1 }

abbrev pub second_env : TurnEnv
second_env = record {
  polled_at = 100;
  scheduled_at = 100;
  seen = some row_of_first;
  acquire = calm 100;
  exec = steady 100;
}

abbrev pub begin : Fleet
begin = start free_lock [] 0

-- The first process takes the free lock.
abbrev pub taken : (t : Fleet) × Reach 5 begin t
unfolding turn attempt_acquire insert_job_lock Fault.is get_job_lock steal_job_lock
taken = (_, next here (take_turn 0 first_env 5 refl (omega arith) (omega arith) tt))

-- It does not renew it, and the second process takes the stale row over.
abbrev pub stolen : (t : Fleet) × Reach 5 taken.0 t
unfolding turn attempt_acquire insert_job_lock Fault.is get_job_lock steal_job_lock
stolen = (
  _,
  next (next here (pass 100 (omega arith)))
      (take_turn 1 second_env 110 refl (omega arith) (omega arith) refl),
)

pub free_lock-IsMember : (i : ℕ) → IsMember "job" identity 50 i (free_lock i)
free_lock-IsMember i = record {
  same_name = refl;
  own_identity = refl;
  patient = omega arith;
  small = omega arith;
}

pub append : {s t u : Fleet} → Reach 5 s t → Reach 5 t u → Reach 5 s u
append r here = r
append r (next r' step) = next (append r r') step

exclusive_example :
    ((stolen.0.workers 0).lock.last_ping + 50 ≤ stolen.0.now + 5)
    ⊎ ((stolen.0.workers 1).lock.last_ping + 50 ≤ stolen.0.now + 5)
unfolding turn attempt_acquire insert_job_lock Fault.is get_job_lock steal_job_lock
exclusive_example =
    exclusive "job" identity 5 50 (omega arith) identity-distinct free_lock [] 0 stolen.0
      free_lock-IsMember (λ i. refl) tt (append taken.1 stolen.1) 0 1 (omega arith) refl refl

-- The first process acquires the lock.
state_moves_on_example :
    NextState none_held held
    × (rank (taken.0.workers 0).lock.state ≤ rank (stolen.0.workers 0).lock.state)
    × (rank (stolen.0.workers 0).lock.state ≤ 2)
    × (length (stolen.0.workers 0).out ≤ 1)
unfolding turn attempt_acquire insert_job_lock Fault.is get_job_lock steal_job_lock
state_moves_on_example =
    state_moves_on free_lock [] 0 begin taken.0 stolen.0 (λ i. refl) here
      (take_turn 0 first_env 5 refl (omega arith) (omega arith) tt) stolen.1 0

abbrev moderate : JobLockOptions
moderate = record { ping_interval = 1000; stale_after = 0; check_interval = 0; timeout = 0 }

abbrev of_options : JobLock
of_options = record {
  state = none_held;
  last_ping = 0;
  name = "job";
  identity = "u.h";
  iteration = 0;
  ping_interval = 1000;
  stale_after = 4000;
  check_interval = 2000;
  timeout = 500;
}

made_of_moderate : new_job_lock "u" (ok "h") "job" moderate ≡ ok of_options
made_of_moderate = new_job_lock-defaults "u" "job" "h" 1000 (omega arith)

new_job_lock-ordered_example :
    (of_options.state ≡ none_held)
    × (of_options.name ≡ "job")
    × (of_options.timeout < of_options.ping_interval)
    × (of_options.ping_interval < of_options.stale_after)
    × (of_options.stale_after < 2 ^ 63)
    × (0 < of_options.check_interval)
new_job_lock-ordered_example =
    new_job_lock-ordered "u" "job" (ok "h") moderate of_options (omega arith) made_of_moderate

abbrev rows : Table
rows = record { name = "else"; holder = "a"; touched = 1; iteration = 7 } ∷ row_of_first ∷ []

-- A row of another process that is stale at 100 is taken over.
attempt_acquire_iff_example :
    let result = attempt_acquire (free_lock 1) (calm 100) (get_job_lock rows "job") rows in
    ((result.0.is_ok ≡ true) ↔ IsFree (free_lock 1) 101 (get_job_lock rows "job"))
    × (result.0.is_ok ≡ false → result.1 ≡ rows)
attempt_acquire_iff_example =
    attempt_acquire_iff (free_lock 1) (calm 100) rows (refl, refl, refl, refl)

abbrev held_lock : ℕ → JobLock
held_lock i = record (free_lock i) { state = held; last_ping = 3; iteration = 1 }

release_frees_run : get_job_lock (release (held_lock 0) done rows) "job" ≡ none
unfolding release release_job_lock get_job_lock
release_frees_run = refl
