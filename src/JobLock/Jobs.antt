-- ===== src/JobLock/Jobs.antt =====
-- Processes that call RunWithContext (`Runner`) over one table (`Fleet`). A process that has panicked
-- goes no further.
pub mod Alone
mod Tests
use elephantine.Prelude.{ℕ, ◌≤◌, ◌≡◌, Bool, true, false, if◌then◌else◌, ◌==◌}
use elephantine.JobLock.Table.{Table}
use elephantine.JobLock.Lock.{JobLock, Fate}
use elephantine.JobLock.Loop.{polling, leaving, TurnEnv, turn, finish}
use elephantine.JobLock.Outcomes.{IsLocked}
use elephantine.JobLock.Fleet.{Fleet, IsTimely}
use elephantine.JobLock.Runner
use elephantine.JobLock.Runner.{
  Runner, run_with_context, take_turn, wake, see_abort, leave, watch_abort, watch_out, watch_closed,
  watch_done, cancel, watcher_stop, call, give_up, return, cancel_parent, outside_stop,
}

pub record Jobs : Type 0 where
  pub runners : ℕ → Runner
  pub table : Table
  pub now : ℕ

abbrev pub replace : (ℕ → Runner) → ℕ → Runner → ℕ → Runner
replace f i r j = if i == j then r else f j

-- The loops of the processes.
abbrev pub fleet_of : Jobs → Fleet
fleet_of s = record { workers = λ i. (s.runners i).worker; table = s.table; now = s.now }

-- The steps of one process that do not reach the table.
abbrev pub is_local : {r after : Runner} → Runner.Step r after → Bool
is_local (take_turn env table at) = false
is_local (wake timer at) = true
is_local (see_abort timer at closed) = true
is_local (leave fate table at) = false
is_local (watch_abort on closed) = true
is_local (watch_out state rest on got) = true
is_local (watch_closed on got closed) = true
is_local (watch_done on done) = true
is_local (cancel on) = true
is_local (watcher_stop on) = true
is_local (call at acquired) = true
is_local (give_up at done) = true
is_local (return at) = true
is_local cancel_parent = true
is_local outside_stop = true

pub data Step (latency : ℕ) (s : Jobs) : Jobs → Type 0 where
  turn_of :
      (i : ℕ) (env : TurnEnv) (later : ℕ)
      → (s.runners i).panicked ≡ false
      → (s.runners i).worker.phase ≡ polling
      → s.now ≤ later
      → IsTimely latency (s.runners i).worker.lock env later
      → IsLocked env.seen s.table (s.runners i).worker.lock.name
      → Step latency s (record {
        runners =
            replace s.runners i
              (record (s.runners i) { worker = (turn env (s.runners i).worker s.table).0 });
        table = (turn env (s.runners i).worker s.table).1;
        now = later;
      })
  leave_of :
      (i : ℕ) (fate : Fate)
      → (s.runners i).panicked ≡ false
      → (s.runners i).worker.phase ≡ leaving
      → Step latency s (record s {
        runners =
            replace s.runners i
              (record (s.runners i) { worker = (finish fate (s.runners i).worker s.table).0 });
        table = (finish fate (s.runners i).worker s.table).1;
      })
  local :
      (i : ℕ) (after : Runner)
      → (s.runners i).panicked ≡ false
      → (step : Runner.Step (s.runners i) after) → is_local step ≡ true
      → Step latency s (record s { runners = replace s.runners i after })
  pass : (later : ℕ) → s.now ≤ later → Step latency s (record s { now = later })

pub data Reach (latency : ℕ) (s : Jobs) : Jobs → Type 0 where
  here : Reach latency s s
  next : {t u : Jobs} → Reach latency s t → Step latency t u → Reach latency s u

abbrev pub start : (ℕ → JobLock) → Table → ℕ → Jobs
start locks table now = record {
  runners = λ i. run_with_context (locks i);
  table = table;
  now = now;
}
