-- ===== src/JobLock/Lock.antt =====
-- JobLock and the calls that it makes. A call's environment says which requests fail, with what
-- error, and the clock: `tx_now` is the database's now() of the transaction, the other times are
-- what time.Now returns at the process.
use elephantine.Prelude.{
  ℕ, ◌+◌, ◌%◌, ◌^◌, String, Bool, true, false, not, Option, none, some, if◌then◌else◌, ◌==◌, str_eq,
  ◌+++◌,
}
use elephantine.Fault
use elephantine.Fault.{Fault, Result, ok, err}
use elephantine.Duration
use elephantine.JobLock.Table.{
  JobLockRow, Table, insert_job_lock, ping_job_lock, steal_job_lock, release_job_lock,
}

pub data JobLockState : Type 0 where
  none_held held lost released : JobLockState

-- Durations, with 0 for the default.
pub record JobLockOptions : Type 0 where
  pub ping_interval : ℕ
  pub stale_after : ℕ
  pub check_interval : ℕ
  pub timeout : ℕ

-- The fields of JobLock that are data; its channels are in `Loop`.
pub record JobLock : Type 0 where
  pub state : JobLockState
  pub last_ping : ℕ
  pub name : String
  pub identity : String
  pub iteration : ℕ
  pub ping_interval : ℕ
  pub stale_after : ℕ
  pub check_interval : ℕ
  pub timeout : ℕ

abbrev pub second : ℕ
second = 1000000000

abbrev default_to : ℕ → ℕ → ℕ
default_to d x = if x == 0 then d else x

-- The defaults that NewJobLock fills in, in its order.
unfoldable pub with_defaults : JobLockOptions → JobLockOptions
unfolding Duration.times Duration.half
with_defaults opts =
    let ping = default_to (Duration.times 10 second) opts.ping_interval in
    record {
      ping_interval = ping;
      stale_after = default_to (Duration.times ping 4) opts.stale_after;
      check_interval = default_to (Duration.times ping 2) opts.check_interval;
      timeout = default_to (Duration.half ping) opts.timeout;
    }

-- `id` is what uuid.New returns and `hostname` what os.Hostname does.
unfoldable pub new_job_lock : String → Result String → String → JobLockOptions → Result JobLock
unfolding with_defaults Duration.lt
new_job_lock id hostname name given =
    let opts = with_defaults given in
    if not (Duration.lt opts.ping_interval opts.stale_after)
    then err (Fault.text "the ping interval must be shorter than stale after")
    else if not (Duration.lt opts.timeout opts.ping_interval)
    then err (Fault.text "the timeout must be shorter than the ping interval")
    else elim hostname [
      | err e ↦ err (Fault.wrap "failed to get hostname" e)
      | ok host ↦ ok (record {
        state = none_held;
        last_ping = 0;
        name = name;
        identity = id +++ "." +++ host;
        iteration = 0;
        ping_interval = opts.ping_interval;
        stale_after = opts.stale_after;
        check_interval = opts.check_interval;
        timeout = opts.timeout;
      })
    ]

pub record AcquireChange : Type 0 where
  pub is_ok : Bool
  pub ping : ℕ
  pub iteration : ℕ

abbrev pub no_change : AcquireChange
no_change = record { is_ok = false; ping = 0; iteration = 0 }

-- How a COMMIT, or a statement outside a transaction, ends: an error may come before the effect or
-- after it.
pub data Fate : Type 0 where
  done : Fate
  undone : Fault → Fate
  unknown : Fault → Fate

pub record AcquireEnv : Type 0 where
  pub begin_error : Option Fault
  pub get_error : Option Fault
  pub write_error : Option Fault
  pub commit : Fate
  pub tx_now : ℕ
  pub checked_at : ℕ
  pub pinged_at : ℕ

-- The result of GetJobLock: pgx.ErrNoRows where there is no row.
unfoldable pub read_row : Option Fault → Option JobLockRow → Result JobLockRow
read_row (some e) row = err e
read_row none none = err (Fault.sentinel Fault.Sentinel.no_rows)
read_row none (some r) = ok r

-- The result of InsertJobLock: a constraint error where the name is taken.
unfoldable pub inserted : Option Fault → Option (ℕ × Table) → Result (ℕ × Table)
inserted (some e) rows = err e
inserted none none = err (Fault.constraint "job_lock_pkey")
inserted none (some r) = ok r

-- IsConstraintError
unfoldable pub is_constraint_error : Option Fault → String → Bool
unfolding Fault.find
is_constraint_error none constraint = false
is_constraint_error (some e) constraint = elim (Fault.find Fault.as_constraint e) [
  | none ↦ false
  | some name ↦ str_eq name constraint
]

-- JobLock.steal, on the transaction's table; `err` and no change both leave it as it was.
unfoldable pub steal : JobLock → AcquireEnv → JobLockRow → Table → Result (AcquireChange × Table)
steal jl env row table =
    let (affected, after) =
      steal_job_lock table jl.identity jl.name row.holder row.iteration env.tx_now in
    elim env.write_error [
      | some e ↦ err (Fault.wrap "failed to steal job lock" e)
      | none ↦
          if affected == 0
          then err (Fault.text "out of sync: failed to steal job lock")
          else ok (
            record { is_ok = true; ping = env.pinged_at; iteration = (row.iteration + 1) % 2 ^ 64 },
            after,
          )
    ]

-- What JobLock.acquire does once it has found no row.
unfoldable pub take_free : JobLock → AcquireEnv → Table → Result (AcquireChange × Table)
unfolding is_constraint_error inserted
take_free jl env table =
    elim (inserted env.write_error (insert_job_lock table jl.name jl.identity env.tx_now)) [
      | err e ↦
          if is_constraint_error (some e) "job_lock_pkey"
          then ok (no_change, table)
          else err (Fault.wrap "failed to insert job lock" e)
      | ok (iteration, after) ↦
          ok (record { is_ok = true; ping = env.pinged_at; iteration = iteration }, after)
    ]

-- JobLock.acquire. `seen` is the row that the SELECT read, before the table may have changed.
unfoldable pub acquire :
    JobLock → AcquireEnv → Option JobLockRow → Table → Result (AcquireChange × Table)
unfolding read_row steal take_free Duration.lt Duration.since
acquire jl env seen table = elim (read_row env.get_error seen) [
  | err e ↦
      if Fault.is e Fault.Sentinel.no_rows
      then take_free jl env table
      else err (Fault.wrap "failed to read job lock" e)
  | ok row ↦
      if Duration.lt (Duration.since env.checked_at row.touched) jl.stale_after
      then ok (no_change, table)
      else steal jl env row table
]

-- COMMIT: the change that the process sees, and the table that the database keeps.
unfoldable pub commit : Fate → AcquireChange → (before after : Table) → AcquireChange × Table
commit done change before after = (change, after)
commit (undone e) change before after = (no_change, before)
commit (unknown e) change before after = (no_change, after)

-- JobLock.attemptAcquire; the deferred rollback gives the table up on each early return.
unfoldable pub attempt_acquire :
    JobLock → AcquireEnv → Option JobLockRow → Table → AcquireChange × Table
unfolding acquire commit
attempt_acquire jl env seen table = elim env.begin_error [
  | some e ↦ (no_change, table)
  | none ↦ elim (acquire jl env seen table) [
    | err e ↦ (no_change, table)
    | ok (change, after) ↦
        if change.is_ok then commit env.commit change table after else (no_change, table)
  ]
]

pub record ExecEnv : Type 0 where
  pub fate : Fate
  pub tx_now : ℕ
  pub checked_at : ℕ
  pub pinged_at : ℕ

-- Exec outside a transaction: RowsAffected, and the table after.
unfoldable pub exec : Fate → ℕ × Table → Table → Result ℕ × Table
exec done (affected, after) table = (ok affected, after)
exec (undone e) (affected, after) table = (err e, table)
exec (unknown e) (affected, after) table = (err e, after)

-- JobLock.ping
unfoldable pub ping : JobLock → ExecEnv → Table → JobLock × JobLockState × Table
unfolding exec Duration.lt Duration.since
ping jl env table =
    let sent = ping_job_lock table jl.name jl.identity jl.iteration env.tx_now in
    let (updated, after) = exec env.fate sent table in
    elim updated [
      | err e ↦
          if Duration.lt jl.stale_after (Duration.since env.checked_at jl.last_ping)
          then (jl, lost, after)
          else (jl, held, after)
      | ok n ↦ if n == 0 then (jl, lost, after) else (
        record jl { iteration = (jl.iteration + 1) % 2 ^ 64; last_ping = env.pinged_at },
        held,
        after,
      )
    ]

abbrev pub is_held : JobLockState → Bool
is_held held = true
is_held _ = false

-- The database part of JobLock.release: an error is logged, and nothing else comes of it.
unfoldable pub release : JobLock → Fate → Table → Table
unfolding exec
release jl fate table =
    if is_held jl.state
    then (exec fate (release_job_lock table jl.name jl.identity) table).1
    else table
