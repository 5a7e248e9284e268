-- ===== src/JobLock/Options.antt =====
-- NewJobLock: which options it accepts, and the lock that it makes of them.
use elephantine.Prelude.{ℕ, ◌*◌, ◌/◌, ◌^◌, ◌<◌, ◌≡◌, String, ◌+++◌, arith, if◌then◌else◌, ◌==◌}
use elephantine.Fault.{Result, ok, err}
use elephantine.JobLock.Lock.{JobLock, JobLockOptions, none_held, new_job_lock, second}

-- No option is as long as 73 years, so no default wraps.
abbrev pub IsModerate : JobLockOptions → Type 0
IsModerate opts =
    (opts.ping_interval < 2 ^ 61)
    × (opts.stale_after < 2 ^ 61)
    × (opts.check_interval < 2 ^ 61)
    × (opts.timeout < 2 ^ 61)

abbrev pub interval : JobLockOptions → ℕ
interval opts = if opts.ping_interval == 0 then 10 * second else opts.ping_interval

-- From options shorter than 2^61 ns each, none of them negative, NewJobLock makes a lock that is
-- not held, whose requests are given up in less time than a ping interval, whose row becomes stale
-- only after more than a ping interval, and that never checks in a busy loop.
pub new_job_lock-ordered :
    (id name : String) (hostname : Result String) (opts : JobLockOptions) (jl : JobLock)
    → IsModerate opts
    → new_job_lock id hostname name opts ≡ ok jl
    → (jl.state ≡ none_held)
      × (jl.name ≡ name)
      × (jl.timeout < jl.ping_interval)
      × (jl.ping_interval < jl.stale_after)
      × (jl.stale_after < 2 ^ 63)
      × (0 < jl.check_interval)
unfolding new_job_lock
new_job_lock-ordered id name (ok host) opts jl small h = ground arith
new_job_lock-ordered id name (err e) opts jl small h = ground arith

-- Where the host has a name and only a ping interval below 2^61 ns is given, or none, NewJobLock
-- succeeds, and the other times are the documented multiples of the ping interval.
pub new_job_lock-defaults :
    (id name host : String) (ping : ℕ)
    → ping < 2 ^ 61
    → let opts : JobLockOptions = record {
      ping_interval = ping;
      stale_after = 0;
      check_interval = 0;
      timeout = 0;
    } in
      new_job_lock id (ok host) name opts
      ≡ ok (record {
        state = none_held;
        last_ping = 0;
        name = name;
        identity = id +++ "." +++ host;
        iteration = 0;
        ping_interval = interval opts;
        stale_after = 4 * interval opts;
        check_interval = 2 * interval opts;
        timeout = interval opts / 2;
      })
unfolding new_job_lock
new_job_lock-defaults id name host ping small = ground arith
