-- ===== src/JobLock/Runner.antt =====
-- JobLock.RunWithContext and Stop: the loop's goroutine, the goroutine that watches the lock, and the
-- caller that runs the function, with the channels and the context between them. Calls of Stop from
-- outside and the cancelling of the caller's context may come at any time. Other processes change
-- the table as they like, so each access to it meets a table of its own.
pub mod Outcome
mod Tests
use elephantine.Prelude.{ℕ, ◌+◌, ◌≡◌, Bool, true, false, List, [], ◌∷◌, if◌then◌else◌}
use elephantine.JobLock.Table.{Table}
use elephantine.JobLock.Lock.{JobLock, JobLockState, none_held, held, lost, released, Fate}
use elephantine.JobLock.Loop.{Worker, polling, waiting, leaving, TurnEnv, turn, finish, idle}

-- The watcher: in its `for`, at each of its deferred calls, and at its end.
pub data Watcher : Type 0 where
  watching cancelling stopping finished : Watcher

-- The caller: at its select, in the function, and back.
pub data Caller : Type 0 where
  blocked running returned : Caller

-- A channel that is only closed is a Boolean. `stops` counts the calls of Stop from outside, and
-- `panicked` tells that a closed channel was closed, which ends the program.
pub record Runner : Type 0 where
  pub worker : Worker
  pub abort : Bool
  pub acquired : Bool
  pub cancelled : Bool
  pub watcher : Watcher
  pub caller : Caller
  pub stops : ℕ
  pub panicked : Bool

unfoldable pub run_with_context : JobLock → Runner
run_with_context jl = record {
  worker = idle jl;
  abort = false;
  acquired = false;
  cancelled = false;
  watcher = watching;
  caller = blocked;
  stops = 0;
  panicked = false;
}

-- close(jl.abort) in Stop, which then only waits.
unfoldable pub stop : Runner → Runner
stop s = if s.abort then record s { panicked = true } else record s { abort = true }

-- The watcher's `switch` on a state that it has received.
unfoldable pub watch : JobLockState → Runner → Runner
watch none_held s = s
watch held s = if s.acquired then record s { panicked = true } else record s { acquired = true }
watch lost s = record s { watcher = cancelling }
watch released s = record s { watcher = cancelling }

abbrev pub taken : List JobLockState → Runner → Runner
taken rest s = record s { worker = record s.worker { out = rest } }

pub data Step (s : Runner) : Runner → Type 0 where
  -- The loop.
  take_turn :
      (env : TurnEnv) (table : Table)
      → s.worker.phase ≡ polling
      → Step s (record s { worker = (turn env s.worker table).0 })
  wake :
      (timer : ℕ)
      → s.worker.phase ≡ waiting timer
      → Step s (record s { worker = record s.worker { phase = polling } })
  see_abort :
      (timer : ℕ)
      → s.worker.phase ≡ waiting timer
      → s.abort ≡ true
      → Step s (record s { worker = record s.worker { phase = leaving } })
  leave :
      (fate : Fate) (table : Table)
      → s.worker.phase ≡ leaving
      → Step s (record s { worker = (finish fate s.worker table).0 })
  -- The watcher's select, and its deferred calls. A closed channel yields the empty state.
  watch_abort : s.watcher ≡ watching → s.abort ≡ true → Step s (record s { watcher = cancelling })
  watch_out :
      (state : JobLockState) (rest : List JobLockState)
      → s.watcher ≡ watching
      → s.worker.out ≡ state ∷ rest
      → Step s (watch state (taken rest s))
  watch_closed :
      s.watcher ≡ watching
      → s.worker.out ≡ []
      → s.worker.out_closed ≡ true
      → Step s (watch none_held s)
  watch_done :
      s.watcher ≡ watching → s.cancelled ≡ true → Step s (record s { watcher = cancelling })
  cancel : s.watcher ≡ cancelling → Step s (record s { cancelled = true; watcher = stopping })
  watcher_stop : s.watcher ≡ stopping → Step s (stop (record s { watcher = finished }))
  -- The caller. Its deferred cancel runs when it returns.
  call : s.caller ≡ blocked → s.acquired ≡ true → Step s (record s { caller = running })
  give_up : s.caller ≡ blocked → s.cancelled ≡ true → Step s (record s { caller = returned })
  return : s.caller ≡ running → Step s (record s { caller = returned; cancelled = true })
  -- From outside.
  cancel_parent : Step s (record s { cancelled = true })
  outside_stop : Step s (stop (record s { stops = s.stops + 1 }))

-- The watcher's own steps.
abbrev pub is_watcher : {s t : Runner} → Step s t → Bool
is_watcher (take_turn env table at) = false
is_watcher (wake timer at) = false
is_watcher (see_abort timer at closed) = false
is_watcher (leave fate table at) = false
is_watcher (watch_abort on closed) = true
is_watcher (watch_out state rest on got) = true
is_watcher (watch_closed on got closed) = true
is_watcher (watch_done on done) = true
is_watcher (cancel on) = true
is_watcher (watcher_stop on) = true
is_watcher (call at acquired) = false
is_watcher (give_up at done) = false
is_watcher (return at) = false
is_watcher cancel_parent = false
is_watcher outside_stop = false

-- A run in which only the watcher goes on.
pub data Watches (s : Runner) : Runner → Type 0 where
  here : Watches s s
  next :
      {t u : Runner}
      → Watches s t
      → t.panicked ≡ false
      → (step : Step t u) → is_watcher step ≡ true
      → Watches s u

pub data Reach (s : Runner) : Runner → Type 0 where
  here : Reach s s
  next : {t u : Runner} → Reach s t → t.panicked ≡ false → Step t u → Reach s u
