-- ===== src/JobLock/Loop.antt =====
-- JobLock.loop, one turn at a time, with the channels of the lock. A turn is the body of the `for`
-- up to its last select; what that select chooses, and the deferred release, are steps of `Fleet`.
use elephantine.Prelude.{ℕ, ◌+◌, Bool, true, false, List, [], ◌∷◌, Option, if◌then◌else◌}
use elephantine.Duration
use elephantine.JobLock.Table.{JobLockRow, Table}
use elephantine.JobLock.Lock.{
  JobLockState, none_held, held, lost, released, JobLock, AcquireChange, AcquireEnv, ExecEnv, Fate,
  attempt_acquire, ping, release, is_held,
}

-- Where the goroutine of the loop stands.
pub data Phase : Type 0 where
  polling : Phase
  waiting : (timer : ℕ) → Phase
  leaving : Phase
  stopped : Phase

-- Whether the loop is going to run on.
abbrev pub is_looping : Phase → Bool
is_looping polling = true
is_looping (waiting timer) = true
is_looping _ = false

-- The lock, the loop's variable `nextState`, and the lock's channels: `out` holds one message.
pub record Worker : Type 0 where
  pub lock : JobLock
  pub next_state : JobLockState
  pub phase : Phase
  pub out : List JobLockState
  pub out_closed : Bool
  pub cleaned_up : Bool

-- What a turn meets: the row that an attempt to acquire reads, and the outcomes of its requests.
pub record TurnEnv : Type 0 where
  pub polled_at : ℕ
  pub scheduled_at : ℕ
  pub seen : Option JobLockRow
  pub acquire : AcquireEnv
  pub exec : ExecEnv

abbrev pub same_state : JobLockState → JobLockState → Bool
same_state none_held none_held = true
same_state held held = true
same_state lost lost = true
same_state released released = true
same_state _ _ = false

-- The lock after a successful attempt to acquire; `nextState` is then held.
abbrev take_change : Worker → AcquireChange × Table → Worker × Table
take_change w (change, table) = (
  if change.is_ok
      then record w {
        next_state = held;
        lock = record w.lock { last_ping = change.ping; iteration = change.iteration };
      }
      else w,
  table,
)

abbrev take_ping : Worker → JobLock × JobLockState × Table → Worker × Table
take_ping w (jl, next, table) = (record w { next_state = next; lock = jl }, table)

-- The first `switch` of the body, on the state; `released` returns.
unfoldable pub poll : JobLockState → TurnEnv → Worker → Table → Worker × Table
unfolding Duration.lt Duration.since
poll none_held env w table = take_change w (attempt_acquire w.lock env.acquire env.seen table)
poll held env w table =
    if Duration.lt w.lock.ping_interval (Duration.since env.polled_at w.lock.last_ping)
    then take_ping w (ping w.lock env.exec table)
    else (w, table)
poll lost env w table = (w, table)
poll released env w table = (record w { phase = leaving }, table)

abbrev is_empty : List JobLockState → Bool
is_empty [] = true
is_empty (x ∷ xs) = false

-- The change of state and its message; a full channel makes the loop return.
unfoldable pub notify : Worker → Worker
notify w =
    if same_state w.next_state w.lock.state
    then w
    else let w' = record w { lock = record w.lock { state = w.next_state } } in
      if is_empty w.out
      then record w' { out = w.next_state ∷ [] }
      else record w' { phase = leaving }

-- The second `switch`: how long the select waits, or a return.
abbrev schedule : JobLockState → TurnEnv → Worker → Worker
schedule lost env w = record w { phase = leaving }
schedule held env w = record w {
  phase = waiting (Duration.since (w.lock.last_ping + w.lock.ping_interval) env.scheduled_at);
}
schedule _ env w = record w { phase = waiting w.lock.check_interval }

abbrev is_leaving : Phase → Bool
is_leaving leaving = true
is_leaving _ = false

abbrev unless_leaving : (Worker → Worker) → Worker → Worker
unless_leaving f w = if is_leaving w.phase then w else f w

abbrev settle : TurnEnv → Worker → Worker
settle env w = schedule w.lock.state env w

unfoldable pub turn : TurnEnv → Worker → Table → Worker × Table
unfolding poll notify
turn env w table =
    let polled = poll w.lock.state env w table in
    (unless_leaving (settle env) (unless_leaving notify polled.0), polled.1)

-- The deferred calls: JobLock.release and close(jl.out).
unfoldable pub finish : Fate → Worker → Table → Worker × Table
unfolding release
finish fate w table = (
  record w {
    phase = stopped;
    out_closed = true;
    cleaned_up = true;
    out = if is_held w.lock.state then (if is_empty w.out then released ∷ [] else w.out) else w.out;
  },
  release w.lock fate table,
)

-- A worker that has not yet run its loop.
abbrev pub idle : JobLock → Worker
idle jl = record {
  lock = jl;
  next_state = none_held;
  phase = polling;
  out = [];
  out_closed = false;
  cleaned_up = false;
}
