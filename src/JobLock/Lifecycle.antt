-- ===== src/JobLock/Lifecycle.antt =====
-- The life of a lock: free, then held, then lost, and never back.
use mathlib.Core.List.{tail}
use native.Mathlib.Nat.{le_trans}
use elephantine.Prelude.{ℕ, ◌≤◌, ◌≡◌, arith, List, [], ◌∷◌, true}
use elephantine.Prelude.Lists.{length}
use elephantine.JobLock.Table.{Table}
use elephantine.JobLock.Lock.{JobLock, JobLockState, none_held, held, lost, released, ping, Fate}
use elephantine.JobLock.Loop.{
  Worker, Phase, polling, waiting, leaving, TurnEnv, turn, finish, idle, is_looping,
}
use elephantine.JobLock.Fleet.{
  Fleet, Step, take_turn, wake, abort, leave, receive, pass, Reach, here, next, update, update-All,
}
use elephantine.JobLock.Exclusion.{start}

abbrev pub rank : JobLockState → ℕ
rank none_held = 0
rank held = 1
rank lost = 2
rank released = 3

-- At the top of the loop and while it waits, `nextState` is the state; the state is none, held or
-- lost; and the channel holds one message at most.
pub record IsOrderly (w : Worker) : Type 0 where
  pub synced : is_looping w.phase ≡ true → w.next_state ≡ w.lock.state
  pub known : rank w.lock.state ≤ 2
  pub one_message : length w.out ≤ 1

-- What a step does to one process.
pub record Ages (v w : Worker) : Type 0 where
  pub orderly : IsOrderly w
  pub older : rank v.lock.state ≤ rank w.lock.state

-- The only moves of a lock's state.
abbrev pub NextState : JobLockState → JobLockState → Type 0
NextState none_held none_held = Unit {0}
NextState none_held held = Unit
NextState held held = Unit
NextState held lost = Unit
NextState lost lost = Unit
NextState released released = Unit
NextState _ _ = ⊥

NextState-refl : (a : JobLockState) → NextState a a
NextState-refl none_held = tt
NextState-refl held = tt
NextState-refl lost = tt
NextState-refl released = tt

turn-NextState :
    (env : TurnEnv) (w : Worker) (table : Table)
    → w.phase ≡ polling
    → IsOrderly w
    → NextState w.lock.state (turn env w table).0.lock.state
unfolding turn ping
turn-NextState env w table at ord = ground arith

finish-NextState :
    (fate : Fate) (w : Worker) (table : Table)
    → NextState w.lock.state (finish fate w table).0.lock.state
unfolding finish
finish-NextState fate w table = NextState-refl w.lock.state

turn-Ages :
    (env : TurnEnv) (w : Worker) (table : Table)
    → w.phase ≡ polling
    → IsOrderly w
    → Ages w (turn env w table).0
unfolding turn ping
turn-Ages env w table at ord = ground arith

finish-Ages :
    (fate : Fate) (w : Worker) (table : Table) → IsOrderly w → Ages w (finish fate w table).0
unfolding finish
finish-Ages fate w table ord = ground arith

phase-Ages :
    (w : Worker) (phase : Phase) (timer : ℕ)
    → w.phase ≡ waiting timer
    → IsOrderly w
    → Ages w (record w { phase = phase })
phase-Ages w phase timer at ord = ground arith

length-tail_le : (l : List JobLockState) → length (tail l) ≤ length l
length-tail_le [] = omega arith
length-tail_le (x ∷ l) = omega arith

receive-Ages : (w : Worker) → IsOrderly w → Ages w (record w { out = tail w.out })
receive-Ages w ord = ground (arith, length-tail_le w.out)

stay-Ages : (w : Worker) → IsOrderly w → Ages w w
stay-Ages w ord = ground arith

pub start-IsOrderly : (jl : JobLock) → jl.state ≡ none_held → IsOrderly (idle jl)
start-IsOrderly jl fresh = ground arith

one :
    (s : Fleet) (i : ℕ) (w : Worker)
    → ((j : ℕ) → IsOrderly (s.workers j))
    → Ages (s.workers i) w
    → (j : ℕ) → Ages (s.workers j) (update s.workers i w j)
one s i w ord ages =
    update-All (λ j u. Ages (s.workers j) u) s.workers i w ages
      (λ j ne. stay-Ages (s.workers j) (ord j))

one-NextState :
    (s : Fleet) (i : ℕ) (w : Worker)
    → NextState (s.workers i).lock.state w.lock.state
    → (j : ℕ) → NextState (s.workers j).lock.state (update s.workers i w j).lock.state
one-NextState s i w moves =
    update-All (λ j u. NextState (s.workers j).lock.state u.lock.state) s.workers i w moves
      (λ j ne. NextState-refl (s.workers j).lock.state)

module _ {latency : ℕ} where
  Step-Ages :
      {s t : Fleet}
      → Step latency s t
      → ((i : ℕ) → IsOrderly (s.workers i))
      → (i : ℕ) → Ages (s.workers i) (t.workers i)
  Step-Ages {s} (take_turn i env later at le timely locked) ord =
      one s i _ ord (turn-Ages env (s.workers i) s.table at (ord i))
  Step-Ages {s} (wake i timer at) ord =
      one s i _ ord (phase-Ages (s.workers i) polling timer at (ord i))
  Step-Ages {s} (abort i timer at) ord =
      one s i _ ord (phase-Ages (s.workers i) leaving timer at (ord i))
  Step-Ages {s} (leave i fate at) ord =
      one s i _ ord (finish-Ages fate (s.workers i) s.table (ord i))
  Step-Ages {s} (receive i) ord = one s i _ ord (receive-Ages (s.workers i) (ord i))
  Step-Ages {s} (pass later le) ord = λ i. stay-Ages (s.workers i) (ord i)

  pub Reach-Ages :
      {s t : Fleet}
      → ((i : ℕ) → IsOrderly (s.workers i))
      → Reach latency s t
      → (i : ℕ) → Ages (s.workers i) (t.workers i)
  Reach-Ages {s} ord here i = stay-Ages (s.workers i) (ord i)
  Reach-Ages ord (next r step) i =
      let before = Reach-Ages ord r in
      let after = Step-Ages step (λ j. (before j).orderly) i in
      record { orderly = after.orderly; older = le_trans (before i).older after.older }

  Step-NextState :
      {s t : Fleet}
      → Step latency s t
      → ((i : ℕ) → IsOrderly (s.workers i))
      → (i : ℕ) → NextState (s.workers i).lock.state (t.workers i).lock.state
  Step-NextState {s} (take_turn i env later at le timely locked) ord =
      one-NextState s i _ (turn-NextState env (s.workers i) s.table at (ord i))
  Step-NextState {s} (wake i timer at) ord =
      one-NextState s i _ (NextState-refl (s.workers i).lock.state)
  Step-NextState {s} (abort i timer at) ord =
      one-NextState s i _ (NextState-refl (s.workers i).lock.state)
  Step-NextState {s} (leave i fate at) ord =
      one-NextState s i _ (finish-NextState fate (s.workers i) s.table)
  Step-NextState {s} (receive i) ord = one-NextState s i _ (NextState-refl (s.workers i).lock.state)
  Step-NextState {s} (pass later le) ord = λ i. NextState-refl (s.workers i).lock.state

  -- In a fleet that starts with locks that are free, whatever fails and in whatever order the
  -- processes run: with each step a lock's state stays, or moves from none to held or from held to
  -- lost, and over the steps after it never goes back, so one that is lost is never held again; it is
  -- never set to released; and the channel `out` never holds more than one message.
  pub state_moves_on :
      (locks : ℕ → JobLock) (table : Table) (now : ℕ) (s t u : Fleet)
      → ((i : ℕ) → (locks i).state ≡ none_held)
      → Reach latency (start locks table now) s
      → Step latency s t
      → Reach latency t u
      → (i : ℕ)
      → NextState (s.workers i).lock.state (t.workers i).lock.state
        × (rank (t.workers i).lock.state ≤ rank (u.workers i).lock.state)
        × (rank (u.workers i).lock.state ≤ 2)
        × (length (u.workers i).out ≤ 1)
  state_moves_on locks table now s t u fresh r step r' i =
      let first = Reach-Ages (λ j. start-IsOrderly (locks j) (fresh j)) r in
      let then = Step-Ages step (λ j. (first j).orderly) in
      let second = Reach-Ages (λ j. (then j).orderly) r' i in
      (
        Step-NextState step (λ j. (first j).orderly) i,
        second.older,
        second.orderly.known,
        second.orderly.one_message,
      )
