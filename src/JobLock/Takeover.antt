-- ===== src/JobLock/Takeover.antt =====
-- That a lock can always be had again.
mod Turns
use native.Mathlib.Nat.{le_refl}
use elephantine.Prelude.{
  ℕ, Bool, ◌==◌, ◌+◌, ◌≤◌, ◌<◌, ◌^◌, ◌≡◌, ◌⊎◌, inl, inr, refl, true, false, List, [], ◌∷◌, Option,
  none, some, arith, Option-cases,
}
use elephantine.Prelude.Lists.{length}
use mathlib.Core.List.{tail}
use elephantine.Duration.{lt, since}
use elephantine.JobLock.Table.{JobLockRow, Table, get_job_lock}
use elephantine.JobLock.Lock.{JobLock, JobLockState, none_held, done, attempt_acquire}
use elephantine.JobLock.Loop.{
  Worker, Phase, polling, waiting, leaving, stopped, TurnEnv, turn, is_looping,
}
use elephantine.JobLock.Outcomes.{IsLocked, Owns, attempt_acquire-Owns}
use elephantine.JobLock.Attempts.{NoFailure, attempt_acquire_iff}
use elephantine.JobLock.Fleet.{
  Fleet, Step, IsTimely, take_turn, wake, abort, leave, receive, pass, Reach, here, next, update,
  update-All,
}
use elephantine.JobLock.Exclusion.{
  start, holds, IsSameLock, same_lock, turn-IsSameLock, finish-IsSameLock,
}
use elephantine.JobLock.Lifecycle.{start-IsOrderly, Reach-Ages}
use elephantine.JobLock.Takeover.Turns.{
  age, aged-IsFree, one, turn_acquires, Owns-same, tail-nil, looping-cases, row-IsLocked,
  update_self,
}

module _ {latency : ℕ} where
  -- What a step leaves of the locks.
  Step-IsSameLock :
      {s t : Fleet} → Step latency s t → (i : ℕ) → IsSameLock (t.workers i).lock (s.workers i).lock
  Step-IsSameLock {s} (take_turn i env later at le timely locked) =
      one s i _ (turn-IsSameLock env (s.workers i) s.table)
  Step-IsSameLock {s} (wake i timer at) = one s i _ same_lock
  Step-IsSameLock {s} (abort i timer at) = one s i _ same_lock
  Step-IsSameLock {s} (leave i fate at) = one s i _ (finish-IsSameLock fate (s.workers i) s.table)
  Step-IsSameLock {s} (receive i) = one s i _ same_lock
  Step-IsSameLock (pass later le) = λ i. same_lock

  Reach-small :
      {s t : Fleet} (i : ℕ)
      → Reach latency s t
      → (s.workers i).lock.stale_after < 2 ^ 63
      → (t.workers i).lock.stale_after < 2 ^ 63
  Reach-small i here small = small
  Reach-small i (next r step) small =
      let same = Step-IsSameLock step i in let before = Reach-small i r small in ground arith

-- The process itself wakes from its wait or receives a message of its lock.
abbrev pub is_readying : {latency : ℕ} {s t : Fleet} → ℕ → Step latency s t → Bool
is_readying i (wake j timer at) = i == j
is_readying i (receive j) = i == j
is_readying i (take_turn j env later at le timely locked) = false
is_readying i (abort j timer at) = false
is_readying i (leave j fate at) = false
is_readying i (pass later le) = false

module _ (latency : ℕ) where
  -- Some such steps, and no others.
  pub data Readies (i : ℕ) (s : Fleet) : Fleet → Type 0 where
    ready : Readies i s s
    act :
        {t u : Fleet}
        → Readies i s t
        → (step : Step latency t u) → is_readying i step ≡ true
        → Readies i s u

  -- What is needed of a turn of a process's loop: no request fails, the attempt reads the row of the
  -- lock's name as it stands, and when it is checked the row has been left alone for long enough.
  pub record IsGoodTurn (now : ℕ) (table : Table) (jl : JobLock) (env : TurnEnv) (later : ℕ)
      : Type 0 where
    pub after : now ≤ later
    pub timely : IsTimely latency jl env later
    pub no_failure : NoFailure env.acquire
    pub as_it_stands : env.seen ≡ get_job_lock table jl.name
    pub left_alone : age jl.stale_after (get_job_lock table jl.name) ≤ env.acquire.checked_at

  -- What the turn makes of a process, and of the fleet.
  abbrev pub turned : Fleet → ℕ → TurnEnv → ℕ → Fleet
  turned s i env later = record {
    workers = update s.workers i (turn env (s.workers i) s.table).0;
    table = (turn env (s.workers i) s.table).1;
    now = later;
  }

  -- The turn is one that can be taken, and after it the process holds its lock, with the row as its
  -- own.
  abbrev pub Takes : Fleet → ℕ → TurnEnv → ℕ → Type 0
  Takes s i env later =
      Step latency s (turned s i env later)
      × (holds ((turned s i env later).workers i) ≡ true)
      × Owns ((turned s i env later).workers i).lock env.acquire.tx_now (turned s i env later).table

  -- The process gets ready, and takes the turn.
  pub record Holds (s : Fleet) (i : ℕ) (env : TurnEnv) (later : ℕ) : Type 0 where
    pub readied : Fleet
    pub by_itself : Readies i s readied
    pub same_table : readied.table ≡ s.table
    pub same_time : readied.now ≡ s.now
    pub takes : Takes readied i env later

  -- A process at the top of its loop, with nothing to be received.
  from_polling :
      (s : Fleet) (i : ℕ) (env : TurnEnv) (later : ℕ)
      → (s.workers i).phase ≡ polling
      → (s.workers i).lock.state ≡ none_held
      → (s.workers i).out ≡ []
      → (s.workers i).lock.stale_after < 2 ^ 63
      → IsGoodTurn s.now s.table (s.workers i).lock env later
      → Takes s i env later
  from_polling s i env later at free empty small good =
      let w = s.workers i in
      let locked : IsLocked env.seen s.table w.lock.name =
        rw good.as_it_stands (row-IsLocked s.table w.lock) in
      let acquired : (attempt_acquire w.lock env.acquire env.seen s.table).0.is_ok ≡ true =
        rw good.as_it_stands (
          (attempt_acquire_iff w.lock env.acquire s.table good.no_failure).0.1
            (aged-IsFree w.lock env.acquire.checked_at _ small good.left_alone)) in
      let (on, table) = turn_acquires env w s.table free at empty acquired in
      let (own, _) = attempt_acquire-Owns w.lock env.acquire env.seen s.table locked acquired in
      let self = update_self s.workers i (turn env w s.table).0 in
      (
        take_turn i env later at good.after good.timely locked,
        rw self on,
        rw (self, table) (Owns-same env.acquire.tx_now _ (turn-IsSameLock env w s.table) own),
      )

  -- The message that is there is received first.
  from_top :
      (s : Fleet) (i : ℕ) (env : TurnEnv) (later : ℕ)
      → (s.workers i).phase ≡ polling
      → (s.workers i).lock.state ≡ none_held
      → length (s.workers i).out ≤ 1
      → (s.workers i).lock.stale_after < 2 ^ 63
      → IsGoodTurn s.now s.table (s.workers i).lock env later
      → Holds s i env later
  from_top s i env later at free one_message small good =
      let w : Worker = record (s.workers i) { out = tail (s.workers i).out } in
      let t : Fleet = record s { workers = update s.workers i w } in
      let self = update_self s.workers i w in
      record {
        readied = t;
        by_itself = Readies.act Readies.ready (receive i) (ground arith);
        same_table = refl;
        same_time = refl;
        takes =
            from_polling t i env later (rw self at) (rw self free)
              (rw self (tail-nil (s.workers i).out one_message)) (rw self small) (rw self good);
      }

  onwards :
      (i : ℕ) {s t u : Fleet}
      → (step : Step latency s t) → is_readying i step ≡ true
      → Readies i t u
      → Readies i s u
  onwards i step own Readies.ready = Readies.act Readies.ready step own
  onwards i step own (Readies.act r step' own') = Readies.act (onwards i step own r) step' own'

  from_wait :
      (s : Fleet) (i timer : ℕ) (env : TurnEnv) (later : ℕ)
      → (s.workers i).phase ≡ waiting timer
      → (s.workers i).lock.state ≡ none_held
      → length (s.workers i).out ≤ 1
      → (s.workers i).lock.stale_after < 2 ^ 63
      → IsGoodTurn s.now s.table (s.workers i).lock env later
      → Holds s i env later
  from_wait s i timer env later at free one_message small good =
      let w : Worker = record (s.workers i) { phase = polling } in
      let s' : Fleet = record s { workers = update s.workers i w } in
      let self = update_self s.workers i w in
      let after =
        from_top s' i env later (rw self refl) (rw self free) (rw self one_message) (rw self small)
          (rw self good) in
      record {
        readied = after.readied;
        by_itself = onwards i (wake i timer at) (ground arith) after.by_itself;
        same_table = after.same_table;
        same_time = after.same_time;
        takes = after.takes;
      }

  -- In a fleet that starts with locks that are free, whatever has failed and whoever holds the lock: a
  -- process whose loop runs and that has not held its lock yet needs one turn to hold it. Once it has
  -- woken and received what was sent to it, any turn in which no request fails, which reads the row of
  -- the lock's name as it stands, and checks it when it has been left alone for `StaleAfter`, can be
  -- taken, and leaves the lock held, with the row as its own and touched at the time of the request.
  pub can_acquire :
      (locks : ℕ → JobLock) (table : Table) (now : ℕ) (s : Fleet) (i : ℕ) (env : TurnEnv)
      (later : ℕ)
      → ((j : ℕ) → (locks j).state ≡ none_held)
      → (locks i).stale_after < 2 ^ 63
      → Reach latency (start locks table now) s
      → is_looping (s.workers i).phase ≡ true
      → (s.workers i).lock.state ≡ none_held
      → IsGoodTurn s.now s.table (s.workers i).lock env later
      → Holds s i env later
  can_acquire locks table now s i env later fresh small r loops free good =
      let ages = Reach-Ages (λ j. start-IsOrderly (locks j) (fresh j)) r i in
      let later_small = Reach-small i r small in
      elim (looping-cases (s.workers i).phase loops) [
        | inl at ↦ from_top s i env later at free ages.orderly.one_message later_small good
        | inr (timer, at) ↦
            from_wait s i timer env later at free ages.orderly.one_message later_small good
      ]
