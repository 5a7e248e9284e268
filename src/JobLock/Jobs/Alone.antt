-- ===== src/JobLock/Jobs/Alone.antt =====
-- Which functions run at once.
use mathlib.Core.Path.{subst, fun_ext}
use elephantine.Prelude.{
  ℕ, ◌+◌, ◌≤◌, ◌<◌, ◌≡◌, ◌≢◌, ◌⊎◌, inl, inr, refl, sym, ap, ◌∙◌, String, true, false, List, ◌==◌,
  ==_iff, Bool-cases, arith,
}
use mathlib.Core.List.{tail}
use elephantine.JobLock.Table.{Table}
use elephantine.JobLock.Lock.{JobLock, JobLockState, none_held, held, lost, released}
use elephantine.JobLock.Loop.{Worker, stopped}
use elephantine.JobLock.Queries.{IsKeyed}
use elephantine.JobLock.Fleet
use elephantine.JobLock.Fleet.{Fleet, update}
use elephantine.JobLock.Exclusion.{IsMember, holds, exclusive}
use elephantine.JobLock.Runner
use elephantine.JobLock.Runner.{
  Runner, running, stop, watch, taken, run_with_context, take_turn, wake, see_abort, leave,
  watch_abort, watch_out, watch_closed, watch_done, cancel, watcher_stop, call, give_up, return,
  cancel_parent, outside_stop,
}
use elephantine.JobLock.Runner.Outcome.{running-state}
use elephantine.JobLock.Jobs.{
  Jobs, replace, fleet_of, is_local, Step, turn_of, leave_of, local, pass, Reach, here, next, start,
}

-- The loops after a change of one runner.
replace-workers :
    (runners : ℕ → Runner) (i : ℕ) (r : Runner)
    → (λ j. (replace runners i r j).worker) ≡ update (λ j. (runners j).worker) i r.worker
replace-workers runners i r =
    fun_ext
      (λ j. elim (Bool-cases (i == j)) [ inl same ↦ rw same refl | inr other ↦ rw other refl ])

update_same : (ws : ℕ → Worker) (i : ℕ) → update ws i (ws i) ≡ ws
update_same ws i = fun_ext (λ j. elim (Bool-cases (i == j)) [
  | inl same ↦ rw same (ap ws ((==_iff i j).0 same))
  | inr other ↦ rw other refl
])

watch-worker : (state : JobLockState) (r : Runner) → (watch state r).worker ≡ r.worker
unfolding watch
watch-worker none_held r = refl
watch-worker held r = ground arith
watch-worker lost r = refl
watch-worker released r = refl

stop-worker : (r : Runner) → (stop r).worker ≡ r.worker
unfolding stop
stop-worker r = ground arith

module _ (latency : ℕ) where
  -- A local step changes nothing for the loops, or is one of their own steps.
  abbrev Moves : Fleet → ℕ → Worker → Type 0
  Moves f i w = Fleet.Reach latency f (record f { workers = update f.workers i w })

  stays : (f : Fleet) (i : ℕ) (w : Worker) → w ≡ f.workers i → Moves f i w
  stays f i w same =
      subst (λ (ws : ℕ → Worker). Fleet.Reach latency f (record f { workers = ws }))
        (sym (ap (λ v. update f.workers i v) same ∙ update_same f.workers i)) Fleet.Reach.here

  local-Moves :
      (s : Jobs) (i : ℕ) {after : Runner} (step : Runner.Step (s.runners i) after)
      → is_local step ≡ true
      → Moves (fleet_of s) i after.worker
  local-Moves s i (take_turn env table at) h = cc
  local-Moves s i (wake timer at) h = Fleet.Reach.next Fleet.Reach.here (Fleet.wake i timer at)
  local-Moves s i (see_abort timer at closed) h =
      Fleet.Reach.next Fleet.Reach.here (Fleet.abort i timer at)
  local-Moves s i (leave fate table at) h = cc
  local-Moves s i (watch_abort on closed) h = stays (fleet_of s) i _ refl
  local-Moves s i (watch_out state rest on got) h =
      let w = (s.runners i).worker in
      subst (Moves (fleet_of s) i)
        (ap (λ (o : List JobLockState). record w { out = o }) (ap tail got)
          ∙ sym (watch-worker state (taken rest (s.runners i))))
        (Fleet.Reach.next Fleet.Reach.here (Fleet.receive i))
  local-Moves s i (watch_closed on got closed) h =
      stays (fleet_of s) i _ (watch-worker none_held (s.runners i))
  local-Moves s i (watch_done on done) h = stays (fleet_of s) i _ refl
  local-Moves s i (cancel on) h = stays (fleet_of s) i _ refl
  local-Moves s i (watcher_stop on) h = stays (fleet_of s) i _ (stop-worker _)
  local-Moves s i (call at acquired) h = stays (fleet_of s) i _ refl
  local-Moves s i (give_up at done) h = stays (fleet_of s) i _ refl
  local-Moves s i (return at) h = stays (fleet_of s) i _ refl
  local-Moves s i cancel_parent h = stays (fleet_of s) i _ refl
  local-Moves s i outside_stop h = stays (fleet_of s) i _ (stop-worker _)

  -- The loops of the processes are a fleet.
  replaced :
      (f : Fleet) (s : Jobs) (i : ℕ) (r : Runner) (table : Table) (now : ℕ)
      → Fleet.Reach latency f
          (record { workers = update (fleet_of s).workers i r.worker; table = table; now = now })
      → Fleet.Reach latency f
          (fleet_of (record { runners = replace s.runners i r; table = table; now = now }))
  replaced f s i r table now reach =
      subst
        (λ (ws : ℕ → Worker).
          Fleet.Reach latency f (record { workers = ws; table = table; now = now }))
        (sym (replace-workers s.runners i r)) reach

  onwards :
      {f g h : Fleet} → Fleet.Reach latency f g → Fleet.Reach latency g h → Fleet.Reach latency f h
  onwards r Fleet.Reach.here = r
  onwards r (Fleet.Reach.next r' step) = Fleet.Reach.next (onwards r r') step

  Step-fleet : {s t : Jobs} → Step latency s t → Fleet.Reach latency (fleet_of s) (fleet_of t)
  Step-fleet {s} (turn_of i env later calm at le timely locked) =
      replaced (fleet_of s) s i _ _ later
        (Fleet.Reach.next Fleet.Reach.here (Fleet.take_turn i env later at le timely locked))
  Step-fleet {s} (leave_of i fate calm at) =
      replaced (fleet_of s) s i _ _ s.now
        (Fleet.Reach.next Fleet.Reach.here (Fleet.leave i fate at))
  Step-fleet {s} (local i after calm step h) =
      replaced (fleet_of s) s i after s.table s.now (local-Moves s i step h)
  Step-fleet (pass later le) = Fleet.Reach.next Fleet.Reach.here (Fleet.pass later le)

  Reach-fleet : {s t : Jobs} → Reach latency s t → Fleet.Reach latency (fleet_of s) (fleet_of t)
  Reach-fleet here = Fleet.Reach.here
  Reach-fleet (next r step) = onwards (Reach-fleet r) (Step-fleet step)

  -- Each process is a run of its own.
  abbrev AreRuns : (ℕ → Runner) → (ℕ → Runner) → Type 0
  AreRuns before after = (i : ℕ) → Runner.Reach (before i) (after i)

  replaced-AreRuns :
      (before runners : ℕ → Runner) (i : ℕ) (r : Runner)
      → AreRuns before runners
      → (runners i).panicked ≡ false
      → Runner.Step (runners i) r
      → AreRuns before (replace runners i r)
  replaced-AreRuns before runners i r runs calm step j = elim (Bool-cases (i == j)) [
    | inl same ↦ rw same (
        subst (λ k. Runner.Reach (before k) r) ((==_iff i j).0 same)
          (Runner.Reach.next (runs i) calm step))
    | inr other ↦ rw other (runs j)
  ]

  Step-AreRuns :
      {s t : Jobs} (before : ℕ → Runner)
      → Step latency s t
      → AreRuns before s.runners
      → AreRuns before t.runners
  Step-AreRuns {s} before (turn_of i env later calm at le timely locked) runs =
      replaced-AreRuns before s.runners i _ runs calm (take_turn env s.table at)
  Step-AreRuns {s} before (leave_of i fate calm at) runs =
      replaced-AreRuns before s.runners i _ runs calm (leave fate s.table at)
  Step-AreRuns {s} before (local i after calm step h) runs =
      replaced-AreRuns before s.runners i after runs calm step
  Step-AreRuns before (pass later le) runs = runs

  Reach-AreRuns : {s t : Jobs} → Reach latency s t → AreRuns s.runners t.runners
  Reach-AreRuns here = λ i. Runner.Reach.here
  Reach-AreRuns {s} (next r step) = Step-AreRuns s.runners step (Reach-AreRuns r)

-- The loop of a process has lost the lock, or has ended and released it.
abbrev pub HasEnded : Runner → Type 0
HasEnded r = (r.worker.lock.state ≡ lost) ⊎ (r.worker.phase ≡ stopped)

holds-HasEnded :
    (r : Runner)
    → (r.worker.lock.state ≡ held) ⊎ (r.worker.lock.state ≡ lost)
    → (holds r.worker ≡ true) ⊎ HasEnded r
holds-HasEnded r state = ground arith

module _ (name : String) (identity : ℕ → String) (latency stale : ℕ) (pos : 0 < stale)
    (distinct : (i j : ℕ) → identity i ≡ identity j → i ≡ j) where
  -- Processes that call RunWithContext with free locks of one name, with identities of their own, and
  -- that wait at least `stale` before they take a row over: whatever fails, whatever is stopped or
  -- cancelled and in whatever order they run, the functions of two of them run at once only if the
  -- loop of one of the two has lost the lock or has ended, or one of the two got its last reply at
  -- least `stale` ago, less the time that a reply takes.
  pub functions_exclusive :
      (locks : ℕ → JobLock) (table : Table) (now : ℕ) (t : Jobs)
      → ((i : ℕ) → IsMember name identity stale i (locks i))
      → ((i : ℕ) → (locks i).state ≡ none_held)
      → IsKeyed table
      → Reach latency (start locks table now) t
      → (i j : ℕ) → i ≢ j
      → (t.runners i).caller ≡ running
      → (t.runners j).caller ≡ running
      → (HasEnded (t.runners i) ⊎ HasEnded (t.runners j))
        ⊎ (((t.runners i).worker.lock.last_ping + stale ≤ t.now + latency)
            ⊎ ((t.runners j).worker.lock.last_ping + stale ≤ t.now + latency))
  unfolding run_with_context
  functions_exclusive locks table now t members fresh keyed r i j ne on_i on_j =
      let runs = Reach-AreRuns latency r in
      let state_i =
        holds-HasEnded (t.runners i)
          (running-state (locks i) (t.runners i) (fresh i) (runs i) on_i) in
      let state_j =
        holds-HasEnded (t.runners j)
          (running-state (locks j) (t.runners j) (fresh j) (runs j) on_j) in
      elim state_i [
        | inr ended ↦ inl (inl ended)
        | inl holds_i ↦ elim state_j [
          | inr ended ↦ inl (inr ended)
          | inl holds_j ↦ inr (
              exclusive name identity latency stale pos distinct locks table now (fleet_of t)
                members fresh keyed (Reach-fleet latency r) i j ne holds_i holds_j)
        ]
      ]
