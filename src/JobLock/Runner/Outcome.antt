-- ===== src/JobLock/Runner/Outcome.antt =====
-- When RunWithContext runs its function, and when Stop panics.
use mathlib.Core.Path.{subst}
use elephantine.Prelude.{◌≤◌, ◌≡◌, ◌⊎◌, refl, Bool, true, false, List, [], ◌∷◌, arith}
use elephantine.JobLock.Table.{Table}
use elephantine.JobLock.Lock.{JobLock, JobLockState, none_held, held, lost, released, Fate, ping}
use elephantine.JobLock.Loop.{polling, leaving, is_looping, TurnEnv, turn, finish}
use elephantine.JobLock.Lifecycle.{rank}
use elephantine.JobLock.Runner.{
  Runner, watching, stopping, finished, blocked, running, returned, run_with_context, stop, watch,
  Step, take_turn, wake, see_abort, leave, watch_abort, watch_out, watch_closed, watch_done, cancel,
  watcher_stop, call, give_up, return, cancel_parent, outside_stop, Reach, Watches,
}

-- The message of the acquisition waits in `out` until it is received, once.
abbrev IsMessaged : Bool → JobLockState → List JobLockState → Type 0
IsMessaged acquired none_held out = (acquired ≡ false) × (out ≡ [])
IsMessaged acquired released out = ⊥
IsMessaged acquired held [] = acquired ≡ true
IsMessaged acquired held (held ∷ []) = acquired ≡ false
IsMessaged acquired held (lost ∷ []) = acquired ≡ true
IsMessaged acquired held (released ∷ []) = acquired ≡ true
IsMessaged acquired lost [] = acquired ≡ true
IsMessaged acquired lost (held ∷ []) = acquired ≡ false
IsMessaged acquired lost (lost ∷ []) = acquired ≡ true
IsMessaged acquired lost (released ∷ []) = acquired ≡ true
IsMessaged acquired _ _ = ⊥

record Inv (s : Runner) : Type 0 where
  messaged : IsMessaged s.acquired s.worker.lock.state s.worker.out
  synced : is_looping s.worker.phase ≡ true → s.worker.next_state ≡ s.worker.lock.state
  ran : s.caller ≡ running → s.acquired ≡ true
  cancels : (s.watcher ≡ stopping) ⊎ (s.watcher ≡ finished) → s.cancelled ≡ true
  back : s.caller ≡ returned → s.cancelled ≡ true
  aborted : s.stops ≡ 0 → s.abort ≡ true → s.watcher ≡ finished
  calm : s.stops ≡ 0 → s.panicked ≡ false

turn-Inv :
    (s : Runner) (env : TurnEnv) (table : Table)
    → s.worker.phase ≡ polling
    → Inv s
    → Inv (record s { worker = (turn env s.worker table).0 })
unfolding turn ping
turn-Inv s env table at inv = ground arith

leave-Inv :
    (s : Runner) (fate : Fate) (table : Table)
    → s.worker.phase ≡ leaving
    → Inv s
    → Inv (record s { worker = (finish fate s.worker table).0 })
unfolding finish
leave-Inv s fate table at inv = ground arith

Step-Inv : {s t : Runner} → Step s t → Inv s → Inv t
unfolding stop watch
Step-Inv {s} (take_turn env table at) inv = turn-Inv s env table at inv
Step-Inv (wake timer at) inv = ground arith
Step-Inv (see_abort timer at closed) inv = ground arith
Step-Inv {s} (leave fate table at) inv = leave-Inv s fate table at inv
Step-Inv (watch_abort on closed) inv = ground arith
Step-Inv (watch_out state rest on got) inv = ground arith
Step-Inv (watch_closed on got closed) inv = ground arith
Step-Inv (watch_done on done) inv = ground arith
Step-Inv (cancel on) inv = ground arith
Step-Inv (watcher_stop on) inv = ground arith
Step-Inv (call at acquired) inv = ground arith
Step-Inv (give_up at done) inv = ground arith
Step-Inv (return at) inv = ground arith
Step-Inv cancel_parent inv = ground arith
Step-Inv outside_stop inv = ground arith

start-Inv : (jl : JobLock) → jl.state ≡ none_held → Inv (run_with_context jl)
unfolding run_with_context
start-Inv jl fresh = ground arith

Reach-Inv : {s t : Runner} → Inv s → Reach s t → Inv t
Reach-Inv inv Reach.here = inv
Reach-Inv inv (Reach.next r calm step) = Step-Inv step (Reach-Inv inv r)

-- From a lock that is free: the function runs only once the lock has been acquired, the context is
-- cancelled once the watcher has left its loop and made its deferred call, and once the function has
-- returned, and without a call of Stop from outside nothing panics: neither channel is closed twice.
pub run_with_context-safe :
    (jl : JobLock) (s : Runner)
    → jl.state ≡ none_held
    → Reach (run_with_context jl) s
    → (s.caller ≡ running → 1 ≤ rank s.worker.lock.state)
      × ((s.watcher ≡ stopping) ⊎ (s.watcher ≡ finished) → s.cancelled ≡ true)
      × (s.caller ≡ returned → s.cancelled ≡ true)
      × (s.stops ≡ 0 → s.panicked ≡ false)
run_with_context-safe jl s fresh r =
    let inv = Reach-Inv (start-Inv jl fresh) r in
    (λ on. ground arith, inv.cancels, inv.back, inv.calm)

-- The lock of a process whose function runs is held, or it has been lost.
pub running-state :
    (jl : JobLock) (s : Runner)
    → jl.state ≡ none_held
    → Reach (run_with_context jl) s
    → s.caller ≡ running
    → (s.worker.lock.state ≡ held) ⊎ (s.worker.lock.state ≡ lost)
running-state jl s fresh r on = let inv = Reach-Inv (start-Inv jl fresh) r in ground arith

-- With `abort` closed, the watcher has ended only by closing it again.
abbrev IsDoomed : Runner → Type 0
IsDoomed s = (s.abort ≡ true) × (s.watcher ≡ finished → s.panicked ≡ true)

Step-IsDoomed : {s t : Runner} → Step s t → s.panicked ≡ false → IsDoomed s → IsDoomed t
unfolding stop watch
Step-IsDoomed (take_turn env table at) calm d = ground arith
Step-IsDoomed (wake timer at) calm d = ground arith
Step-IsDoomed (see_abort timer at closed) calm d = ground arith
Step-IsDoomed (leave fate table at) calm d = ground arith
Step-IsDoomed (watch_abort on closed) calm d = ground arith
Step-IsDoomed (watch_out state rest on got) calm d = ground arith
Step-IsDoomed (watch_closed on got closed) calm d = ground arith
Step-IsDoomed (watch_done on done) calm d = ground arith
Step-IsDoomed (cancel on) calm d = ground arith
Step-IsDoomed (watcher_stop on) calm d = ground arith
Step-IsDoomed (call at acquired) calm d = ground arith
Step-IsDoomed (give_up at done) calm d = ground arith
Step-IsDoomed (return at) calm d = ground arith
Step-IsDoomed cancel_parent calm d = ground arith
Step-IsDoomed outside_stop calm d = ground arith

Reach-IsDoomed : {s t : Runner} → IsDoomed s → Reach s t → IsDoomed t
Reach-IsDoomed d Reach.here = d
Reach-IsDoomed d (Reach.next r calm step) = Step-IsDoomed step calm (Reach-IsDoomed d r)

-- After a call of Stop from outside while the watcher is in its loop, the watcher's own next steps make
-- the program panic: it closes the channel `abort` again, which was open until that call. Whatever else
-- is done, the watcher never comes to its end without a panic.
pub stop_panics :
    (jl : JobLock) (s : Runner)
    → jl.state ≡ none_held
    → Reach (run_with_context jl) s
    → s.watcher ≡ watching
    → s.panicked ≡ false
    → s.stops ≡ 0
    → let stopped_once = stop (record s { stops = 1 }) in
      (s.abort ≡ false)
      × ((u : Runner) × Watches stopped_once u × (u.panicked ≡ true))
      × ((u : Runner) → Reach stopped_once u → u.watcher ≡ finished → u.panicked ≡ true)
unfolding stop
stop_panics jl s fresh r on calm first =
    let inv = Reach-Inv (start-Inv jl fresh) r in
    let open_abort : s.abort ≡ false = ground arith in
    (
      open_abort,
      rw open_abort (
        record s { abort = true; stops = 1; cancelled = true; watcher = finished; panicked = true },
        Watches.next
            (Watches.next (Watches.next Watches.here calm (watch_abort on refl) refl) calm
              (cancel refl) refl)
            calm (watcher_stop refl) refl,
        refl,
      ),
      λ u later. (Reach-IsDoomed (rw open_abort (refl, λ over. cc)) later).1,
    )

-- Where the lock is lost and the loop has ended before the watcher has received the message of the
-- acquisition, the message that the lock is lost was never sent: the function can still start, with a
-- context that is not cancelled, on a lock that is not held.
pub loss_unnoticed :
    (jl : JobLock) (s : Runner)
    → jl.state ≡ none_held
    → Reach (run_with_context jl) s
    → s.worker.lock.state ≡ lost
    → s.acquired ≡ false
    → s.watcher ≡ watching
    → s.caller ≡ blocked
    → s.cancelled ≡ false
    → s.panicked ≡ false
    → (u : Runner) × Reach s u
      × (u.caller ≡ running)
      × (u.cancelled ≡ false)
      × (u.worker.lock.state ≡ lost)
unfolding watch
loss_unnoticed jl s fresh r gone unread on idle free calm =
    let inv = Reach-Inv (start-Inv jl fresh) r in
    let got : s.worker.out ≡ held ∷ [] = ground arith in
    let received : Runner = record s { worker = record s.worker { out = [] }; acquired = true } in
    (
      record received { caller = running },
      Reach.next
          (Reach.next Reach.here calm (subst (Step s) (rw unread) (watch_out held [] on got))) calm
          (call idle refl),
      refl,
      free,
      gone,
    )
