-- ===== src/Shutdown/Orderly.antt =====
-- When a graceful shutdown stops and quits.
use elephantine.Prelude.{
  ℕ, ◌+◌, ◌≤◌, ◌≡◌, ◌≢◌, ◌⊎◌, refl, Bool, true, Option, none, some, arith, is_some, Option-cases,
  inl, inr,
}
use elephantine.Shutdown.{
  GracefulShutdown, Waiter, interrupted, waiting, sleeping, returned, safe_close,
  new_graceful_shutdown, Step, signalled, stopped, handle_terminate, handle_interrupt,
  handled_interrupt, unsubscribe, give_way, sleep, expire, pass, is_waiter, Reach, Waits,
}

-- `quit` at the time `q`, with `stop` closed at some time or not.
abbrev Earned : ℕ → Option ℕ → Option ℕ → Type 0
Earned timeout stop none = Unit {0}
Earned timeout none (some q) = ⊥
Earned timeout (some t) (some q) = t + timeout ≤ q

abbrev IsAsleep : Option ℕ → Waiter → Type 0
IsAsleep none (sleeping since) = ⊥
IsAsleep (some t) (sleeping since) = t ≤ since
IsAsleep _ _ = Unit {0}

abbrev IsPast : ℕ → Option ℕ → Type 0
IsPast now none = Unit {0}
IsPast now (some t) = t ≤ now

abbrev IsSincePast : ℕ → Waiter → Type 0
IsSincePast now (sleeping since) = since ≤ now
IsSincePast now _ = Unit {0}

record Inv (timeout : ℕ) (s : GracefulShutdown) : Type 0 where
  asleep : IsAsleep s.stop s.waiter
  earned : s.interrupts ≡ 0 → Earned timeout s.stop s.quit
  followed : s.listener ≢ interrupted → is_some s.quit ≡ true → is_some s.stop ≡ true
  past : IsPast s.now s.stop
  since_past : IsSincePast s.now s.waiter
  finished : s.waiter ≡ returned → is_some s.quit ≡ true

Step-Inv : {timeout : ℕ} {s t : GracefulShutdown} → Step timeout s t → Inv timeout s → Inv timeout t
unfolding safe_close
Step-Inv (signalled sig) inv = ground arith
Step-Inv (stopped ch closed) inv = ground arith
Step-Inv (handle_terminate ch on got closed) inv = ground arith
Step-Inv (handle_interrupt ch on got closed) inv = ground arith
Step-Inv (handled_interrupt ch on closed) inv = ground arith
Step-Inv (unsubscribe t on quit) inv = ground arith
Step-Inv (give_way t q on stop quit) inv = ground arith
Step-Inv (sleep t on stop still) inv = ground arith
Step-Inv (expire since ch on over closed) inv = ground arith
Step-Inv (pass later le) inv = ground arith

new-Inv : (timeout now : ℕ) (listen : Bool) → Inv timeout (new_graceful_shutdown now listen)
unfolding new_graceful_shutdown
new-Inv timeout now listen = ground arith

Reach-Inv :
    {timeout : ℕ} {s t : GracefulShutdown} → Inv timeout s → Reach timeout s t → Inv timeout t
Reach-Inv inv Reach.here = inv
Reach-Inv inv (Reach.next r step) = Step-Inv step (Reach-Inv inv r)

-- Until a SIGINT has been handled, quit comes only after stop, and no sooner than `timeout` after it.
pub quit_after_timeout :
    (timeout now : ℕ) (listen : Bool) (s : GracefulShutdown) (q : ℕ)
    → Reach timeout (new_graceful_shutdown now listen) s
    → s.interrupts ≡ 0
    → s.quit ≡ some q
    → (t : ℕ) × (s.stop ≡ some t) × (t + timeout ≤ q)
quit_after_timeout timeout now listen s q r calm quit =
    let inv = Reach-Inv (new-Inv timeout now listen) r in
    elim (Option-cases s.stop) [
      | inl still ↦ absurd (ground arith)
      | inr (t, stop) ↦ (t, stop, ground arith)
    ]

-- Closing a channel safely never panics, whether the channel is closed already or not; and a shutdown
-- that quits has also stopped, but between the two closes of a SIGINT.
pub quit_stops :
    (timeout now : ℕ) (listen : Bool) (s : GracefulShutdown) (ch : Option ℕ)
    → Reach timeout (new_graceful_shutdown now listen) s
    → (safe_close s.now ch ≢ none)
      × (s.listener ≢ interrupted → is_some s.quit ≡ true → is_some s.stop ≡ true)
unfolding safe_close
quit_stops timeout now listen s ch r =
    let inv = Reach-Inv (new-Inv timeout now listen) r in (ground arith, inv.followed)

Waiter-cases :
    (w : Waiter) → (w ≡ waiting) ⊎ (((since : ℕ) × (w ≡ sleeping since)) ⊎ (w ≡ returned))
Waiter-cases waiting = inl refl
Waiter-cases (sleeping since) = inr (inl (since, refl))
Waiter-cases returned = inr (inr refl)

then :
    {timeout : ℕ} {s t u : GracefulShutdown} (step : Step timeout s t)
    → is_waiter step ≡ true
    → Waits timeout t u
    → Waits timeout s u
then step own Waits.here = Waits.next Waits.here step own
then step own (Waits.next r later own') = Waits.next (then step own r) later own'

-- The waiter and the time lead to a closed `quit`, `timeout` later at most.
abbrev pub Quits : ℕ → GracefulShutdown → Type 0
Quits timeout s =
    (u : GracefulShutdown) × Waits timeout s u × (is_some u.quit ≡ true) × (u.now ≤ s.now + timeout)

wake_up :
    (timeout since : ℕ) (s : GracefulShutdown)
    → s.waiter ≡ sleeping since
    → since ≤ s.now
    → s.quit ≡ none
    → Quits timeout s
unfolding safe_close
wake_up timeout since s asleep past still =
    let later : ℕ = s.now + timeout in
    (
      record s { now = later; quit = some later; waiter = returned },
      Waits.next (Waits.next Waits.here (pass later (omega arith)) refl)
          (expire since (some later) asleep (omega arith) (rw still)) refl,
      refl,
      omega arith,
    )

by_waiter :
    (timeout t : ℕ) (s : GracefulShutdown)
    → Inv timeout s
    → s.stop ≡ some t
    → s.quit ≡ none
    → (s.waiter ≡ waiting) ⊎ (((since : ℕ) × (s.waiter ≡ sleeping since)) ⊎ (s.waiter ≡ returned))
    → Quits timeout s
by_waiter timeout t s inv stop still (inl idle) =
    let (u, path, closed, soon) =
      wake_up timeout s.now (record s { waiter = sleeping s.now }) refl (omega arith) still in
    (u, then (sleep t idle stop still) refl path, closed, soon)
by_waiter timeout t s inv stop still (inr (inl (since, asleep))) =
    wake_up timeout since s asleep (ground arith) still
by_waiter timeout t s inv stop still (inr (inr back)) = absurd (ground arith)

-- Once stop is closed, the shutdown goes on to quit by the steps of its own waiter and the passing of
-- time alone, for no longer than `timeout`: no order of signals and calls leaves it without a way there.
pub stop_leads_to_quit :
    (timeout now t : ℕ) (listen : Bool) (s : GracefulShutdown)
    → Reach timeout (new_graceful_shutdown now listen) s
    → s.stop ≡ some t
    → Quits timeout s
stop_leads_to_quit timeout now t listen s r stop =
    let inv = Reach-Inv (new-Inv timeout now listen) r in
    elim (Option-cases s.quit) [
      | inr (q, closed) ↦ (s, Waits.here, rw closed, omega arith)
      | inl still ↦ by_waiter timeout t s inv stop still (Waiter-cases s.waiter)
    ]
