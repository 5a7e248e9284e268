-- ===== src/Shutdown/Derived.antt =====
-- CancelOnStop and CancelOnQuit (grace.go): a context that is cancelled with its parent, or by a
-- goroutine that waits for one of the channels of a shutdown.
use elephantine.Prelude.{
  ℕ, ◌+◌, ◌≤◌, ◌≡◌, inl, inr, Bool, true, false, ◌||◌, Option, none, some, is_some, arith,
  Option-cases,
}
use elephantine.Shutdown
use elephantine.Shutdown.{
  GracefulShutdown, safe_close, new_graceful_shutdown, signalled, stopped, handle_terminate,
  handle_interrupt, handled_interrupt, unsubscribe, give_way, sleep, expire, pass,
}
use elephantine.Shutdown.Orderly.{quit_after_timeout}

pub data Channel : Type 0 where
  stop quit : Channel

abbrev pub channel : Channel → GracefulShutdown → Option ℕ
channel stop gs = gs.stop
channel quit gs = gs.quit

-- `cancelled` is when the goroutine called cancel.
pub record Derived : Type 0 where
  pub gs : GracefulShutdown
  pub parent_done : Bool
  pub cancelled : Option ℕ

-- `gs` is the shutdown at the time of the call.
unfoldable pub cancel_on : GracefulShutdown → Bool → Derived
cancel_on gs parent_done = record { gs = gs; parent_done = parent_done; cancelled = none }

-- cCtx.Err() is not nil.
abbrev pub is_done : Derived → Bool
is_done d = d.parent_done || is_some d.cancelled

pub data Step (timeout : ℕ) (on : Channel) (d : Derived) : Derived → Type 0 where
  shutdown :
      (after : GracefulShutdown)
      → Shutdown.Step timeout d.gs after
      → Step timeout on d (record d { gs = after })
  cancel_parent : Step timeout on d (record d { parent_done = true })
  -- The channel is closed, and the goroutine calls cancel.
  wake :
      (t : ℕ)
      → channel on d.gs ≡ some t
      → d.cancelled ≡ none
      → Step timeout on d (record d { cancelled = some d.gs.now })

pub data Reach (timeout : ℕ) (on : Channel) (d : Derived) : Derived → Type 0 where
  here : Reach timeout on d d
  next : {b c : Derived} → Reach timeout on d b → Step timeout on b c → Reach timeout on d c

abbrev Before : Option ℕ → ℕ → Type 0
Before none now = Unit {0}
Before (some t) now = t ≤ now

-- Cancelled only after the channel was closed.
abbrev After : Option ℕ → Option ℕ → Type 0
After closed none = Unit {0}
After none (some c) = ⊥
After (some q) (some c) = q ≤ c

record Inv (on : Channel) (d : Derived) : Type 0 where
  past : Before (channel on d.gs) d.gs.now
  after : After (channel on d.gs) d.cancelled

-- A channel that is closed stays so.
Step-After :
    {timeout : ℕ} (on : Channel) {s t : GracefulShutdown} (c : Option ℕ)
    → Shutdown.Step timeout s t
    → Before (channel on s) s.now
    → After (channel on s) c
    → Before (channel on t) t.now × After (channel on t) c
unfolding safe_close
Step-After on c (signalled sig) past after = ground arith
Step-After on c (stopped ch closed) past after = ground arith
Step-After on c (handle_terminate ch on_ got closed) past after = ground arith
Step-After on c (handle_interrupt ch on_ got closed) past after = ground arith
Step-After on c (handled_interrupt ch on_ closed) past after = ground arith
Step-After on c (unsubscribe t on_ q) past after = ground arith
Step-After on c (give_way t q on_ st qt) past after = ground arith
Step-After on c (sleep t on_ st still) past after = ground arith
Step-After on c (expire since ch on_ over closed) past after = ground arith
Step-After on c (pass later le) past after = ground arith

Step-Inv : {timeout : ℕ} {on : Channel} {b c : Derived} → Step timeout on b c → Inv on b → Inv on c
Step-Inv {on} {b} (shutdown after step) inv =
    let (past, closed) = Step-After on b.cancelled step inv.past inv.after in
    record { past = past; after = closed }
Step-Inv cancel_parent inv = record { past = inv.past; after = inv.after }
Step-Inv (wake t closed yet) inv = ground arith

-- The shutdown's own steps of a run.
Reach-shutdown :
    {timeout : ℕ} {on : Channel} {b c : Derived}
    → Reach timeout on b c
    → Shutdown.Reach timeout b.gs c.gs
Reach-shutdown here = Shutdown.here
Reach-shutdown (next r (shutdown after step)) = Shutdown.next (Reach-shutdown r) step
Reach-shutdown (next r cancel_parent) = Reach-shutdown r
Reach-shutdown (next r (wake t closed yet)) = Reach-shutdown r

Reach-Inv :
    {timeout : ℕ} {on : Channel} {b c : Derived} → Reach timeout on b c → Inv on b → Inv on c
Reach-Inv here inv = inv
Reach-Inv (next r step) inv = Step-Inv step (Reach-Inv r inv)

-- A context of CancelOnQuit whose parent is not cancelled is cancelled, until a SIGINT has been
-- handled, no sooner than `timeout` after stop was closed.
pub cancel_on_quit_after_timeout :
    (timeout now : ℕ) (listen : Bool) (d : Derived)
    → Reach timeout quit (cancel_on (new_graceful_shutdown now listen) false) d
    → d.gs.interrupts ≡ 0
    → d.parent_done ≡ false
    → is_done d ≡ true
    → (t c : ℕ) × (d.gs.stop ≡ some t) × (d.cancelled ≡ some c) × (t + timeout ≤ c)
unfolding cancel_on new_graceful_shutdown
cancel_on_quit_after_timeout timeout now listen d r calm alone done =
    let inv = Reach-Inv r (ground arith) in
    elim (Option-cases d.cancelled) [
      | inl never ↦ absurd (ground arith)
      | inr (c, cancelled) ↦ elim (Option-cases d.gs.quit) [
        | inl still ↦ absurd (ground arith)
        | inr (q, closed) ↦
            let (t, stopped_at, late) =
              quit_after_timeout timeout now listen d.gs q (Reach-shutdown r) calm closed in
            (t, c, stopped_at, cancelled, ground arith)
      ]
    ]
