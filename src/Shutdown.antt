-- ===== src/Shutdown.antt =====
-- grace.go: GracefulShutdown. The two goroutines that newGracefulShutdown starts, and the signals and
-- calls that reach them, in any order. A channel that is only closed is the time at which it was.
pub mod Orderly
pub mod Derived
mod Tests
use elephantine.Prelude.{
  ℕ, ◌+◌, ◌≤◌, ◌≡◌, Bool, true, false, List, [], ◌∷◌, Option, none, some, if◌then◌else◌,
}

-- SIGINT and SIGTERM; signal.Notify asks for no other.
pub data Signal : Type 0 where
  interrupt terminate : Signal

-- The goroutine that polls for signals. `interrupted` stands between the two closes of SIGINT.
pub data Listener : Type 0 where
  polling interrupted unsubscribed : Listener

-- The goroutine that waits for stop.
pub data Waiter : Type 0 where
  waiting : Waiter
  sleeping : (since : ℕ) → Waiter
  returned : Waiter

-- `interrupts` counts the SIGINTs that were handled: a history, which nothing reads.
pub record GracefulShutdown : Type 0 where
  pub signals : List Signal
  pub stop : Option ℕ
  pub quit : Option ℕ
  pub listener : Listener
  pub waiter : Waiter
  pub now : ℕ
  pub interrupts : ℕ

-- close(ch): `none` is the panic of closing a closed channel.
abbrev pub close : ℕ → Option ℕ → Option (Option ℕ)
close now none = some (some now)
close now (some t) = none

-- safeClose, under the mutex.
unfoldable pub safe_close : ℕ → Option ℕ → Option (Option ℕ)
safe_close now (some t) = some (some t)
safe_close now none = close now none

-- A send to the buffer of one signal; signal.Notify does not block.
abbrev pub deliver : Signal → List Signal → List Signal
deliver s [] = s ∷ []
deliver s (x ∷ xs) = x ∷ xs

unfoldable pub new_graceful_shutdown : ℕ → Bool → GracefulShutdown
new_graceful_shutdown now listen_to_signals = record {
  signals = [];
  stop = none;
  quit = none;
  listener = if listen_to_signals then polling else unsubscribed;
  waiter = waiting;
  now = now;
  interrupts = 0;
}

pub data Step (timeout : ℕ) (s : GracefulShutdown) : GracefulShutdown → Type 0 where
  signalled : (sig : Signal) → Step timeout s (record s { signals = deliver sig s.signals })
  -- Stop()
  stopped :
      (ch : Option ℕ) → safe_close s.now s.stop ≡ some ch → Step timeout s (record s { stop = ch })
  -- poll() takes a signal, and handleSignal closes.
  handle_terminate :
      (ch : Option ℕ)
      → s.listener ≡ polling
      → s.signals ≡ terminate ∷ []
      → safe_close s.now s.stop ≡ some ch
      → Step timeout s (record s { signals = []; stop = ch })
  handle_interrupt :
      (ch : Option ℕ)
      → s.listener ≡ polling
      → s.signals ≡ interrupt ∷ []
      → safe_close s.now s.quit ≡ some ch
      → Step timeout s (record s {
        signals = [];
        quit = ch;
        listener = interrupted;
        interrupts = s.interrupts + 1;
      })
  handled_interrupt :
      (ch : Option ℕ)
      → s.listener ≡ interrupted
      → safe_close s.now s.stop ≡ some ch
      → Step timeout s (record s { stop = ch; listener = polling })
  -- poll() finds `quit` closed.
  unsubscribe :
      (t : ℕ)
      → s.listener ≡ polling
      → s.quit ≡ some t
      → Step timeout s (record s { listener = unsubscribed })
  -- The waiter sees `stop` closed, and `quit` closed or not.
  give_way :
      (t q : ℕ)
      → s.waiter ≡ waiting
      → s.stop ≡ some t
      → s.quit ≡ some q
      → Step timeout s (record s { waiter = returned })
  sleep :
      (t : ℕ)
      → s.waiter ≡ waiting
      → s.stop ≡ some t
      → s.quit ≡ none
      → Step timeout s (record s { waiter = sleeping s.now })
  -- time.Sleep is over.
  expire :
      (since : ℕ) (ch : Option ℕ)
      → s.waiter ≡ sleeping since
      → since + timeout ≤ s.now
      → safe_close s.now s.quit ≡ some ch
      → Step timeout s (record s { quit = ch; waiter = returned })
  pass : (later : ℕ) → s.now ≤ later → Step timeout s (record s { now = later })

-- The waiter's own steps, and the passing of time.
abbrev pub is_waiter : {timeout : ℕ} {s t : GracefulShutdown} → Step timeout s t → Bool
is_waiter (signalled sig) = false
is_waiter (stopped ch closed) = false
is_waiter (handle_terminate ch on got closed) = false
is_waiter (handle_interrupt ch on got closed) = false
is_waiter (handled_interrupt ch on closed) = false
is_waiter (unsubscribe t on quit) = false
is_waiter (give_way t q on stop quit) = true
is_waiter (sleep t on stop still) = true
is_waiter (expire since ch on over closed) = true
is_waiter (pass later le) = true

-- A run without signals, calls and the listener.
pub data Waits (timeout : ℕ) (s : GracefulShutdown) : GracefulShutdown → Type 0 where
  here : Waits timeout s s
  next :
      {t u : GracefulShutdown}
      → Waits timeout s t
      → (step : Step timeout t u) → is_waiter step ≡ true
      → Waits timeout s u

pub data Reach (timeout : ℕ) (s : GracefulShutdown) : GracefulShutdown → Type 0 where
  here : Reach timeout s s
  next : {t u : GracefulShutdown} → Reach timeout s t → Step timeout t u → Reach timeout s u
