-- ===== src/Shutdown/Tests.antt =====
-- A shutdown that is stopped at 3 and quits 10 later.
use Prim.Native.Nat.{ℕ, ◌≤◌, ◌+◌}
use elephantine.Prelude.{◌≡◌, false, true, some, refl, arith}
use elephantine.Shutdown.{
  GracefulShutdown, Reach, new_graceful_shutdown, safe_close, stopped, sleep, pass, expire,
}
use elephantine.Shutdown.Orderly.{stop_leads_to_quit, Quits}
use elephantine.Shutdown.Derived.{Derived, quit, cancel_on, cancel_on_quit_after_timeout}
use elephantine.Shutdown.Derived

abbrev asleep : (s : GracefulShutdown) × Reach 10 (new_graceful_shutdown 0 true) s
unfolding new_graceful_shutdown safe_close
asleep = (
  _,
  Reach.next (Reach.next (Reach.next Reach.here (pass 3 (omega arith))) (stopped (some 3) refl))
      (sleep 3 refl refl refl),
)

-- A context of CancelOnQuit through the same run, cancelled at 14.
abbrev cancelled :
    (d : Derived) × Derived.Reach 10 quit (cancel_on (new_graceful_shutdown 0 true) false) d
unfolding new_graceful_shutdown safe_close cancel_on
cancelled = (
  _,
  Derived.next
      (Derived.next
        (Derived.next
          (Derived.next
            (Derived.next
              (Derived.next (Derived.next Derived.here (Derived.shutdown _ (pass 3 (omega arith))))
                (Derived.shutdown _ (stopped (some 3) refl)))
              (Derived.shutdown _ (sleep 3 refl refl refl)))
            (Derived.shutdown _ (pass 13 (omega arith))))
          (Derived.shutdown _ (expire 3 (some 13) refl (omega arith) refl)))
        (Derived.shutdown _ (pass 14 (omega arith))))
      (Derived.wake 13 refl refl),
)

cancel_on_quit_after_timeout_example :
    (t c : ℕ) × (cancelled.0.gs.stop ≡ some t) × (cancelled.0.cancelled ≡ some c) × (t + 10 ≤ c)
unfolding new_graceful_shutdown cancel_on cancelled
cancel_on_quit_after_timeout_example =
    cancel_on_quit_after_timeout 10 0 true cancelled.0 cancelled.1 refl refl refl

stop_leads_to_quit_example : Quits 10 asleep.0
unfolding new_graceful_shutdown safe_close
stop_leads_to_quit_example = stop_leads_to_quit 10 0 3 true asleep.0 asleep.1 refl
