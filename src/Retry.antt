-- ===== src/Retry.antt =====
-- errgroup.go: ErrGroup.GoWithRetries. A run is the list of its attempts: what the task returned,
-- what the clock read, and whether the group's context was cancelled then. A run that has used up
-- its list is still going. The errors are wrapped with the task's name, which is left out.
pub mod Bounds
pub mod Crew
pub mod Group
pub mod Winding
mod Tests
use elephantine.Prelude.{
  ℕ, zero, suc, ◌+◌, Bool, true, false, not, ◌&&◌, List, [], ◌∷◌, Option, none, some, ltb, ◌==◌,
  if◌then◌else◌, String,
}
use elephantine.Fault.{Fault}
use elephantine.Duration

pub record Attempt : Type 0 where
  pub error : Option Fault
  -- gCtx.Err() after the task has returned, and in the select that waits.
  pub cancelled : Option Fault
  pub cancelled_waiting : Option Fault
  -- time.Since and time.Now, in this order.
  pub failed_at : ℕ
  pub noted_at : ℕ

-- The variables of the loop.
pub record Progress : Type 0 where
  pub tries : ℕ
  pub last_state_change : ℕ

pub data Outcome : Type 0 where
  succeeded : Outcome
  cancelled : Fault → Outcome
  gave_up : (tries : ℕ) → Fault → Outcome
  going : Progress → Outcome

-- `maxRetries` is a number, 0 for no limit; the backoff function only sets how long a wait is.
module _ (max_retries reset_after : ℕ) where
  -- The counter after a failure.
  unfoldable pub count_failure : Progress → Attempt → Progress
  unfolding Duration.lt Duration.since
  count_failure p a = record {
    tries =
        (if Duration.lt reset_after (Duration.since a.failed_at p.last_state_change)
          then 0
          else p.tries)
        + 1;
    last_state_change = a.noted_at;
  }

  -- One round of the loop: `going` is the next round.
  unfoldable pub round : Progress → Attempt → Outcome
  round p a = elim a.error [
    | none ↦ succeeded
    | some e ↦ elim a.cancelled [
      | some c ↦ cancelled c
      | none ↦
          let p' = count_failure p a in
          if not (max_retries == 0) && ltb max_retries p'.tries
          then gave_up p'.tries e
          else elim a.cancelled_waiting [ some c ↦ cancelled c | none ↦ going p' ]
    ]
  ]

  unfoldable pub go_with_retries : Progress → List Attempt → Outcome
  go_with_retries p [] = going p
  go_with_retries p (a ∷ later) = elim (round p a) [
    | going p' ↦ go_with_retries p' later
    | succeeded ↦ succeeded
    | cancelled c ↦ cancelled c
    | gave_up n e ↦ gave_up n e
  ]
