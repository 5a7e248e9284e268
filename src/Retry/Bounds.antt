-- ===== src/Retry/Bounds.antt =====
-- How often a task is tried.
use elephantine.Prelude.{
  ℕ, ◌+◌, ◌≤◌, ◌≡◌, ◌≢◌, refl, Bool, true, false, List, [], ◌∷◌, none, arith, ltb, if◌then◌else◌,
}
use elephantine.Prelude.Lists.{length}
use elephantine.Duration
use elephantine.Retry.{
  Attempt, Progress, Outcome, succeeded, cancelled, gave_up, going, count_failure, round,
  go_with_retries,
}

module _ (max_retries reset_after : ℕ) where
  -- While the loop goes on, the counter keeps to the limit.
  abbrev pub IsWithin : Outcome → Type 0
  IsWithin (going p) = p.tries ≤ max_retries
  IsWithin (gave_up n e) = n ≡ max_retries + 1
  IsWithin _ = Unit {0}

  round-IsWithin :
      (p : Progress) (a : Attempt)
      → max_retries ≢ 0
      → p.tries ≤ max_retries
      → IsWithin (round max_retries reset_after p a)
  unfolding round count_failure
  round-IsWithin p a limited h = ground arith

  -- With a limit, from a counter that is within it: while the loop goes on, the counter is within the
  -- limit, and if it gives up, the counter is one more than the limit; whatever the task does and
  -- however often the counter is reset.
  pub go_with_retries-IsWithin :
      (p : Progress) (run : List Attempt)
      → max_retries ≢ 0
      → p.tries ≤ max_retries
      → IsWithin (go_with_retries max_retries reset_after p run)
  unfolding go_with_retries
  go_with_retries-IsWithin p [] limited h = h
  go_with_retries-IsWithin p (a ∷ later) limited h =
      (elim (round max_retries reset_after p a)
          as (λ o.
            IsWithin o
            → IsWithin (elim o [
              | going p' ↦ go_with_retries max_retries reset_after p' later
              | succeeded ↦ succeeded
              | cancelled c ↦ cancelled c
              | gave_up n e ↦ gave_up n e
            ])) [
              | going p' ↦ λ w. go_with_retries-IsWithin p' later limited w
              | succeeded ↦ λ w. w
              | cancelled c ↦ λ w. w
              | gave_up n e ↦ λ w. w
            ])
        (round-IsWithin p a limited h)

  -- Failures that follow one another within `resetAfter`, with no cancellation.
  abbrev pub IsBurst : ℕ → List Attempt → Type 0
  IsBurst last [] = Unit {0}
  IsBurst last (a ∷ later) =
      (a.error ≢ none)
      × (a.cancelled ≡ none)
      × (a.cancelled_waiting ≡ none)
      × (Duration.lt reset_after (Duration.since a.failed_at last) ≡ false)
      × IsBurst a.noted_at later

  abbrev pub tries_of : Outcome → ℕ
  tries_of (going p) = p.tries
  tries_of (gave_up n e) = n
  tries_of _ = 0

  abbrev pub has_given_up : Outcome → Bool
  has_given_up (gave_up n e) = true
  has_given_up _ = false

  -- A burst of failures is tried again up to the limit: after n failures the counter is n and the
  -- task is going to be tried again if n is at most the limit, and given up after one more.
  pub go_with_retries-burst :
      (p : Progress) (run : List Attempt)
      → max_retries ≢ 0
      → p.tries ≤ max_retries
      → IsBurst p.last_state_change run
      → let outcome = go_with_retries max_retries reset_after p run in
        (has_given_up outcome ≡ ltb max_retries (p.tries + length run))
        × (tries_of outcome ≡ (
            if ltb max_retries (p.tries + length run)
            then max_retries + 1
            else p.tries + length run))
  unfolding go_with_retries round count_failure
  go_with_retries-burst p [] limited h burst = ground arith
  go_with_retries-burst p (a ∷ later) limited h burst =
      ground
        (arith, go_with_retries-burst (count_failure max_retries reset_after p a) later limited)

  -- With no limit the task is never given up.
  pub go_with_retries-unlimited :
      (p : Progress) (run : List Attempt)
      → max_retries ≡ 0
      → has_given_up (go_with_retries max_retries reset_after p run) ≡ false
  unfolding go_with_retries round
  go_with_retries-unlimited p [] free = refl
  go_with_retries-unlimited p (a ∷ later) free =
      ground
        (arith, go_with_retries-unlimited (count_failure max_retries reset_after p a) later free)
