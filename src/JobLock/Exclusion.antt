-- ===== src/JobLock/Exclusion.antt =====
-- Mutual exclusion in a fleet of processes (`Fleet`) that compete for the lock of one name.
-- `Claims` says what a process that holds the lock may rely on, `Steps` that every step keeps it.
mod Claims
mod Steps
pub use Claims.{holds}
pub use Steps.{
  IsMember, Inv, Step-Inv, IsSameLock, same_lock, turn-IsSameLock, turn-IsKeyed, finish-IsSameLock,
  finish-IsKeyed,
}
use Steps.{Reach-Inv}
use elephantine.Prelude.{
  ℕ, ◌+◌, ◌≤◌, ◌<◌, ◌≡◌, ◌≢◌, ◌⊎◌, inl, inr, String, true, none, some, arith, Option-cases, refl,
}
use elephantine.JobLock.Table.{Table, get_job_lock}
use elephantine.JobLock.Lock.{JobLock, none_held}
use elephantine.JobLock.Loop.{idle}
use elephantine.JobLock.Queries.{IsKeyed}
use elephantine.JobLock.Fleet.{Fleet, Reach}

-- Processes that have not yet run their loops.
abbrev pub start : (ℕ → JobLock) → Table → ℕ → Fleet
start locks table now = record { workers = λ i. idle (locks i); table = table; now = now }

module _ (name : String) (identity : ℕ → String) (latency stale : ℕ) where
  start-Inv :
      (locks : ℕ → JobLock) (table : Table) (now : ℕ)
      → ((i : ℕ) → IsMember name identity stale i (locks i))
      → ((i : ℕ) → (locks i).state ≡ none_held)
      → IsKeyed table
      → Inv name identity latency stale (start locks table now)
  start-Inv locks table now members fresh keyed = record {
    keyed = keyed;
    member = members;
    sound = λ i. ground (arith, fresh i);
  }

  module _ (pos : 0 < stale) (distinct : (i j : ℕ) → identity i ≡ identity j → i ≡ j) where
    -- The claims of two processes to one row.
    claims_clash :
        (t : Fleet) (i j : ℕ)
        → Inv name identity latency stale t
        → i ≢ j
        → holds (t.workers i) ≡ true
        → holds (t.workers j) ≡ true
        → ((t.workers i).lock.last_ping + stale ≤ t.now + latency)
          ⊎ ((t.workers j).lock.last_ping + stale ≤ t.now + latency)
    claims_clash t i j inv ne hi hj =
        ground (arith, inv.member i, inv.member j, inv.sound i, inv.sound j, distinct i j)

    -- Processes that start with free locks of one name, with identities of their own, and that wait
    -- at least `stale` before they take a row over: whatever fails and in whatever order they run,
    -- two of them hold the lock at once only if one of the two got its last reply at least `stale`
    -- ago, less the time that a reply takes.
    pub exclusive :
        (locks : ℕ → JobLock) (table : Table) (now : ℕ) (t : Fleet)
        → ((i : ℕ) → IsMember name identity stale i (locks i))
        → ((i : ℕ) → (locks i).state ≡ none_held)
        → IsKeyed table
        → Reach latency (start locks table now) t
        → (i j : ℕ) → i ≢ j
        → holds (t.workers i) ≡ true
        → holds (t.workers j) ≡ true
        → ((t.workers i).lock.last_ping + stale ≤ t.now + latency)
          ⊎ ((t.workers j).lock.last_ping + stale ≤ t.now + latency)
    exclusive locks table now t members fresh keyed r i j = claims_clash t i j (
        Reach-Inv name identity latency stale pos distinct
          (start-Inv locks table now members fresh keyed) r)
