-- ===== src/JobLock/Exclusion/Claims.antt =====
-- The claim of a process that holds the lock: the row is its own and was touched when it last
-- pinged, or its last ping is old. Each call keeps the claim, and another's claim too.
use elephantine.Prelude.{
  ℕ, ◌+◌, ◌≤◌, ◌≡◌, ◌≢◌, ◌⊎◌, inl, inr, String, Option-cases, Bool, true, false, ◌&&◌, Option, none,
  some, arith,
}
use elephantine.JobLock.Table.{JobLockRow, Table, get_job_lock}
use elephantine.JobLock.Lock.{JobLock, held, ExecEnv, ping, is_held}
use elephantine.JobLock.Loop.{Worker, Phase, polling, stopped, TurnEnv, turn, is_looping}
use elephantine.JobLock.Fleet.{IsTimely}
use elephantine.JobLock.Queries.{IsKeyed}
use elephantine.JobLock.Outcomes.{IsLocked, Keeps, sent-row, attempt_acquire-Owns, sent-Owns}

-- A process holds the lock from the turn that acquires it until the loop has returned.
abbrev pub is_running : Phase → Bool
is_running stopped = false
is_running _ = true

abbrev pub holds : Worker → Bool
holds w = is_held w.lock.state && is_running w.phase

module _ (latency stale : ℕ) where
  abbrev pub IsFresh : JobLock → Option JobLockRow → Type 0
  IsFresh jl none = ⊥
  IsFresh jl (some r) = (r.holder ≡ jl.identity) × (jl.last_ping ≤ r.touched + latency)

  abbrev pub Claim : ℕ → JobLock → Table → Type 0
  Claim now jl table =
      IsFresh jl (get_job_lock table jl.name) ⊎ (jl.last_ping + stale ≤ now + latency)

  -- A change of the table that keeps the rows of others keeps this process's claim.
  pub Keeps-Claim :
      (jl : JobLock) (me : String) (now later : ℕ) (before after : Table)
      → Keeps jl.name me stale later before after
      → jl.identity ≢ me
      → now ≤ later
      → Claim now jl before
      → Claim later jl after
  Keeps-Claim jl me now later before after keeps other le claim =
      elim (Option-cases (get_job_lock before jl.name)) [
        | inl absent ↦ ground arith
        | inr (r, found) ↦ ground (arith, keeps r found)
      ]

  pub ping-Claim :
      (jl : JobLock) (env : ExecEnv) (table : Table) (now later : ℕ)
      → IsKeyed table
      → env.pinged_at ≤ env.tx_now + latency
      → jl.last_ping ≤ env.tx_now
      → now ≤ later
      → Claim now jl table
      → (ping jl env table).1 ≡ held
      → Claim later (ping jl env table).0 (ping jl env table).2
  unfolding ping
  ping-Claim jl env table now later keyed quick order le claim still =
      ground (arith, sent-row jl env table, sent-Owns jl env table keyed)

  pub record IsSound (now : ℕ) (w : Worker) (table : Table) : Type 0 where
    pub claimed : holds w ≡ true → Claim now w.lock table
    pub synced : is_looping w.phase ≡ true → w.next_state ≡ w.lock.state

  pub turn-IsSound :
      (env : TurnEnv) (w : Worker) (table : Table) (now later : ℕ)
      → w.phase ≡ polling
      → now ≤ later
      → IsKeyed table
      → IsTimely latency w.lock env later
      → IsLocked env.seen table w.lock.name
      → IsSound now w table
      → IsSound later (turn env w table).0 (turn env w table).1
  unfolding turn
  turn-IsSound env w table now later here le keyed timely locked sound = ground (
    arith,
    attempt_acquire-Owns w.lock env.acquire env.seen table locked,
    ping-Claim w.lock env.exec table now later keyed,
  )
