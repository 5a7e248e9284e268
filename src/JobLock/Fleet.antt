-- ===== src/JobLock/Fleet.antt =====
-- Processes that run JobLock.loop over one table, interleaved in any order. Each access to the
-- table is one step, as the row lock of SELECT … FOR UPDATE makes it. Clocks agree; a reply comes
-- at most `latency` after the database's now() of its transaction, which the deadline of the
-- request's context bounds. Failures, and the order of steps, are left open.
use mathlib.Core.Path.{subst}
use elephantine.Prelude.{
  ℕ, ◌+◌, ◌≤◌, ◌≡◌, ◌≢◌, if◌then◌else◌, ◌==◌, ==_iff, Bool-cases, inl, inr, arith,
}
use elephantine.JobLock.Table.{Table}
use elephantine.JobLock.Lock.{JobLock, Fate}
use elephantine.JobLock.Loop.{Worker, polling, waiting, leaving, TurnEnv, turn, finish}
use elephantine.JobLock.Outcomes.{IsLocked}
use mathlib.Core.List.{tail}

pub record Fleet : Type 0 where
  pub workers : ℕ → Worker
  pub table : Table
  pub now : ℕ

abbrev pub update : (ℕ → Worker) → ℕ → Worker → ℕ → Worker
update f i w j = if i == j then w else f j

pub update-All {ℓ} :
    (P : ℕ → Worker → Type ℓ) (f : ℕ → Worker) (i : ℕ) (w : Worker)
    → P i w
    → ((j : ℕ) → i ≢ j → P j (f j))
    → (j : ℕ) → P j (update f i w j)
update-All P f i w own others j = elim (Bool-cases (i == j)) [
  | inl same ↦ rw same (subst (λ k. P k w) ((==_iff i j).0 same) own)
  | inr other ↦ rw other (others j (ground arith))
]

-- What is known of the times of a turn of `jl` that ends at `later`.
pub record IsTimely (latency : ℕ) (jl : JobLock) (env : TurnEnv) (later : ℕ) : Type 0 where
  pub checked : env.acquire.checked_at ≤ later
  pub acquired : env.acquire.pinged_at ≤ env.acquire.tx_now + latency
  pub in_order : jl.last_ping ≤ env.exec.tx_now
  pub renewed : env.exec.pinged_at ≤ env.exec.tx_now + latency

pub data Step (latency : ℕ) (s : Fleet) : Fleet → Type 0 where
  -- A turn of the loop, up to the select at its end.
  take_turn :
      (i : ℕ) (env : TurnEnv) (later : ℕ)
      → (s.workers i).phase ≡ polling
      → s.now ≤ later
      → IsTimely latency (s.workers i).lock env later
      → IsLocked env.seen s.table (s.workers i).lock.name
      → Step latency s (record {
        workers = update s.workers i (turn env (s.workers i) s.table).0;
        table = (turn env (s.workers i) s.table).1;
        now = later;
      })
  -- The select takes the timer, or the closed channel `abort`.
  wake :
      (i timer : ℕ)
      → (s.workers i).phase ≡ waiting timer
      → Step latency s
          (record s { workers = update s.workers i (record (s.workers i) { phase = polling }) })
  abort :
      (i timer : ℕ)
      → (s.workers i).phase ≡ waiting timer
      → Step latency s
          (record s { workers = update s.workers i (record (s.workers i) { phase = leaving }) })
  -- The deferred calls of the loop.
  leave :
      (i : ℕ) (fate : Fate)
      → (s.workers i).phase ≡ leaving
      → Step latency s (record s {
        workers = update s.workers i (finish fate (s.workers i) s.table).0;
        table = (finish fate (s.workers i) s.table).1;
      })
  -- The lock's user takes a message from `out`.
  receive :
      (i : ℕ)
      → Step latency s (record s {
        workers = update s.workers i (record (s.workers i) { out = tail (s.workers i).out });
      })
  pass : (later : ℕ) → s.now ≤ later → Step latency s (record s { now = later })

pub data Reach (latency : ℕ) (s : Fleet) : Fleet → Type 0 where
  here : Reach latency s s
  next : {t u : Fleet} → Reach latency s t → Step latency t u → Reach latency s u
