-- ===== src/JobLock/Takeover/Turns.antt =====
-- A turn in which no request fails, once a row has been left alone for long enough.
use elephantine.Prelude.{
  ℕ, ◌+◌, ◌≤◌, ◌<◌, ◌^◌, ◌≡◌, ◌⊎◌, inl, inr, refl, true, false, List, [], ◌∷◌, Option, none, some,
  arith, Option-cases,
}
use elephantine.Prelude.Lists.{length}
use mathlib.Core.List.{tail}
use elephantine.Duration.{lt, since}
use elephantine.JobLock.Table.{JobLockRow, Table, get_job_lock}
use elephantine.JobLock.Lock.{JobLock, JobLockState, none_held, attempt_acquire}
use elephantine.JobLock.Loop.{
  Worker, Phase, polling, waiting, leaving, stopped, TurnEnv, turn, is_looping,
}
use elephantine.JobLock.Outcomes.{IsLocked, Owns}
use elephantine.JobLock.Attempts.{IsFree}
use elephantine.JobLock.Fleet.{Fleet, update, update-All}
use elephantine.JobLock.Exclusion.{holds, IsSameLock, same_lock}

-- A row that has been left alone for long enough is free.
left_alone :
    (later touched stale : ℕ)
    → touched + stale ≤ later
    → stale < 2 ^ 63
    → lt (since later touched) stale ≡ false
unfolding lt since
left_alone later touched stale old small = ground arith

-- How long to wait for the row.
abbrev pub age : ℕ → Option JobLockRow → ℕ
age stale none = 0
age stale (some r) = r.touched + stale

pub aged-IsFree :
    (jl : JobLock) (now : ℕ) (r : Option JobLockRow)
    → jl.stale_after < 2 ^ 63
    → age jl.stale_after r ≤ now
    → IsFree jl now r
aged-IsFree jl now none small old = tt
aged-IsFree jl now (some r) small old = left_alone now r.touched jl.stale_after old small

pub one :
    (s : Fleet) (i : ℕ) (w : Worker)
    → IsSameLock w.lock (s.workers i).lock
    → (j : ℕ) → IsSameLock (update s.workers i w j).lock (s.workers j).lock
one s i w same =
    update-All (λ j u. IsSameLock u.lock (s.workers j).lock) s.workers i w same (λ j ne. same_lock)

pub turn_acquires :
    (env : TurnEnv) (w : Worker) (table : Table)
    → w.lock.state ≡ none_held
    → w.phase ≡ polling
    → w.out ≡ []
    → (attempt_acquire w.lock env.acquire env.seen table).0.is_ok ≡ true
    → (holds (turn env w table).0 ≡ true)
      × ((turn env w table).1 ≡ (attempt_acquire w.lock env.acquire env.seen table).1)
unfolding turn
turn_acquires env w table free at empty acquired = ground arith

pub Owns-same :
    {a b : JobLock} (time : ℕ) (table : Table)
    → IsSameLock a b
    → Owns b time table
    → Owns a time table
Owns-same {a} {b} time table same own = elim (Option-cases (get_job_lock table b.name)) [
  | inl absent ↦ ground arith
  | inr (r, found) ↦ ground arith
]

pub tail-nil : (l : List JobLockState) → length l ≤ 1 → tail l ≡ []
tail-nil [] short = refl
tail-nil (x ∷ []) short = refl
tail-nil (x ∷ y ∷ l) short = absurd (omega arith)

pub looping-cases :
    (p : Phase) → is_looping p ≡ true → (p ≡ polling) ⊎ ((timer : ℕ) × (p ≡ waiting timer))
looping-cases polling loops = inl refl
looping-cases (waiting timer) loops = inr (timer, refl)
looping-cases leaving loops = cc
looping-cases stopped loops = cc

pub row-IsLocked :
    (table : Table) (jl : JobLock) → IsLocked (get_job_lock table jl.name) table jl.name
row-IsLocked table jl = elim (Option-cases (get_job_lock table jl.name)) [
  | inl absent ↦ rw absent tt
  | inr (r, found) ↦ rw (found, found) refl
]

pub update_self : (f : ℕ → Worker) (i : ℕ) (w : Worker) → update f i w i ≡ w
update_self f i w = ground arith
