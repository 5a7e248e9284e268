-- ===== src/JobLock/Refinement.antt =====
-- The processes and the table of `Fleet` implement `Lease`.
mod Rows
mod Tests
use native.Mathlib.Nat.{le_refl}
use elephantine.Prelude.{
  ℕ, ◌+◌, ◌≤◌, ◌<◌, ◌^◌, ◌≡◌, ◌≢◌, ◌⊎◌, inl, inr, refl, sym, ap, ◌∙◌, String, Bool, true, false,
  Option, none, some, arith, Option-cases, Bool-cases, eq_iff, str_eq, if◌then◌else◌,
}
use elephantine.Duration.{since-lt-false}
use elephantine.Fault
use elephantine.JobLock.Table.{
  JobLockRow, Table, get_job_lock, insert_job_lock, ping_job_lock, steal_job_lock, release_job_lock,
  is_version, touch, is_held_by, update_where, delete_where,
}
use elephantine.JobLock.Lock.{JobLock, AcquireEnv, ExecEnv, Fate, attempt_acquire, ping, release}
use elephantine.JobLock.Loop.{Worker, TurnEnv, turn, finish}
use elephantine.JobLock.Queries.{IsKeyed, get-name, get-update_where}
use elephantine.JobLock.Outcomes.{IsLocked}
use elephantine.JobLock.Attempts.{delete-row}
use elephantine.JobLock.Fleet.{
  Fleet, Step, take_turn, wake, abort, leave, receive, pass, Reach, here, next, update, update-All,
}
use elephantine.JobLock.Exclusion.{
  IsSameLock, same_lock, turn-IsSameLock, turn-IsKeyed, finish-IsSameLock, finish-IsKeyed,
}
use elephantine.JobLock.Lease.{Lease, Book, Move, take, renew, take_over, free, Run}
use elephantine.JobLock.Refinement.Rows.{Moves, turn-Moves, finish-Moves}

-- The lease of a name, as the table has it.
abbrev pub as_lease : Option JobLockRow → Option Lease
as_lease none = none
as_lease (some r) =
    some (record { holder = r.holder; touched = r.touched; iteration = r.iteration })

abbrev pub lease_of : String → Table → Option Lease
lease_of name table = as_lease (get_job_lock table name)

-- The book of a name, and a move of its lease.
abbrev pub book : ℕ → Option JobLockRow → Book
book now r = record { lease = as_lease r; now = now }

module _ (stale : ℕ) (identity : ℕ → String) where
  Moves-Run :
      (b : Book) (i now : ℕ) (r s : Option JobLockRow)
      → Moves stale (identity i) now r s
      → Run stale identity b (book now r)
      → Run stale identity b (book now s)
  Moves-Run b i now none none m run = run
  Moves-Run b i now none (some s) (mine, first) run =
      rw (mine, first) (Run.move i run (take s.touched refl))
  Moves-Run b i now (some r) none mine run = Run.move i run (free _ refl mine)
  Moves-Run b i now (some r) (some s) (inl same) run = rw same run
  Moves-Run b i now (some r) (some s) (inr (mine, more, inl own)) run =
      rw (mine ∙ sym own, more) (Run.move i run (renew _ s.touched refl own))
  Moves-Run b i now (some r) (some s) (inr (mine, more, inr old)) run =
      rw (mine, more) (Run.move i run (take_over _ s.touched refl old))

module _ (identity : ℕ → String) (latency stale : ℕ) where
  -- Processes with locks of any names, which wait at least `stale` before they take a row over.
  pub record IsPatient (i : ℕ) (jl : JobLock) : Type 0 where
    pub own_identity : jl.identity ≡ identity i
    pub patient : stale ≤ jl.stale_after
    pub small : jl.stale_after < 2 ^ 63

  record Inv (s : Fleet) : Type 0 where
    keyed : IsKeyed s.table
    member : (i : ℕ) → IsPatient i (s.workers i).lock

  IsPatient-same : {i : ℕ} {a b : JobLock} → IsSameLock a b → IsPatient i b → IsPatient i a
  IsPatient-same same m = ground arith

  move-Inv :
      (s : Fleet) (i : ℕ) (w : Worker) (after : Table) (later : ℕ)
      → IsSameLock w.lock (s.workers i).lock
      → IsKeyed after
      → Inv s
      → Inv (record { workers = update s.workers i w; table = after; now = later })
  move-Inv s i w after later same keyed inv = record {
    keyed = keyed;
    member =
        update-All (λ j u. IsPatient j u.lock) s.workers i w (IsPatient-same same (inv.member i))
          (λ j ne. inv.member j);
  }

  Step-Inv : {s t : Fleet} → Step latency s t → Inv s → Inv t
  Step-Inv {s} (take_turn i env later at le timely locked) inv =
      let w = s.workers i in
      move-Inv s i _ _ later (turn-IsSameLock env w s.table) (turn-IsKeyed env w s.table inv.keyed)
        inv
  Step-Inv {s} (wake i timer at) inv = move-Inv s i _ s.table s.now same_lock inv.keyed inv
  Step-Inv {s} (abort i timer at) inv = move-Inv s i _ s.table s.now same_lock inv.keyed inv
  Step-Inv {s} (leave i fate at) inv =
      let w = s.workers i in
      move-Inv s i _ _ s.now (finish-IsSameLock fate w s.table)
        (finish-IsKeyed fate w s.table inv.keyed) inv
  Step-Inv {s} (receive i) inv = move-Inv s i _ s.table s.now same_lock inv.keyed inv
  Step-Inv {s} (pass later le) inv = record { keyed = inv.keyed; member = inv.member }

  -- The book of a name in a fleet.
  abbrev pub book_of : String → Fleet → Book
  book_of name s = book s.now (get_job_lock s.table name)

  module _ (pos : 0 < stale) (name : String) where
    Step-Run :
        {s t : Fleet} (b : Book)
        → Step latency s t
        → Inv s
        → Run stale identity b (book_of name s)
        → Run stale identity b (book_of name t)
    Step-Run {s} b (take_turn i env later at le timely locked) inv run =
        let w = s.workers i in
        let m = inv.member i in
        let row = get_job_lock s.table name in
        Moves-Run stale identity b i later row (get_job_lock (turn env w s.table).1 name)
          (rw (← m.own_identity)
            (turn-Moves stale name env w s.table later pos m.patient m.small timely.checked locked))
          (Run.pass later run le)
    Step-Run b (wake i timer at) inv run = run
    Step-Run b (abort i timer at) inv run = run
    Step-Run {s} b (leave i fate at) inv run =
        let w = s.workers i in
        Moves-Run stale identity b i s.now (get_job_lock s.table name)
          (get_job_lock (finish fate w s.table).1 name)
          (rw (← (inv.member i).own_identity)
            (finish-Moves stale name fate w s.table s.now inv.keyed))
          run
    Step-Run b (receive i) inv run = run
    Step-Run b (pass later le) inv run = Run.pass later run le

    Reach-Run :
        {s t : Fleet}
        → Reach latency s t
        → Inv s
        → Inv t × Run stale identity (book_of name s) (book_of name t)
    Reach-Run here inv = (inv, Run.here)
    Reach-Run {s} (next r step) inv =
        let (inv', run) = Reach-Run r inv in
        (Step-Inv step inv', Step-Run (book_of name s) step inv' run)

    -- The processes implement the leases of `Lease`: from any table with its primary key, whatever
    -- fails and in whatever order the processes run, what becomes of the row of a name is a run of
    -- moves of its lease, in which a lease is taken while it is free, renewed and freed by its holder,
    -- and taken over once it has been left alone for `stale`.
    pub leases_refined :
        (s t : Fleet)
        → IsKeyed s.table
        → ((i : ℕ) → IsPatient i (s.workers i).lock)
        → Reach latency s t
        → Run stale identity (book_of name s) (book_of name t)
    leases_refined s t keyed members r =
        (Reach-Run r (record { keyed = keyed; member = members })).1
