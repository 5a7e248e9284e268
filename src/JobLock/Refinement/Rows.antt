-- ===== src/JobLock/Refinement/Rows.antt =====
-- What the calls of `Lock` do to the rows of the table, as the moves of `Lease` have it.
use elephantine.Prelude.{
  ℕ, ◌+◌, ◌≤◌, ◌<◌, ◌^◌, ◌≡◌, ◌⊎◌, inl, inr, refl, sym, String, Option, none, some, arith,
  Option-cases, Bool-cases, eq_iff, str_eq,
}
use elephantine.Duration.{since-lt-false}
use elephantine.Fault
use elephantine.JobLock.Table.{
  JobLockRow, Table, get_job_lock, insert_job_lock, ping_job_lock, steal_job_lock, release_job_lock,
  is_version, touch,
}
use elephantine.JobLock.Lock.{JobLock, AcquireEnv, ExecEnv, Fate, attempt_acquire, ping, release}
use elephantine.JobLock.Loop.{Worker, TurnEnv, turn, finish}
use elephantine.JobLock.Queries.{IsKeyed, get-name, get-update_where}
use elephantine.JobLock.Outcomes.{IsLocked}
use elephantine.JobLock.Attempts.{delete-row}

-- A row stays as it was, or one move leads from it to the row after.
abbrev pub Moves : ℕ → String → ℕ → Option JobLockRow → Option JobLockRow → Type 0
Moves stale me now none none = Unit {0}
Moves stale me now none (some s) = (s.holder ≡ me) × (s.iteration ≡ 1)
Moves stale me now (some r) none = r.holder ≡ me
Moves stale me now (some r) (some s) =
    (s ≡ r)
    ⊎ ((s.holder ≡ me)
        × (s.iteration ≡ r.iteration + 1)
        × ((r.holder ≡ me) ⊎ (r.touched + stale ≤ now)))

Moves-refl : (stale : ℕ) (me : String) (now : ℕ) (r : Option JobLockRow) → Moves stale me now r r
Moves-refl stale me now none = tt
Moves-refl stale me now (some r) = inl refl

-- What an update of the rows of one name does to the row of another.
module _ (jl : JobLock) (name : String) where
  steal-Moves :
      (env : AcquireEnv) (x : JobLockRow) (table : Table) (stale now : ℕ)
      → get_job_lock table jl.name ≡ some x
      → x.touched + stale ≤ now
      → Moves stale jl.identity now (get_job_lock table name) (
          get_job_lock
            (steal_job_lock table jl.identity jl.name x.holder x.iteration env.tx_now).1
            name)
  unfolding steal_job_lock
  steal-Moves env x table stale now found old = elim (Option-cases (get_job_lock table name)) [
    | inl absent ↦ ground (
      arith,
      get-update_where (is_version jl.name x.holder x.iteration)
          (λ (r : JobLockRow). record (touch env.tx_now r) { holder = jl.identity }) (λ r. refl)
          table name,
    )
    | inr (r, there) ↦ ground (
      arith,
      get-update_where (is_version jl.name x.holder x.iteration)
          (λ (r : JobLockRow). record (touch env.tx_now r) { holder = jl.identity }) (λ r. refl)
          table name,
      get-name table name r there,
      eq_iff r.name jl.name,
      eq_iff r.holder x.holder,
    )
  ]

  insert-Moves :
      (table after : Table) (iteration tx_now stale now : ℕ)
      → insert_job_lock table jl.name jl.identity tx_now ≡ some (iteration, after)
      → Moves stale jl.identity now (get_job_lock table name) (get_job_lock after name)
  unfolding insert_job_lock get_job_lock
  insert-Moves table after iteration tx_now stale now h =
      elim (Option-cases (get_job_lock table jl.name)) [
        | inr (r, there) ↦ ground arith
        | inl absent ↦ elim (Bool-cases (str_eq jl.name name)) [
          | inr other ↦ ground (arith, Moves-refl stale jl.identity now (get_job_lock table name))
          | inl same ↦
              let none_yet : get_job_lock table name ≡ none =
                rw (sym ((eq_iff jl.name name).0 same)) absent in
              ground arith
        ]
      ]

  insert-taken :
      (table : Table) (x : JobLockRow) (tx_now : ℕ)
      → get_job_lock table jl.name ≡ some x
      → insert_job_lock table jl.name jl.identity tx_now ≡ none
  unfolding insert_job_lock
  insert-taken table x tx_now there = ground arith

  attempt_acquire-Moves :
      (env : AcquireEnv) (seen : Option JobLockRow) (table : Table)
      → IsLocked seen table jl.name
      → 0 < jl.stale_after
      → jl.stale_after < 2 ^ 63
      → Moves jl.stale_after jl.identity env.checked_at
          (get_job_lock table name)
          (get_job_lock (attempt_acquire jl env seen table).1 name)
  unfolding attempt_acquire Fault.is
  attempt_acquire-Moves env none table locked pos small =
      let stays = Moves-refl jl.stale_after jl.identity env.checked_at (get_job_lock table name) in
      elim (Option-cases (insert_job_lock table jl.name jl.identity env.tx_now)) [
        | inl taken ↦ ground arith
        | inr ((iteration, after), new) ↦
            ground (
              arith,
              insert-Moves table after iteration env.tx_now jl.stale_after env.checked_at new,
            )
      ]
  attempt_acquire-Moves env (some x) table locked pos small =
      let stays = Moves-refl jl.stale_after jl.identity env.checked_at (get_job_lock table name) in
      ground (
        arith,
        steal-Moves env x table jl.stale_after env.checked_at locked,
        since-lt-false env.checked_at x.touched jl.stale_after pos small,
        insert-taken table x env.tx_now locked,
      )

  ping-Moves :
      (env : ExecEnv) (table : Table) (stale now : ℕ)
      → Moves stale jl.identity now
          (get_job_lock table name)
          (get_job_lock (ping jl env table).2 name)
  unfolding ping ping_job_lock
  ping-Moves env table stale now = elim (Option-cases (get_job_lock table name)) [
    | inl absent ↦ ground (
      arith,
      get-update_where (is_version jl.name jl.identity jl.iteration) (touch env.tx_now) (λ r. refl)
          table name,
    )
    | inr (r, there) ↦ ground (
      arith,
      get-update_where (is_version jl.name jl.identity jl.iteration) (touch env.tx_now) (λ r. refl)
          table name,
      get-name table name r there,
      eq_iff r.holder jl.identity,
    )
  ]

  release-Moves :
      (fate : Fate) (table : Table) (stale now : ℕ)
      → IsKeyed table
      → Moves stale jl.identity now
          (get_job_lock table name)
          (get_job_lock (release jl fate table) name)
  unfolding release release_job_lock
  release-Moves fate table stale now keyed = elim (Option-cases (get_job_lock table name)) [
    | inl absent ↦ ground (arith, delete-row jl.name jl.identity name table keyed)
    | inr (r, there) ↦
        ground (arith, delete-row jl.name jl.identity name table keyed, eq_iff r.holder jl.identity)
  ]

Moves-mono :
    (stale long : ℕ) (me : String) (now later : ℕ) (r s : Option JobLockRow)
    → stale ≤ long
    → now ≤ later
    → Moves long me now r s
    → Moves stale me later r s
Moves-mono stale long me now later none none le le' m = tt
Moves-mono stale long me now later none (some s) le le' m = m
Moves-mono stale long me now later (some r) none le le' m = m
Moves-mono stale long me now later (some r) (some s) le le' m = ground arith

pub turn-Moves :
    (stale : ℕ) (name : String) (env : TurnEnv) (w : Worker) (table : Table) (later : ℕ)
    → 0 < stale
    → stale ≤ w.lock.stale_after
    → w.lock.stale_after < 2 ^ 63
    → env.acquire.checked_at ≤ later
    → IsLocked env.seen table w.lock.name
    → Moves stale w.lock.identity later
        (get_job_lock table name)
        (get_job_lock (turn env w table).1 name)
unfolding turn
turn-Moves stale name env w table later pos le small timely locked =
    let row = get_job_lock table name in
    let stays = Moves-refl stale w.lock.identity later row in
    let pinged = ping-Moves w.lock name env.exec table stale later in
    let tried =
      Moves-mono stale w.lock.stale_after w.lock.identity env.acquire.checked_at later row
        (get_job_lock (attempt_acquire w.lock env.acquire env.seen table).1 name) le timely
        (attempt_acquire-Moves w.lock name env.acquire env.seen table locked (omega arith) small) in
    ground arith

pub finish-Moves :
    (stale : ℕ) (name : String) (fate : Fate) (w : Worker) (table : Table) (now : ℕ)
    → IsKeyed table
    → Moves stale w.lock.identity now
        (get_job_lock table name)
        (get_job_lock (finish fate w table).1 name)
unfolding finish
finish-Moves stale name fate w table now keyed =
    release-Moves w.lock name fate table stale now keyed
