-- ===== src/JobLock/Outcomes.antt =====
-- What attemptAcquire, ping and release do to the row of the lock's name: to one's own row, and to
-- a row of another holder.
use elephantine.Prelude.{
  ℕ, ◌+◌, ◌≡◌, refl, ◌≢◌, ◌<◌, ◌≤◌, ◌^◌, ◌⊎◌, String, true, Option, none, some, arith, eq_iff,
  if◌then◌else◌,
}
use elephantine.Duration.{since-lt-false}
use elephantine.Fault
use elephantine.Fault.{Result, ok, err}
use elephantine.JobLock.Table.{
  JobLockRow, Table, get_job_lock, insert_job_lock, ping_job_lock, steal_job_lock, is_version,
  touch, is_held_by, release_job_lock,
}
use elephantine.JobLock.Lock.{
  JobLock, held, AcquireEnv, ExecEnv, Fate, done, attempt_acquire, ping, release,
}
use elephantine.JobLock.Queries.{
  IsKeyed, get-name, get-update_where, update_where-IsKeyed, get-delete_where_other,
  delete_where-IsKeyed, version-found,
}

-- SELECT … FOR UPDATE: a row that was read stays the row of its name until the transaction ends.
abbrev pub IsLocked : Option JobLockRow → Table → String → Type 0
IsLocked none table name = Unit {0}
IsLocked (some r) table name = get_job_lock table name ≡ some r

-- The row of `name`, if its holder is not `me`, stays, or it had been left alone for `stale` at the
-- time `now`.
abbrev pub Keeps : String → String → ℕ → ℕ → Table → Table → Type 0
Keeps name me stale now before after =
    (r : JobLockRow)
    → get_job_lock before name ≡ some r
    → r.holder ≢ me
    → (get_job_lock after name ≡ some r) ⊎ (r.touched + stale ≤ now)

-- `jl` holds the row of its name, which was touched at `time`.
abbrev pub IsOwn : JobLock → ℕ → Option JobLockRow → Type 0
IsOwn jl time none = ⊥
IsOwn jl time (some r) = (r.holder ≡ jl.identity) × (r.touched ≡ time)

abbrev pub Owns : JobLock → ℕ → Table → Type 0
Owns jl time table = IsOwn jl time (get_job_lock table jl.name)

-- An acquired lock is one's own, and a row is taken only when it is stale.
module _ (jl : JobLock) (env : AcquireEnv) where
  pub attempt_acquire-Keeps :
      (seen : Option JobLockRow) (table : Table)
      → IsLocked seen table jl.name
      → 0 < jl.stale_after
      → jl.stale_after < 2 ^ 63
      → Keeps jl.name jl.identity jl.stale_after env.checked_at table
          (attempt_acquire jl env seen table).1
  unfolding attempt_acquire insert_job_lock Fault.is
  attempt_acquire-Keeps none table locked pos small r h _ = ground arith
  attempt_acquire-Keeps (some x) table locked pos small r h _ =
      ground (arith, since-lt-false env.checked_at x.touched jl.stale_after)

  stolen-Owns :
      (x : JobLockRow) (table : Table)
      → get_job_lock table jl.name ≡ some x
      → Owns jl env.tx_now
          (steal_job_lock table jl.identity jl.name x.holder x.iteration env.tx_now).1
  unfolding steal_job_lock
  stolen-Owns x table h = ground (
    arith,
    get-update_where (is_version jl.name x.holder x.iteration)
        (λ (r : JobLockRow). record (touch env.tx_now r) { holder = jl.identity }) (λ r. refl) table
        jl.name,
    get-name table jl.name x h,
    eq_iff x.name jl.name,
    eq_iff x.holder x.holder,
  )

  pub attempt_acquire-Owns :
      (seen : Option JobLockRow) (table : Table)
      → IsLocked seen table jl.name
      → (attempt_acquire jl env seen table).0.is_ok ≡ true
      → Owns jl env.tx_now (attempt_acquire jl env seen table).1
        × ((attempt_acquire jl env seen table).0.ping ≡ env.pinged_at)
  unfolding attempt_acquire Fault.is insert_job_lock get_job_lock
  attempt_acquire-Owns none table locked h = ground (arith, eq_iff jl.name jl.name)
  attempt_acquire-Owns (some x) table locked h = ground (arith, stolen-Owns x table locked)

  pub attempt_acquire-IsKeyed :
      (seen : Option JobLockRow) (table : Table)
      → IsKeyed table
      → IsKeyed (attempt_acquire jl env seen table).1
  unfolding attempt_acquire Fault.is insert_job_lock steal_job_lock
  attempt_acquire-IsKeyed none table k = ground arith
  attempt_acquire-IsKeyed (some x) table k = ground (
    arith,
    update_where-IsKeyed (is_version jl.name x.holder x.iteration)
        (λ (r : JobLockRow). record (touch env.tx_now r) { holder = jl.identity }) (λ r. refl) table
        k,
  )

-- A ping.
module _ (jl : JobLock) (env : ExecEnv) (table : Table) where
  abbrev pub sent : ℕ × Table
  sent = ping_job_lock table jl.name jl.identity jl.iteration env.tx_now

  abbrev pub row_after : Option JobLockRow → Option JobLockRow
  row_after none = none
  row_after (some r) =
      some (if is_version jl.name jl.identity jl.iteration r then touch env.tx_now r else r)

  pub sent-row : get_job_lock sent.1 jl.name ≡ row_after (get_job_lock table jl.name)
  unfolding ping_job_lock
  sent-row = ground (
    arith,
    get-update_where (is_version jl.name jl.identity jl.iteration) (touch env.tx_now) (λ r. refl)
        table jl.name,
  )

  pub ping-Keeps :
      (r : JobLockRow)
      → get_job_lock table jl.name ≡ some r
      → r.holder ≢ jl.identity
      → get_job_lock (ping jl env table).2 jl.name ≡ some r
  unfolding ping
  ping-Keeps r h other = ground (arith, sent-row, eq_iff r.holder jl.identity)

  pub sent-Owns : IsKeyed table → sent.0 ≢ 0 → Owns jl env.tx_now sent.1
  unfolding ping_job_lock
  sent-Owns keyed some_row =
      let (r, found, mine, same) =
        version-found jl.name jl.identity jl.iteration (touch env.tx_now) table keyed some_row in
      ground (
        arith,
        sent-row,
        get-name table jl.name r found,
        eq_iff r.name jl.name,
        eq_iff r.holder jl.identity,
      )

  -- A confirmed ping leaves one's own row, touched now.
  pub ping-Owns :
      IsKeyed table
      → env.fate ≡ done
      → (ping jl env table).1 ≡ held
      → Owns jl env.tx_now (ping jl env table).2 × ((ping jl env table).0.last_ping ≡ env.pinged_at)
  unfolding ping
  ping-Owns keyed sure still = ground (arith, sent-Owns keyed)

  pub ping-IsKeyed : IsKeyed table → IsKeyed (ping jl env table).2
  unfolding ping ping_job_lock
  ping-IsKeyed k = ground (
    arith,
    update_where-IsKeyed (is_version jl.name jl.identity jl.iteration) (touch env.tx_now)
        (λ r. refl) table k,
  )

-- A release.
module _ (jl : JobLock) (fate : Fate) (table : Table) where
  pub release-Keeps :
      (r : JobLockRow)
      → get_job_lock table jl.name ≡ some r
      → r.holder ≢ jl.identity
      → get_job_lock (release jl fate table) jl.name ≡ some r
  unfolding release release_job_lock
  release-Keeps r h other = ground (
    arith,
    eq_iff r.holder jl.identity,
    get-delete_where_other (is_held_by jl.name jl.identity) table jl.name r h,
  )

  pub release-IsKeyed : IsKeyed table → IsKeyed (release jl fate table)
  unfolding release release_job_lock
  release-IsKeyed k = ground (arith, delete_where-IsKeyed (is_held_by jl.name jl.identity) table k)
