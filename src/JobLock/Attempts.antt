-- ===== src/JobLock/Attempts.antt =====
-- When a request to the database takes, renews or frees the lock, for a table with its primary key
-- and requests that do not fail.
use elephantine.Prelude.{
  ℕ, ◌+◌, ◌^◌, ◌<◌, ◌≡◌, ◌≢◌, ◌⊎◌, ◌↔◌, inl, inr, refl, String, Bool, true, false, [], ◌∷◌, Option,
  none, some, arith, eq_iff, Option-cases, Bool-cases, ◌==◌, if◌then◌else◌, str_eq,
}
use elephantine.Duration.{lt, since}
use elephantine.Fault
use elephantine.JobLock.Table.{
  JobLockRow, Table, get_job_lock, insert_job_lock, steal_job_lock, ping_job_lock, release_job_lock,
  is_version, is_held_by, touch, delete_where, update_where,
}
use elephantine.JobLock.Lock.{
  JobLock, AcquireEnv, ExecEnv, done, held, lost, attempt_acquire, ping, release,
}
use elephantine.JobLock.Queries.{IsKeyed, version-found, get-name, get-delete_where-none}
use elephantine.JobLock.Outcomes.{sent, sent-row}

-- The row of the lock's name is free to take: there is none, or it is stale at the time `now`.
abbrev pub IsFree : JobLock → ℕ → Option JobLockRow → Type 0
IsFree jl now none = Unit {0}
IsFree jl now (some r) = lt (since now r.touched) jl.stale_after ≡ false

abbrev pub NoFailure : AcquireEnv → Type 0
NoFailure env =
    (env.begin_error ≡ none)
    × (env.get_error ≡ none)
    × (env.write_error ≡ none)
    × (env.commit ≡ done)

version_some :
    (name : String) (x : JobLockRow) (f : JobLockRow → JobLockRow) (table : Table)
    → get_job_lock table name ≡ some x
    → (update_where (is_version name x.holder x.iteration) f table).0 ≢ 0
unfolding get_job_lock
version_some name x f [] h = cc
version_some name x f (r ∷ rs) h =
    ground (arith, version_some name x f rs, eq_iff r.name name, eq_iff x.holder x.holder)

-- An attempt whose requests do not fail acquires the lock exactly when no row has its name, or when
-- the row has not been touched for `StaleAfter`; and if it does not acquire the lock, it leaves the
-- table as it was.
pub attempt_acquire_iff :
    (jl : JobLock) (env : AcquireEnv) (table : Table)
    → NoFailure env
    → let result = attempt_acquire jl env (get_job_lock table jl.name) table in
      ((result.0.is_ok ≡ true) ↔ IsFree jl env.checked_at (get_job_lock table jl.name))
      × (result.0.is_ok ≡ false → result.1 ≡ table)
unfolding attempt_acquire insert_job_lock Fault.is steal_job_lock
attempt_acquire_iff jl env table fine = elim (Option-cases (get_job_lock table jl.name)) [
  | inl absent ↦ ground arith
  | inr (x, found) ↦ ground (
    arith,
    version_some jl.name x
        (λ (r : JobLockRow). record (touch env.tx_now r) { holder = jl.identity }) table found,
  )
]

untouched :
    (p : JobLockRow → Bool) (f : JobLockRow → JobLockRow) (t : Table)
    → (update_where p f t).0 ≡ 0
    → (update_where p f t).1 ≡ t
untouched p f [] h = refl
untouched p f (r ∷ rs) h = ground (arith, untouched p f rs)

-- Once another process has taken the row over, or the iteration is not the one that the lock
-- remembers, a ping that reaches the database, whose table keeps its primary key, changes nothing
-- there and reports the lock as lost.
pub ping_stolen :
    (jl : JobLock) (env : ExecEnv) (table : Table) (r : JobLockRow)
    → IsKeyed table
    → env.fate ≡ done
    → get_job_lock table jl.name ≡ some r
    → (r.holder ≢ jl.identity) ⊎ (r.iteration ≢ jl.iteration)
    → ping jl env table ≡ (jl, lost, table)
unfolding ping ping_job_lock
ping_stolen jl env table r keyed sure found other = elim (Bool-cases ((sent jl env table).0 == 0)) [
  | inl missed ↦
      ground
        (arith, untouched (is_version jl.name jl.identity jl.iteration) (touch env.tx_now) table)
  | inr hit ↦
      let (x, read, own, same) =
        version-found jl.name jl.identity jl.iteration (touch env.tx_now) table keyed
          (ground arith) in
      ground arith
]

-- A ping that reaches the row that the lock remembers keeps lock and row in step: both move on to
-- the next iteration (below 2^63, where bigint ends), and the row stays this process's.
pub ping_renews :
    (jl : JobLock) (env : ExecEnv) (table : Table) (r : JobLockRow)
    → env.fate ≡ done
    → get_job_lock table jl.name ≡ some r
    → r.holder ≡ jl.identity
    → r.iteration ≡ jl.iteration
    → jl.iteration + 1 < 2 ^ 63
    → let result = ping jl env table in
      (result.1 ≡ held)
      × (get_job_lock result.2 jl.name
          ≡ some (record r { touched = env.tx_now; iteration = result.0.iteration }))
      × (result.0.last_ping ≡ env.pinged_at)
unfolding ping ping_job_lock
ping_renews jl env table r sure found own same small = ground (
  arith,
  version_some jl.name r (touch env.tx_now) table found,
  sent-row jl env table,
  get-name table jl.name r found,
  eq_iff r.name jl.name,
  eq_iff r.holder jl.identity,
)

-- What a release leaves of the row of its name.
abbrev pub others : String → Option JobLockRow → Option JobLockRow
others holder none = none
others holder (some r) = if str_eq r.holder holder then none else some r

delete-none :
    (name holder : String) (t : Table)
    → get_job_lock t name ≡ none
    → get_job_lock (delete_where (is_held_by name holder) t).1 name ≡ none
delete-none name holder t h = get-delete_where-none (is_held_by name holder) t name h

pub delete-row :
    (name holder other : String) (t : Table)
    → IsKeyed t
    → get_job_lock (delete_where (is_held_by name holder) t).1 other
      ≡ (if str_eq name other then others holder (get_job_lock t other) else get_job_lock t other)
unfolding get_job_lock
delete-row name holder other [] keyed = ground arith
delete-row name holder other (r ∷ rs) (absent, keyed) = ground (
  arith,
  delete-row name holder other rs keyed,
  eq_iff r.name name,
  eq_iff r.name other,
  eq_iff name other,
  delete-none name holder rs,
)

-- A release by the lock's holder that reaches the database, whose table keeps its primary key,
-- deletes the row of the lock's name if it is this process's, and neither another process's row of
-- that name nor the row of another name.
pub release_frees :
    (jl : JobLock) (table : Table) (name : String)
    → IsKeyed table
    → jl.state ≡ held
    → get_job_lock (release jl done table) name ≡ (
        if str_eq jl.name name
        then others jl.identity (get_job_lock table name)
        else get_job_lock table name)
unfolding release release_job_lock
release_frees jl table name keyed on =
    ground (arith, delete-row jl.name jl.identity name table keyed)
