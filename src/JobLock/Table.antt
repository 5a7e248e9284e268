-- ===== src/JobLock/Table.antt =====
-- The table `job_lock` (pg/schema.sql) and the statements of pg/queries.sql, which
-- pg/postgres/queries.sql.go sends. `now` is the SQL function now() of the statement's transaction.
-- A bigint column is an unbounded number: an iteration grows by one at each renewal.
use elephantine.Prelude.{
  ℕ, ◌+◌, String, Bool, List, [], ◌∷◌, Option, none, some, ◌&&◌, str_eq, ◌==◌, if◌then◌else◌,
}

pub record JobLockRow : Type 0 where
  pub name : String
  pub holder : String
  pub touched : ℕ
  pub iteration : ℕ

abbrev pub Table : Type 0
Table = List JobLockRow

-- SELECT holder, touched, iteration … WHERE name = $1: the first row, `none` for no rows.
unfoldable pub get_job_lock : Table → String → Option JobLockRow
get_job_lock [] name = none
get_job_lock (r ∷ rs) name = if str_eq r.name name then some r else get_job_lock rs name

-- INSERT … VALUES ($1, $2, now(), 1) RETURNING iteration: `none` where the primary key is taken.
unfoldable pub insert_job_lock : Table → String → String → ℕ → Option (ℕ × Table)
insert_job_lock table name holder now = elim (get_job_lock table name) [
  | none ↦ some (1, record { name = name; holder = holder; touched = now; iteration = 1 } ∷ table)
  | some _ ↦ none
]

-- UPDATE … SET … WHERE …: the number of rows that match, and the table after.
abbrev pub update_where : (JobLockRow → Bool) → (JobLockRow → JobLockRow) → Table → ℕ × Table
update_where p f [] = (0, [])
update_where p f (r ∷ rs) =
    let rest = update_where p f rs in
    if p r then (rest.0 + 1, f r ∷ rest.1) else (rest.0, r ∷ rest.1)

abbrev pub delete_where : (JobLockRow → Bool) → Table → ℕ × Table
delete_where p [] = (0, [])
delete_where p (r ∷ rs) =
    let rest = delete_where p rs in if p r then (rest.0 + 1, rest.1) else (rest.0, r ∷ rest.1)

abbrev pub is_version : String → String → ℕ → JobLockRow → Bool
is_version name holder iteration r =
    str_eq r.name name && (str_eq r.holder holder && r.iteration == iteration)

abbrev pub is_held_by : String → String → JobLockRow → Bool
is_held_by name holder r = str_eq r.name name && str_eq r.holder holder

abbrev pub touch : ℕ → JobLockRow → JobLockRow
touch now r = record r { touched = now; iteration = r.iteration + 1 }

unfoldable pub ping_job_lock : Table → String → String → ℕ → ℕ → ℕ × Table
ping_job_lock table name holder iteration now =
    update_where (is_version name holder iteration) (touch now) table

unfoldable pub steal_job_lock : Table → String → String → String → ℕ → ℕ → ℕ × Table
steal_job_lock table new_holder name previous_holder iteration now =
    update_where (is_version name previous_holder iteration)
      (λ r. record (touch now r) { holder = new_holder }) table

unfoldable pub release_job_lock : Table → String → String → ℕ × Table
release_job_lock table name holder = delete_where (is_held_by name holder) table
