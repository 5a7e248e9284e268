-- ===== src/JobLock/Queries.antt =====
-- What the statements of `Table` do to the row of a name, and to the table's primary key.
use elephantine.Prelude.{
  ℕ, ◌≡◌, refl, ◌≢◌, String, Bool, false, [], ◌∷◌, Option, none, some, arith, eq_iff, str_eq,
  if◌then◌else◌, Bool-cases, inl, inr,
}
use elephantine.JobLock.Table.{
  JobLockRow, Table, get_job_lock, update_where, delete_where, is_version,
}

-- The primary key: no two rows have one name.
abbrev pub IsKeyed : Table → Type 0
IsKeyed [] = Unit
IsKeyed (r ∷ rs) = (get_job_lock rs r.name ≡ none) × IsKeyed rs

pub get-name :
    (t : Table) (name : String) (r : JobLockRow) → get_job_lock t name ≡ some r → r.name ≡ name
unfolding get_job_lock
get-name [] name r h = cc
get-name (x ∷ xs) name r h = ground (arith, eq_iff x.name name, get-name xs name r)

abbrev changed :
    (JobLockRow → Bool) → (JobLockRow → JobLockRow) → Option JobLockRow → Option JobLockRow
changed p f none = none
changed p f (some r) = some (if p r then f r else r)

module _ (p : JobLockRow → Bool) (f : JobLockRow → JobLockRow)
    (same_name : (r : JobLockRow) → (f r).name ≡ r.name) where
  pub get-update_where :
      (t : Table) (name : String)
      → get_job_lock (update_where p f t).1 name ≡ changed p f (get_job_lock t name)
  unfolding get_job_lock
  get-update_where [] name = refl
  get-update_where (x ∷ xs) name = ground (arith, same_name x, get-update_where xs name)

  pub update_where-IsKeyed : (t : Table) → IsKeyed t → IsKeyed (update_where p f t).1
  unfolding get_job_lock
  update_where-IsKeyed [] h = tt
  update_where-IsKeyed (x ∷ xs) (h, hs) = ground (
    arith,
    same_name x,
    get-update_where xs x.name,
    get-update_where xs (f x).name,
    update_where-IsKeyed xs hs,
  )

module _ (p : JobLockRow → Bool) where
  pub get-delete_where_other :
      (t : Table) (name : String) (r : JobLockRow)
      → get_job_lock t name ≡ some r
      → p r ≡ false
      → get_job_lock (delete_where p t).1 name ≡ some r
  unfolding get_job_lock
  get-delete_where_other [] name r h k = cc
  get-delete_where_other (x ∷ xs) name r h k = ground (arith, get-delete_where_other xs name r)

  pub get-delete_where-none :
      (t : Table) (name : String)
      → get_job_lock t name ≡ none
      → get_job_lock (delete_where p t).1 name ≡ none
  unfolding get_job_lock
  get-delete_where-none [] name h = refl
  get-delete_where-none (x ∷ xs) name h = ground (arith, get-delete_where-none xs name)

  pub delete_where-IsKeyed : (t : Table) → IsKeyed t → IsKeyed (delete_where p t).1
  delete_where-IsKeyed [] h = tt
  delete_where-IsKeyed (x ∷ xs) (h, hs) =
      ground (arith, get-delete_where-none xs x.name h, delete_where-IsKeyed xs hs)

-- An update of one version of a row affects no table that has no row of the name.
version-none :
    (name holder : String) (iteration : ℕ) (f : JobLockRow → JobLockRow) (t : Table)
    → get_job_lock t name ≡ none
    → (update_where (is_version name holder iteration) f t).0 ≡ 0
unfolding get_job_lock
version-none name holder iteration f [] h = refl
version-none name holder iteration f (x ∷ xs) h =
    ground (arith, version-none name holder iteration f xs)

-- With the primary key, a row that was affected is the row of the name.
pub version-found :
    (name holder : String) (iteration : ℕ) (f : JobLockRow → JobLockRow) (t : Table)
    → IsKeyed t
    → (update_where (is_version name holder iteration) f t).0 ≢ 0
    → (r : JobLockRow) × (get_job_lock t name ≡ some r)
      × (r.holder ≡ holder)
      × (r.iteration ≡ iteration)
unfolding get_job_lock
version-found name holder iteration f [] h k = absurd (k refl)
version-found name holder iteration f (x ∷ xs) (h, hs) k = elim (Bool-cases (str_eq x.name name)) [
  | inl here ↦
      let e : x.name ≡ name = (eq_iff x.name name).0 here in
      (
        x,
        rw here,
        ground (arith, eq_iff x.holder holder, here, version-none name holder iteration f xs),
        ground (arith, here, version-none name holder iteration f xs),
      )
  | inr there ↦
      let (r, found, mine, same) = version-found name holder iteration f xs hs (ground arith) in
      (r, rw there found, mine, same)
]
