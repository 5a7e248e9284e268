-- ===== src/JobLock/Lease.antt =====
-- What the table promises for one name: a lease, which is free, or held by one process under an
-- iteration. This is the abstract view of the rows of job_lock (pg/schema.sql), without the processes'
-- own notions, the requests and the failures.
use elephantine.Prelude.{ℕ, ◌+◌, ◌≤◌, ◌≡◌, String, Option, none, some}

pub record Lease : Type 0 where
  pub holder : String
  pub touched : ℕ
  pub iteration : ℕ

pub record Book : Type 0 where
  pub lease : Option Lease
  pub now : ℕ

-- What the process `me` may do, where `stale` is how long a lease is to be left alone.
pub data Move (stale : ℕ) (me : String) (b : Book) : Book → Type 0 where
  take :
      (at : ℕ)
      → b.lease ≡ none
      → Move stale me b
          (record b { lease = some (record { holder = me; touched = at; iteration = 1 }) })
  renew :
      (l : Lease) (at : ℕ)
      → b.lease ≡ some l
      → l.holder ≡ me
      → Move stale me b
          (record b { lease = some (record l { touched = at; iteration = l.iteration + 1 }) })
  take_over :
      (l : Lease) (at : ℕ)
      → b.lease ≡ some l
      → l.touched + stale ≤ b.now
      → Move stale me b (record b {
        lease = some (record { holder = me; touched = at; iteration = l.iteration + 1 });
      })
  free :
      (l : Lease) → b.lease ≡ some l → l.holder ≡ me → Move stale me b (record b { lease = none })

-- The processes are numbered, and `identity` names them.
pub data Run (stale : ℕ) (identity : ℕ → String) (b : Book) : Book → Type 0 where
  here : Run stale identity b b
  pass :
      {c : Book} (later : ℕ)
      → Run stale identity b c
      → c.now ≤ later
      → Run stale identity b (record c { now = later })
  move :
      {c d : Book} (i : ℕ)
      → Run stale identity b c
      → Move stale (identity i) c d
      → Run stale identity b d
