-- ===== src/JobLock/Exclusion/Steps.antt =====
-- The invariant of a fleet whose processes compete for one name, and what it says.
use elephantine.Prelude.{ℕ, ◌≤◌, ◌<◌, ◌^◌, ◌≡◌, ◌≢◌, inl, refl, sym, ◌∙◌, String, arith}
use elephantine.JobLock.Table.{Table}
use elephantine.JobLock.Lock.{JobLock, Fate, ping}
use elephantine.JobLock.Loop.{Worker, Phase, TurnEnv, turn, finish, polling, waiting, leaving}
use native.Mathlib.Nat.{le_refl}
use elephantine.JobLock.Queries.{IsKeyed}
use elephantine.JobLock.Outcomes.{
  IsLocked, Keeps, attempt_acquire-Keeps, attempt_acquire-IsKeyed, ping-Keeps, ping-IsKeyed,
  release-Keeps, release-IsKeyed,
}
use elephantine.JobLock.Fleet.{
  Fleet, Step, take_turn, wake, abort, leave, receive, pass, Reach, here, next, update, update-All,
}
use elephantine.JobLock.Exclusion.Claims.{IsSound, Keeps-Claim, turn-IsSound}

-- What a turn and a release leave as it was.
pub record IsSameLock (a b : JobLock) : Type 0 where
  pub name : a.name ≡ b.name
  pub identity : a.identity ≡ b.identity
  pub stale_after : a.stale_after ≡ b.stale_after

pub turn-IsSameLock :
    (env : TurnEnv) (w : Worker) (table : Table) → IsSameLock (turn env w table).0.lock w.lock
unfolding turn ping
turn-IsSameLock env w table = ground arith

pub turn-IsKeyed :
    (env : TurnEnv) (w : Worker) (table : Table) → IsKeyed table → IsKeyed (turn env w table).1
unfolding turn
turn-IsKeyed env w table k = ground (
  arith,
  attempt_acquire-IsKeyed w.lock env.acquire env.seen table,
  ping-IsKeyed w.lock env.exec table,
)

turn-Keeps :
    (stale : ℕ) (env : TurnEnv) (w : Worker) (table : Table) (later : ℕ)
    → 0 < stale
    → stale ≤ w.lock.stale_after
    → w.lock.stale_after < 2 ^ 63
    → env.acquire.checked_at ≤ later
    → IsLocked env.seen table w.lock.name
    → Keeps w.lock.name w.lock.identity stale later table (turn env w table).1
unfolding turn
turn-Keeps stale env w table later pos le small timely locked r found other = ground (
  arith,
  attempt_acquire-Keeps w.lock env.acquire env.seen table locked (omega arith) small r found other,
  ping-Keeps w.lock env.exec table r found other,
)

pub same_lock : {a : JobLock} → IsSameLock a a
same_lock = record { name = refl; identity = refl; stale_after = refl }

pub finish-IsSameLock :
    (fate : Fate) (w : Worker) (table : Table) → IsSameLock (finish fate w table).0.lock w.lock
unfolding finish
finish-IsSameLock fate w table = same_lock

pub finish-IsKeyed :
    (fate : Fate) (w : Worker) (table : Table) → IsKeyed table → IsKeyed (finish fate w table).1
unfolding finish
finish-IsKeyed fate w table k = release-IsKeyed w.lock fate table k

finish-Keeps :
    (stale later : ℕ) (fate : Fate) (w : Worker) (table : Table)
    → Keeps w.lock.name w.lock.identity stale later table (finish fate w table).1
unfolding finish
finish-Keeps stale later fate w table r found other =
    inl (release-Keeps w.lock fate table r found other)

module _ {latency stale : ℕ} where
  finish-IsSound :
      (fate : Fate) (w : Worker) (table : Table) {later : ℕ}
      → IsSound latency stale later (finish fate w table).0 (finish fate w table).1
  unfolding finish
  finish-IsSound fate w table = ground arith

  phase-IsSound :
      (now : ℕ) (w : Worker) (phase : Phase) (table : Table)
      → (timer : ℕ) → w.phase ≡ waiting timer
      → IsSound latency stale now w table
      → IsSound latency stale now (record w { phase = phase }) table
  phase-IsSound now w phase table timer at sound = ground arith

  later-IsSound :
      (w : Worker) (table : Table) (now later : ℕ)
      → now ≤ later
      → IsSound latency stale now w table
      → IsSound latency stale later w table
  later-IsSound w table now later le sound = ground arith

module _ (name : String) (identity : ℕ → String) (stale : ℕ) where
  -- The processes use one name, identities of their own, and no shorter `StaleAfter` than `stale`.
  pub record IsMember (i : ℕ) (jl : JobLock) : Type 0 where
    pub same_name : jl.name ≡ name
    pub own_identity : jl.identity ≡ identity i
    pub patient : stale ≤ jl.stale_after
    pub small : jl.stale_after < 2 ^ 63

  IsMember-same : {i : ℕ} {a b : JobLock} → IsSameLock a b → IsMember i b → IsMember i a
  IsMember-same same m = ground arith

module _ (name : String) (identity : ℕ → String) (latency stale : ℕ) where
  pub record Inv (s : Fleet) : Type 0 where
    pub keyed : IsKeyed s.table
    pub member : (i : ℕ) → IsMember name identity stale i (s.workers i).lock
    pub sound : (i : ℕ) → IsSound latency stale s.now (s.workers i) s.table

  module _ (pos : 0 < stale) (distinct : (i j : ℕ) → identity i ≡ identity j → i ≡ j) where
    -- A move of process `i` that keeps the rows of others keeps what is known of process `j`.
    other-IsSound :
        (i j now later : ℕ) (v : JobLock) (u : Worker) (before after : Table)
        → i ≢ j
        → IsMember name identity stale i v
        → IsMember name identity stale j u.lock
        → now ≤ later
        → Keeps v.name v.identity stale later before after
        → IsSound latency stale now u before
        → IsSound latency stale later u after
    other-IsSound i j now later v u before after ne mi mj le keeps sound = record {
      claimed = λ h.
          Keeps-Claim latency stale u.lock v.identity now later before after
            (rw (mj.same_name, ← mi.same_name) keeps)
            (λ e. ne (distinct i j (sym mi.own_identity ∙ sym e ∙ mj.own_identity))) le
            (sound.claimed h);
      synced = sound.synced;
    }

    move-Inv :
        (s : Fleet) (i : ℕ) (w : Worker) (after : Table) (later : ℕ)
        → s.now ≤ later
        → IsSameLock w.lock (s.workers i).lock
        → IsKeyed after
        → Keeps (s.workers i).lock.name (s.workers i).lock.identity stale later s.table after
        → IsSound latency stale later w after
        → Inv s
        → Inv (record { workers = update s.workers i w; table = after; now = later })
    move-Inv s i w after later le same keyed keeps sound inv = record {
      keyed = keyed;
      member =
          update-All (λ j u. IsMember name identity stale j u.lock) s.workers i w
            (IsMember-same name identity stale same (inv.member i)) (λ j ne. inv.member j);
      sound =
          update-All (λ j u. IsSound latency stale later u after) s.workers i w sound
            (λ j ne.
              other-IsSound i j s.now later (s.workers i).lock (s.workers j) s.table after ne
                (inv.member i) (inv.member j) le keeps (inv.sound j));
    }

    pub Step-Inv : {s t : Fleet} → Step latency s t → Inv s → Inv t
    Step-Inv {s} (take_turn i env later at le timely locked) inv =
        let w = s.workers i in
        move-Inv s i (turn env w s.table).0 (turn env w s.table).1 later le
          (turn-IsSameLock env w s.table) (turn-IsKeyed env w s.table inv.keyed)
          (turn-Keeps stale env w s.table later pos (inv.member i).patient (inv.member i).small
            timely.checked locked)
          (turn-IsSound latency stale env w s.table s.now later at le inv.keyed timely locked
            (inv.sound i))
          inv
    Step-Inv {s} (wake i timer at) inv =
        move-Inv s i _ s.table s.now (le_refl _) same_lock inv.keyed (λ r h ne. inl h)
          (phase-IsSound s.now (s.workers i) polling s.table timer at (inv.sound i)) inv
    Step-Inv {s} (abort i timer at) inv =
        move-Inv s i _ s.table s.now (le_refl _) same_lock inv.keyed (λ r h ne. inl h)
          (phase-IsSound s.now (s.workers i) leaving s.table timer at (inv.sound i)) inv
    Step-Inv {s} (leave i fate at) inv =
        move-Inv s i (finish fate (s.workers i) s.table).0 (finish fate (s.workers i) s.table).1
          s.now (le_refl _) (finish-IsSameLock fate (s.workers i) s.table)
          (finish-IsKeyed fate (s.workers i) s.table inv.keyed)
          (finish-Keeps stale s.now fate (s.workers i) s.table)
          (finish-IsSound fate (s.workers i) s.table) inv
    Step-Inv {s} (receive i) inv =
        move-Inv s i _ s.table s.now (le_refl _) same_lock inv.keyed (λ r h ne. inl h)
          (record { claimed = (inv.sound i).claimed; synced = (inv.sound i).synced }) inv
    Step-Inv {s} (pass later le) inv = record {
      keyed = inv.keyed;
      member = inv.member;
      sound = λ i. later-IsSound (s.workers i) s.table s.now later le (inv.sound i);
    }

    pub Reach-Inv : {s t : Fleet} → Inv s → Reach latency s t → Inv t
    Reach-Inv inv here = inv
    Reach-Inv inv (next r step) = Step-Inv step (Reach-Inv inv r)
