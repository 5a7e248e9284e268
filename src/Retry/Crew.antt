-- ===== src/Retry/Crew.antt =====
-- ErrGroup (errgroup.go): the tasks of Go and GoWithRetries in one group of the package errgroup, in any
-- order of their attempts. The task's name stands in the errors.
use elephantine.Prelude.{
  ℕ, suc, ◌≡◌, String, Bool, true, false, ◌||◌, List, [], ◌∷◌, ◌++◌, Option, none, some, is_some,
}
use elephantine.Prelude.Lists.{All}
use elephantine.Fault.{Fault}
use elephantine.Retry.{Attempt, Progress, Outcome, succeeded, cancelled, gave_up, going, round}
use elephantine.Server.Group.{GroupPackage}

-- Whether the task was started by Go or by GoWithRetries.
pub data Kind : Type 0 where
  once : Kind
  retried : (max_retries reset_after : ℕ) → Kind

-- In an attempt, in the select after a failure, or with what its function has returned.
pub data Phase : Type 0 where
  attempting waiting : Progress → Phase
  ended : Option Fault → Phase

pub record Task : Type 0 where
  pub name : String
  pub kind : Kind
  pub phase : Phase

abbrev pub after_round : String → Outcome → Phase
after_round name succeeded = ended none
after_round name (cancelled c) = ended (some (Fault.wrap name c))
after_round name (gave_up tries e) = ended (some (Fault.wrap name e))
after_round name (going p) = waiting p

-- Once an attempt has returned: what Go does, and the loop of GoWithRetries up to its wait.
unfoldable pub attempted : String → Kind → Progress → Attempt → Phase
unfolding round
attempted name once p a = elim a.error [
  | none ↦ ended none
  | some e ↦ ended (some (Fault.wrap name e))
]
attempted name (retried max_retries reset_after) p a =
    after_round name (round max_retries reset_after p (record a { cancelled_waiting = none }))

abbrev pub has_ended : Phase → Bool
has_ended (ended out) = true
has_ended (attempting p) = false
has_ended (waiting p) = false

abbrev pub HaveEnded : List Task → Type 0
HaveEnded tasks = All (λ (t : Task). has_ended t.phase ≡ true) tasks

module _ (grp : GroupPackage) where
  open grp use {Group, new, is_cancelled, wait}

  pub record ErrGroup : Type 0 where
    pub group : Group
    pub parent_done : Bool
    pub tasks : List Task
    -- Wait has returned.
    pub waited : Bool

  unfoldable pub new_err_group : Bool → ErrGroup
  new_err_group parent_done = record {
    group = new;
    parent_done = parent_done;
    tasks = [];
    waited = false;
  }

  -- Whether gCtx is cancelled: with its parent, or by the group.
  abbrev pub is_done : ErrGroup → Bool
  is_done eg = eg.parent_done || is_cancelled eg.group

  -- A function that returns is told to the group.
  abbrev pub told : Phase → Group → Group
  told (ended out) g = grp.finish g out
  told (attempting p) g = g
  told (waiting p) g = g

  -- The task is replaced where it stands.
  abbrev pub turned : List Task → Task → List Task → ErrGroup → ErrGroup
  turned before t later eg = record eg {
    group = told t.phase eg.group;
    tasks = before ++ t ∷ later;
  }

  pub data Step (eg : ErrGroup) : ErrGroup → Type 0 where
    attempt :
        (before later : List Task) (t : Task) (p : Progress) (a : Attempt)
        → eg.tasks ≡ before ++ t ∷ later
        → t.phase ≡ attempting p
        → is_some a.cancelled ≡ is_done eg
        → Step eg (turned before (record t { phase = attempted t.name t.kind p a }) later eg)
    -- The select: the timer, or the group's context.
    restart :
        (before later : List Task) (t : Task) (p : Progress)
        → eg.tasks ≡ before ++ t ∷ later
        → t.phase ≡ waiting p
        → Step eg (turned before (record t { phase = attempting p }) later eg)
    interrupt :
        (before later : List Task) (t : Task) (p : Progress) (e : Fault)
        → eg.tasks ≡ before ++ t ∷ later
        → t.phase ≡ waiting p
        → is_done eg ≡ true
        → Step eg (turned before (record t { phase = ended (some (Fault.wrap t.name e)) }) later eg)
    cancel_parent : eg.parent_done ≡ false → Step eg (record eg { parent_done = true })

  -- Go and GoWithRetries, at the time `now`.
  unfoldable pub go : String → Kind → (now : ℕ) → ErrGroup → ErrGroup
  go name kind now eg = record eg {
    tasks =
        record {
          name = name;
          kind = kind;
          phase = attempting (record { tries = 0; last_state_change = now });
        }
        ∷ eg.tasks;
  }

  -- Wait, at its return: its answer, and the group whose context it has cancelled.
  unfoldable pub wait_group : ErrGroup → Option Fault × ErrGroup
  wait_group eg = (wait eg.group, record eg { group = grp.waited eg.group; waited = true })

  -- A run that starts tasks and waits for them, and one that does neither, with its number of
  -- turns of the tasks.
  pub data Reach (eg : ErrGroup) : ErrGroup → Type 0 where
    here : Reach eg eg
    next : {b c : ErrGroup} → Reach eg b → Step b c → Reach eg c
    start :
        {b : ErrGroup} (name : String) (kind : Kind) (now : ℕ)
        → Reach eg b
        → Reach eg (go name kind now b)
    -- Wait returns when all tasks have.
    join : {b : ErrGroup} → Reach eg b → HaveEnded b.tasks → Reach eg (wait_group b).1

  pub data Turns (eg : ErrGroup) : ℕ → ErrGroup → Type 0 where
    here : Turns eg 0 eg
    next : {n : ℕ} {b c : ErrGroup} → Turns eg n b → Step b c → Turns eg (suc n) c
