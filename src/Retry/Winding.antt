-- ===== src/Retry/Winding.antt =====
-- How the tasks of a group wind down.
use elephantine.Prelude.{
  ℕ, ◌+◌, ◌≤◌, ◌<◌, ◌≡◌, ◌⊎◌, refl, ◌*◌, String, true, List, [], ◌∷◌, ◌++◌, none, some, is_some,
  arith, ap, sym, if◌then◌else◌, inl, inr,
}
use elephantine.Prelude.Lists.{length}
use elephantine.Fault.{Fault}
use elephantine.Retry.{Attempt, Progress, round}
use elephantine.Server.Group.{GroupPackage, IsGroup}
use elephantine.Retry.Group.{told-cancelled}
use elephantine.Retry.Crew.{
  Kind, once, retried, Phase, attempting, waiting, ended, Task, attempted, ErrGroup, has_ended,
  HaveEnded, is_done, turned, Step, attempt, restart, interrupt, cancel_parent, Turns,
}

-- How many turns a task may still take.
abbrev rank : Phase → ℕ
rank (waiting p) = 2
rank (attempting p) = 1
rank (ended out) = 0

abbrev ranks : List Task → ℕ
ranks [] = 0
ranks (t ∷ later) = rank t.phase + ranks later

ranks-++ :
    (before later : List Task) (t : Task)
    → ranks (before ++ t ∷ later) ≡ rank t.phase + ranks before + ranks later
ranks-++ [] later t = omega arith
ranks-++ (s ∷ before) later t = let rest = ranks-++ before later t in omega arith

-- After a cancelled context, an attempt is the last.
attempted-done :
    (name : String) (kind : Kind) (p : Progress) (a : Attempt)
    → is_some a.cancelled ≡ true
    → rank (attempted name kind p a) ≡ 0
unfolding attempted round
attempted-done name once p a done = ground arith
attempted-done name (retried m r) p a done = ground arith

rank_bounded : (f : Phase) → rank f ≤ 2
rank_bounded (waiting p) = omega arith
rank_bounded (attempting p) = omega arith
rank_bounded (ended out) = omega arith

ranks_bounded : (tasks : List Task) → ranks tasks ≤ 2 * length tasks
ranks_bounded [] = omega arith
ranks_bounded (t ∷ later) =
    let rest = ranks_bounded later in let own = rank_bounded t.phase in omega arith

-- A task that runs, with the tasks around it.
abbrev IsRunning : Phase → Type 0
IsRunning f = ((p : Progress) × (f ≡ attempting p)) ⊎ ((p : Progress) × (f ≡ waiting p))

abbrev Running : List Task → Type 0
Running tasks =
    (before later : List Task) × (t : Task) × (tasks ≡ before ++ t ∷ later) × IsRunning t.phase

Phase-cases : (f : Phase) → (has_ended f ≡ true) ⊎ IsRunning f
Phase-cases (ended out) = inl refl
Phase-cases (attempting p) = inr (inl (p, refl))
Phase-cases (waiting p) = inr (inr (p, refl))

Running-cases : (tasks : List Task) → HaveEnded tasks ⊎ Running tasks
Running-cases [] = inl tt
Running-cases (t ∷ tasks) = elim (Phase-cases t.phase) [
  | inr runs ↦ inr ([], tasks, t, refl, runs)
  | inl over ↦ elim (Running-cases tasks) [
    | inl all ↦ inl (over, all)
    | inr (before, later, s, at, runs) ↦ inr (t ∷ before, later, s, ap (λ l. t ∷ l) at, runs)
  ]
]

module _ (grp : GroupPackage) (laws : IsGroup grp) where
  abbrev unfinished : ErrGroup grp → ℕ
  unfinished eg = ranks eg.tasks + (if eg.parent_done then 0 else 1)

  -- Once cancelled, a group stays so, and each turn is one less.
  abbrev Winds : (eg after : ErrGroup grp) → Type 0
  Winds eg after = (is_done grp after ≡ true) × (unfinished after < unfinished eg)

  turned-Winds :
      (before later : List Task) (old t : Task) (eg : ErrGroup grp)
      → eg.tasks ≡ before ++ old ∷ later
      → rank t.phase < rank old.phase
      → is_done grp eg ≡ true
      → Winds eg (turned grp before t later eg)
  turned-Winds before later old t eg at less done =
      let was : ranks eg.tasks ≡ rank old.phase + ranks before + ranks later =
        rw at (ranks-++ before later old) in
      (
        ground (arith, told-cancelled grp laws t.phase eg.group),
        ground (arith, ranks-++ before later t),
      )

  Step-Winds :
      {eg after : ErrGroup grp} → Step grp eg after → is_done grp eg ≡ true → Winds eg after
  Step-Winds {eg} (attempt before later t p a at phase seen) done =
      turned-Winds before later t _ eg at (ground (arith, attempted-done t.name t.kind p a)) done
  Step-Winds {eg} (restart before later t p at phase) done =
      turned-Winds before later t _ eg at (ground arith) done
  Step-Winds {eg} (interrupt before later t p e at phase now_done) done =
      turned-Winds before later t _ eg at (ground arith) done
  Step-Winds (cancel_parent open_yet) done = ground arith

  Turns-Winds :
      {eg after : ErrGroup grp} {n : ℕ}
      → Turns grp eg n after
      → is_done grp eg ≡ true
      → (is_done grp after ≡ true) × (n + unfinished after ≤ unfinished eg)
  Turns-Winds Turns.here done = (done, omega arith)
  Turns-Winds (Turns.next r step) done =
      let (done', left) = Turns-Winds r done in
      let (done'', less) = Step-Winds step done' in (done'', omega arith)

  goes_on :
      (eg : ErrGroup grp)
      → is_done grp eg ≡ true
      → HaveEnded eg.tasks ⊎ ((after : ErrGroup grp) × Step grp eg after)
  goes_on eg done = elim (Running-cases eg.tasks) [
    | inl over ↦ inl over
    | inr (before, later, t, at, inl (p, runs)) ↦
        let fails : Attempt = record {
          error = none;
          cancelled = some (Fault.text "context canceled");
          cancelled_waiting = none;
          failed_at = 0;
          noted_at = 0;
        } in
        inr (_, attempt before later t p fails at runs (sym done))
    | inr (before, later, t, at, inr (p, waits)) ↦ inr (_, restart before later t p at waits)
  ]

  -- Once the context of a group is cancelled, by its parent, by a task that failed or by Wait, its
  -- tasks wind down: without new tasks there are at most two turns for each and one for the parent, and as long
  -- as not all have ended there is a turn that can be taken, the return of an attempt being one.
  pub err_group_winds_down :
      (eg after : ErrGroup grp) (n : ℕ)
      → is_done grp eg ≡ true
      → Turns grp eg n after
      → (n ≤ 2 * length eg.tasks + 1)
        × (HaveEnded after.tasks ⊎ ((later : ErrGroup grp) × Step grp after later))
  err_group_winds_down eg after n done turns =
      let (done', left) = Turns-Winds turns done in
      let bound = ranks_bounded eg.tasks in (ground arith, goes_on after done')
