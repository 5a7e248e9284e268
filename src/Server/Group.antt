-- ===== src/Server/Group.antt =====
-- The package errgroup, as far as the sources use it: a group is told of each task that has returned,
-- its context is cancelled by the first error and when Wait returns, and Wait answers with that error.
use elephantine.Prelude.{
  ◌≡◌, Bool, true, false, ◌||◌, Option, none, some, is_some, arith, Option-cases, inl, inr,
}
use elephantine.Fault.{Fault}

pub record GroupPackage : Type 1 where
  pub Group : Type 0
  pub new : Group
  pub finish : Group → Option Fault → Group
  pub is_cancelled : Group → Bool
  -- What Wait returns, once all tasks have, and the group that it leaves.
  pub wait : Group → Option Fault
  pub waited : Group → Group

-- What the package documents of the context that WithContext derives, and of Wait.
pub record IsGroup (grp : GroupPackage) : Type 0 where
  pub new_open : grp.is_cancelled grp.new ≡ false
  pub new_clean : grp.wait grp.new ≡ none
  pub finish_well : (g : grp.Group) → grp.is_cancelled (grp.finish g none) ≡ grp.is_cancelled g
  pub finish_badly : (g : grp.Group) (e : Fault) → grp.is_cancelled (grp.finish g (some e)) ≡ true
  pub wait_well : (g : grp.Group) → grp.wait (grp.finish g none) ≡ grp.wait g
  pub wait_first :
      (g : grp.Group) (e : Fault) → grp.wait g ≡ none → grp.wait (grp.finish g (some e)) ≡ some e
  pub wait_later :
      (g : grp.Group) (e f : Fault)
      → grp.wait g ≡ some f
      → grp.wait (grp.finish g (some e)) ≡ some f
  pub waited_cancelled : (g : grp.Group) → grp.is_cancelled (grp.waited g) ≡ true
  pub waited_answer : (g : grp.Group) → grp.wait (grp.waited g) ≡ grp.wait g

module _ (grp : GroupPackage) (laws : IsGroup grp) where
  -- The group after a task has returned `out`.
  pub finish-cancelled :
      (g : grp.Group) (out : Option Fault)
      → grp.is_cancelled (grp.finish g out) ≡ (is_some out || grp.is_cancelled g)
  finish-cancelled g none = laws.finish_well g
  finish-cancelled g (some e) = laws.finish_badly g e

  pub finish-answer :
      (g : grp.Group) (out : Option Fault)
      → is_some (grp.wait (grp.finish g out)) ≡ (is_some out || is_some (grp.wait g))
  finish-answer g none = ground (arith, laws.wait_well g)
  finish-answer g (some e) = elim (Option-cases (grp.wait g)) [
    | inl none_yet ↦ ground (arith, laws.wait_first g e)
    | inr (f, first) ↦ ground (arith, laws.wait_later g e f)
  ]
