-- ===== src/Retry/Group.antt =====
-- What Wait returns, and when the context of a group is cancelled.
use elephantine.Prelude.{◌≡◌, refl, Bool, false, ◌||◌, List, [], ◌∷◌, is_some}
use elephantine.Server.Group.{GroupPackage, IsGroup, finish-cancelled}
use elephantine.Retry.Crew.{Phase, attempting, waiting, ended, Task, ErrGroup, told}

abbrev pub has_failed : Phase → Bool
has_failed (ended out) = is_some out
has_failed (attempting p) = false
has_failed (waiting p) = false

abbrev pub any_failed : List Task → Bool
any_failed [] = false
any_failed (t ∷ later) = has_failed t.phase || any_failed later

module _ (grp : GroupPackage) (laws : IsGroup grp) where
  record Inv (eg : ErrGroup grp) : Type 0 where
    cancelled : grp.is_cancelled eg.group ≡ (any_failed eg.tasks || eg.waited)
    answer : is_some (grp.wait eg.group) ≡ any_failed eg.tasks

  pub told-cancelled :
      (f : Phase) (g : grp.Group)
      → grp.is_cancelled (told grp f g) ≡ (has_failed f || grp.is_cancelled g)
  told-cancelled (ended out) g = finish-cancelled grp laws g out
  told-cancelled (attempting p) g = refl
  told-cancelled (waiting p) g = refl
