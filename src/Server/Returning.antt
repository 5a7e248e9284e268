-- ===== src/Server/Returning.antt =====
-- When the API server's ListenAndServe returns, and with what.
use elephantine.Prelude.{
  ℕ, ◌≡◌, ◌↔◌, String, Bool, true, false, ◌&&◌, ◌||◌, Option, none, some, arith, is_some,
}
use elephantine.Fault.{Fault}
use elephantine.Server.Serving.{listening, returned}
use elephantine.Server.Closing.{
  is_back, has_failed, IsAttended, start-IsAttended, Step-IsAttended, Step-is_back,
}
use elephantine.Server.Group.{GroupPackage, IsGroup, finish-cancelled, finish-answer}
use elephantine.Server.Api.{
  Service, task_error, listen_and_serve, health_done, api_done, Step, health_step, api_step,
  health_return, api_return, cancel_parent, Reach, here, next, HasReturned,
}

task_error-some :
    (label : String) (out : Option Fault)
    → is_some (task_error label out) ≡ has_failed (returned out)
unfolding task_error
task_error-some label none = ground arith
task_error-some label (some e) = ground arith

module _ (grp : GroupPackage) (laws : IsGroup grp) where
  -- Whether the function of a task has returned an error.
  abbrev pub failures : Service grp → Bool
  failures s =
      (s.health_stopped && has_failed s.health.caller) || (s.api_stopped && has_failed s.api.caller)

  pub record Inv (s : Service grp) : Type 0 where
    pub health : IsAttended true (health_done grp s) s.health
    pub api : IsAttended false (api_done grp s) s.api
    pub health_back : s.health_stopped ≡ true → is_back s.health.caller ≡ true
    pub api_back : s.api_stopped ≡ true → is_back s.api.caller ≡ true
    pub cancelled : grp.is_cancelled s.group ≡ failures s
    pub answer : is_some (grp.wait s.group) ≡ failures s

  pub start-Inv : Inv (listen_and_serve grp)
  unfolding listen_and_serve
  start-Inv = record {
    health = start-IsAttended true _;
    api = start-IsAttended false _;
    health_back = λ h. cc;
    api_back = λ h. cc;
    cancelled = laws.new_open;
    answer = ground (arith, laws.new_clean);
  }

  pub Step-Inv : {s t : Service grp} → Step grp s t → Inv s → Inv t
  Step-Inv {s} (health_step after step) inv =
      let attended = Step-IsAttended step inv.health in
      let stays = Step-is_back step in ground arith
  Step-Inv {s} (api_step after step) inv =
      let attended = Step-IsAttended step inv.api in let stays = Step-is_back step in ground arith
  Step-Inv {s} (health_return out running at) inv = ground (
    arith,
    finish-cancelled grp laws s.group (task_error "health server error" out),
    finish-answer grp laws s.group (task_error "health server error" out),
    task_error-some "health server error" out,
  )
  Step-Inv {s} (api_return out running at) inv = ground (
    arith,
    finish-cancelled grp laws s.group (task_error "API server error" out),
    finish-answer grp laws s.group (task_error "API server error" out),
    task_error-some "API server error" out,
  )
  Step-Inv {s} (cancel_parent open_yet) inv = ground arith

  pub Reach-Inv : {s : Service grp} {n : ℕ} {t : Service grp} → Inv s → Reach grp s n t → Inv t
  Reach-Inv inv here = inv
  Reach-Inv inv (next r step) = Step-Inv step (Reach-Inv inv r)

  -- Until the caller's context is cancelled, the API server is served unless it fails itself: a health
  -- server that fails, or is closed, does not stop it, so ListenAndServe does not return.
  pub listen_and_serve_outlives :
      (n : ℕ) (s : Service grp)
      → Reach grp (listen_and_serve grp) n s
      → s.parent_done ≡ false
      → has_failed s.api.caller ≡ false
      → (s.api.caller ≡ listening) × ¬ HasReturned grp s
  listen_and_serve_outlives n s r running well = let inv = Reach-Inv start-Inv r in ground arith

  -- Once both servers have returned, ListenAndServe returns an error exactly if one of them failed:
  -- that they were shut down is no error.
  pub listen_and_serve_result :
      (n : ℕ) (s : Service grp)
      → Reach grp (listen_and_serve grp) n s
      → HasReturned grp s
      → (grp.wait s.group ≡ none)
        ↔ ((has_failed s.health.caller ≡ false) × (has_failed s.api.caller ≡ false))
  listen_and_serve_result n s r back = let inv = Reach-Inv start-Inv r in ground arith
