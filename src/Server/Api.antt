-- ===== src/Server/Api.antt =====
-- APIServer.ListenAndServe (api_server.go), for a server that is no test server: the health server and
-- the API server as tasks of one group. HealthServer.ListenAndServe (health.go) is
-- ListenAndServeContext where there is a server to run, as here.
use elephantine.Prelude.{
  ℕ, suc, ◌≡◌, String, Bool, true, false, ◌||◌, Option, none, some, if◌then◌else◌,
}
use elephantine.Fault
use elephantine.Fault.{Fault}
use elephantine.Server.Serving
use elephantine.Server.Serving.{Serving, listen_and_serve_context, returned}
use elephantine.Server.Group.{GroupPackage}

-- What the function of a task returns.
unfoldable pub task_error : String → Option Fault → Option Fault
task_error label none = none
task_error label (some e) =
    if Fault.is e Fault.Sentinel.server_closed then none else some (Fault.wrap label e)

module _ (grp : GroupPackage) where
  open grp use {Group, new, is_cancelled}

  pub record Service : Type 0 where
    pub group : Group
    pub parent_done : Bool
    pub health : Serving
    pub api : Serving
    pub health_stopped : Bool
    pub api_stopped : Bool

  unfoldable pub listen_and_serve : Service
  unfolding listen_and_serve_context
  listen_and_serve = record {
    group = new;
    parent_done = false;
    health = listen_and_serve_context;
    api = listen_and_serve_context;
    health_stopped = false;
    api_stopped = false;
  }

  -- The health server listens under the group's context, and the API server under the caller's.
  abbrev pub health_done : Service → Bool
  health_done s = s.parent_done || is_cancelled s.group

  abbrev pub api_done : Service → Bool
  api_done s = s.parent_done

  pub data Step (s : Service) : Service → Type 0 where
    health_step :
        (after : Serving)
        → Serving.Step true (health_done s) s.health after
        → Step s (record s { health = after })
    api_step :
        (after : Serving)
        → Serving.Step false (api_done s) s.api after
        → Step s (record s { api = after })
    health_return :
        (out : Option Fault)
        → s.health_stopped ≡ false
        → s.health.caller ≡ returned out
        → Step s (record s {
          group = grp.finish s.group (task_error "health server error" out);
          health_stopped = true;
        })
    api_return :
        (out : Option Fault)
        → s.api_stopped ≡ false
        → s.api.caller ≡ returned out
        → Step s (record s {
          group = grp.finish s.group (task_error "API server error" out);
          api_stopped = true;
        })
    cancel_parent : s.parent_done ≡ false → Step s (record s { parent_done = true })

  -- The steps of the goroutines themselves, as for one server; the context is cancelled from outside.
  abbrev pub is_own : {s t : Service} → Step s t → Bool
  is_own (health_step after step) = Serving.is_own step
  is_own (api_step after step) = Serving.is_own step
  is_own (health_return out running at) = true
  is_own (api_return out running at) = true
  is_own (cancel_parent running) = false

  -- A run and its number of steps.
  pub data Reach (s : Service) : ℕ → Service → Type 0 where
    here : Reach s 0 s
    next : {n : ℕ} {t u : Service} → Reach s n t → Step t u → Reach s (suc n) u

  -- grp.Wait() is back once both tasks are.
  abbrev pub HasReturned : Service → Type 0
  HasReturned s = (s.health_stopped ≡ true) × (s.api_stopped ≡ true)
