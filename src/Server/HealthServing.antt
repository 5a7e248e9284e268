-- ===== src/Server/HealthServing.antt =====
-- HealthServer.ListenAndServe (health.go): ListenAndServeContext where there is a server to run, and
-- for a test server, which listens from the start, a wait for the context.
use mathlib.Core.Path.{subst}
use elephantine.Prelude.{◌≡◌, ◌≢◌, refl, Bool, true, false, Option, none, some, String}
use elephantine.Fault
use elephantine.Fault.{Fault}
use elephantine.Health.{HealthServer, new_health_server, new_test_health_server}
use elephantine.Health.Ready.{made}
use elephantine.Server.Serving
use elephantine.Server.Serving.{Serving, Attended, listen_and_serve_context, returned}
use elephantine.Server.Closing.{listen_and_serve_context_closed}

pub data HealthRun : Type 0 where
  serving : Serving → HealthRun
  until_done : HealthRun
  back : Option Fault → HealthRun

unfoldable pub health_listen_and_serve : HealthServer → HealthRun
unfolding listen_and_serve_context
health_listen_and_serve s = elim s.server [
  | some h ↦ serving listen_and_serve_context
  | none ↦ until_done
]

-- `done` is whether the context is cancelled.
pub record Watched : Type 0 where
  pub run : HealthRun
  pub done : Bool

pub data Step (w : Watched) : Watched → Type 0 where
  serve :
      (s after : Serving)
      → w.run ≡ serving s
      → Serving.Step true w.done s after
      → Step w (record w { run = serving after })
  pass_on :
      (s : Serving) (out : Option Fault)
      → w.run ≡ serving s
      → s.caller ≡ returned out
      → Step w (record w { run = back out })
  wake : w.run ≡ until_done → w.done ≡ true → Step w (record w { run = back none })
  cancel : Step w (record w { done = true })

pub data Reach (w : Watched) : Watched → Type 0 where
  here : Reach w w
  next : {u v : Watched} → Reach w u → Step u v → Reach w v

abbrev pub begin : Bool → String → Watched
begin is_test addr = record { run = health_listen_and_serve (made is_test addr); done = false }

abbrev first : Attended
first = record { serving = listen_and_serve_context; done = false }

-- What becomes of a server to run, and of a test server.
abbrev IsRun : Bool → HealthRun → Type 0
IsRun done (serving s) = Serving.Reach true first (record { serving = s; done = done })
IsRun done until_done = ⊥
IsRun done (back out) =
    (b : Attended) × Serving.Reach true first b
    × (b.serving.caller ≡ returned out)
    × (b.done ≡ true → done ≡ true)

abbrev IsWaiting : Bool → HealthRun → Type 0
IsWaiting done (serving s) = ⊥
IsWaiting done until_done = Unit {0}
IsWaiting done (back out) = (out ≡ none) × (done ≡ true)

later-IsRun : (done : Bool) (run : HealthRun) → IsRun done run → IsRun true run
later-IsRun done (serving s) r = Serving.Reach.cancel r
later-IsRun done until_done r = absurd r
later-IsRun done (back out) (b, r, returns, kept) = (b, r, returns, λ h. refl)

later-IsWaiting : (done : Bool) (run : HealthRun) → IsWaiting done run → IsWaiting true run
later-IsWaiting done (serving s) w = absurd w
later-IsWaiting done until_done w = tt
later-IsWaiting done (back out) (well, over) = (well, refl)

Step-IsRun : {u v : Watched} → Step u v → IsRun u.done u.run → IsRun v.done v.run
Step-IsRun {u} (serve s after at step) run =
    Serving.Reach.next after (subst (IsRun u.done) at run) step
Step-IsRun {u} (pass_on s out at returns) run =
    (record { serving = s; done = u.done }, subst (IsRun u.done) at run, returns, λ h. h)
Step-IsRun {u} (wake at done) run = absurd (subst (IsRun u.done) at run)
Step-IsRun {u} cancel run = later-IsRun u.done u.run run

Step-IsWaiting : {u v : Watched} → Step u v → IsWaiting u.done u.run → IsWaiting v.done v.run
Step-IsWaiting {u} (serve s after at step) w = absurd (subst (IsWaiting u.done) at w)
Step-IsWaiting {u} (pass_on s out at returns) w = absurd (subst (IsWaiting u.done) at w)
Step-IsWaiting {u} (wake at done) w = (refl, done)
Step-IsWaiting {u} cancel w = later-IsWaiting u.done u.run w

Reach-IsRun : {u v : Watched} → Reach u v → IsRun u.done u.run → IsRun v.done v.run
Reach-IsRun here run = run
Reach-IsRun (next r step) run = Step-IsRun step (Reach-IsRun r run)

Reach-IsWaiting : {u v : Watched} → Reach u v → IsWaiting u.done u.run → IsWaiting v.done v.run
Reach-IsWaiting here w = w
Reach-IsWaiting (next r step) w = Step-IsWaiting step (Reach-IsWaiting r w)

-- ListenAndServe of a health server, however its context is cancelled and it is closed from outside:
-- a test server's returns nil, and only after the context was cancelled; any other's never returns nil,
-- and returns ErrServerClosed only after the context was cancelled.
pub health_listen_and_serve_returns :
    (is_test : Bool) (addr : String) (v : Watched) (out : Option Fault)
    → Reach (begin is_test addr) v
    → v.run ≡ back out
    → (is_test ≡ true → (out ≡ none) × (v.done ≡ true))
      × (is_test ≡ false
          → (out ≢ none)
            × ((e : Fault)
                → out ≡ some e
                → Fault.is e Fault.Sentinel.server_closed ≡ true
                → v.done ≡ true))
unfolding health_listen_and_serve new_health_server new_test_health_server
health_listen_and_serve_returns true addr v out r at =
    (λ h. subst (IsWaiting v.done) at (Reach-IsWaiting r tt), λ h. cc)
health_listen_and_serve_returns false addr v out r at =
    let (b, reached, returns, kept) = subst (IsRun v.done) at (Reach-IsRun r Serving.Reach.here) in
    let (fails, closes) = listen_and_serve_context_closed true b out reached returns in
    (λ h. cc, λ h. (fails, λ e same closed. kept (closes e same closed).1))
