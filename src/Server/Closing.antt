-- ===== src/Server/Closing.antt =====
-- When ListenAndServeContext returns.
use elephantine.Prelude.{◌≡◌, ◌≢◌, refl, Bool, true, false, not, Option, none, some, arith}
use elephantine.Fault
use elephantine.Fault.{Fault}
use elephantine.Server.Serving.{
  Serving, Caller, Closer, listening, awaiting, returned, waiting, finished,
  listen_and_serve_context, listen_error, Step, fail, notice, finish, shut_down, shut, give_up,
  close, close_outside, Attended, Reach, here, next, cancel,
}

abbrev pub is_back : Caller → Bool
is_back (returned out) = true
is_back _ = false

-- The caller is back with another error than ErrServerClosed.
abbrev pub has_failed : Caller → Bool
has_failed (returned (some e)) = not (Fault.is e Fault.Sentinel.server_closed)
has_failed _ = false

abbrev pub IsKept : Closer → Bool → Caller → Type 0
IsKept closer down listening = Unit {0}
IsKept closer down awaiting = down ≡ true
IsKept closer down (returned none) = ⊥
IsKept closer down (returned (some e)) =
    Fault.is e Fault.Sentinel.server_closed ≡ true → closer ≡ finished

-- The goroutine acts only on a context that is cancelled, and the caller only on a server that is
-- down.
pub record IsAttended (shared done : Bool) (s : Serving) : Type 0 where
  pub called : s.closer ≢ waiting → (done ≡ true) × (s.down ≡ true)
  pub own : shared ≡ false → s.down ≡ true → s.closer ≢ waiting
  pub kept : IsKept s.closer s.down s.caller

pub start-IsAttended : (shared done : Bool) → IsAttended shared done listen_and_serve_context
unfolding listen_and_serve_context
start-IsAttended shared done = ground arith

-- A context that is cancelled stays so.
pub later-IsAttended :
    (shared done later : Bool) (s : Serving)
    → (done ≡ true → later ≡ true)
    → IsAttended shared done s
    → IsAttended shared later s
later-IsAttended shared done later s still a = ground arith

pub Step-IsAttended :
    {shared done : Bool} {s t : Serving}
    → Step shared done s t
    → IsAttended shared done s
    → IsAttended shared done t
unfolding Fault.is Fault.find listen_error
Step-IsAttended (fail e at other) a = ground arith
Step-IsAttended (notice at down) a = ground arith
Step-IsAttended (finish at over) a = ground arith
Step-IsAttended (shut_down at done) a = ground arith
Step-IsAttended (shut at) a = ground arith
Step-IsAttended (give_up at) a = ground arith
Step-IsAttended (close at) a = ground arith
Step-IsAttended (close_outside open_to up) a = ground arith

-- A caller that is back stays as it is.
pub Step-is_back :
    {shared done : Bool} {s t : Serving}
    → Step shared done s t
    → is_back s.caller ≡ true
    → t.caller ≡ s.caller
Step-is_back (fail e at other) b = ground arith
Step-is_back (notice at down) b = ground arith
Step-is_back (finish at over) b = ground arith
Step-is_back (shut_down at done) b = ground arith
Step-is_back (shut at) b = ground arith
Step-is_back (give_up at) b = ground arith
Step-is_back (close at) b = ground arith
Step-is_back (close_outside open_to up) b = ground arith

Reach-IsAttended :
    {shared : Bool} {a b : Attended}
    → IsAttended shared a.done a.serving
    → Reach shared a b
    → IsAttended shared b.done b.serving
Reach-IsAttended attended here = attended
Reach-IsAttended attended (next after r step) = Step-IsAttended step (Reach-IsAttended attended r)
Reach-IsAttended {shared} {a} {b} attended (cancel {b = c} r) =
    later-IsAttended shared c.done true c.serving (λ h. refl) (Reach-IsAttended attended r)

-- However the context is cancelled and the server closed from outside: ListenAndServeContext never
-- returns nil, and it returns ErrServerClosed only after its context was cancelled and the goroutine
-- has shut the server down, or closed it where that failed.
pub listen_and_serve_context_closed :
    (shared : Bool) (b : Attended) (out : Option Fault)
    → Reach shared (record { serving = listen_and_serve_context; done = false }) b
    → b.serving.caller ≡ returned out
    → (out ≢ none)
      × ((e : Fault)
          → out ≡ some e
          → Fault.is e Fault.Sentinel.server_closed ≡ true
          → (b.serving.closer ≡ finished) × (b.done ≡ true))
listen_and_serve_context_closed shared b out r back =
    let a = Reach-IsAttended (start-IsAttended shared false) r in
    (ground arith, λ e same closed. ground arith)
