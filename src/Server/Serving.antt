-- ===== src/Server/Serving.antt =====
-- ListenAndServeContext (http.go): the goroutine that serves, and the one that waits for the context
-- and shuts the server down. Of net/http: once Shutdown or Close has been called, ListenAndServe
-- returns ErrServerClosed; it returns before only with an error, of listening or accepting. Requests
-- are left out.
use elephantine.Prelude.{◌≡◌, Bool, true, false, Option, some}
use elephantine.Fault
use elephantine.Fault.{Fault}

-- The caller: in server.ListenAndServe, waiting for `closed`, or back.
pub data Caller : Type 0 where
  listening awaiting : Caller
  returned : Option Fault → Caller

-- The goroutine: waiting for the context, in Shutdown, in Close, and past `close(closed)`.
pub data Closer : Type 0 where
  waiting shutting closing finished : Closer

-- `down` is the server's own note that Shutdown or Close has been called.
pub record Serving : Type 0 where
  pub caller : Caller
  pub closer : Closer
  pub down : Bool

unfoldable pub listen_and_serve_context : Serving
listen_and_serve_context = record { caller = listening; closer = waiting; down = false }

-- What the caller returns for an error of ListenAndServe that is not ErrServerClosed.
unfoldable pub listen_error : Fault → Option Fault
listen_error e = some (Fault.wrap "failed to start listening" e)

-- `done` is whether the context is cancelled, `shared` whether others can close the server.
pub data Step (shared done : Bool) (s : Serving) : Serving → Type 0 where
  fail :
      (e : Fault)
      → s.caller ≡ listening
      → Fault.is e Fault.Sentinel.server_closed ≡ false
      → Step shared done s (record s { caller = returned (listen_error e) })
  -- ListenAndServe returns ErrServerClosed, and the caller waits for the goroutine.
  notice :
      s.caller ≡ listening → s.down ≡ true → Step shared done s (record s { caller = awaiting })
  finish :
      s.caller ≡ awaiting
      → s.closer ≡ finished
      → Step shared done s
          (record s { caller = returned (some (Fault.sentinel Fault.Sentinel.server_closed)) })
  -- The goroutine: Shutdown is called, and fails within the timeout or does not.
  shut_down :
      s.closer ≡ waiting
      → done ≡ true
      → Step shared done s (record s { closer = shutting; down = true })
  shut : s.closer ≡ shutting → Step shared done s (record s { closer = finished })
  give_up : s.closer ≡ shutting → Step shared done s (record s { closer = closing })
  close : s.closer ≡ closing → Step shared done s (record s { closer = finished })
  -- HealthServer.Close, from outside.
  close_outside : shared ≡ true → s.down ≡ false → Step shared done s (record s { down = true })

-- The steps of the two goroutines themselves: not a failure of the listening, nor a close from outside.
abbrev pub is_own : {shared done : Bool} {s t : Serving} → Step shared done s t → Bool
is_own (fail e at other) = false
is_own (notice at down) = true
is_own (finish at over) = true
is_own (shut_down at done) = true
is_own (shut at) = true
is_own (give_up at) = true
is_own (close at) = true
is_own (close_outside open_to up) = false

-- A server with its context, which may be cancelled at any time.
pub record Attended : Type 0 where
  pub serving : Serving
  pub done : Bool

pub data Reach (shared : Bool) (a : Attended) : Attended → Type 0 where
  here : Reach shared a a
  next :
      {b : Attended} (after : Serving)
      → Reach shared a b
      → Step shared b.done b.serving after
      → Reach shared a (record b { serving = after })
  cancel : {b : Attended} → Reach shared a b → Reach shared a (record b { done = true })
