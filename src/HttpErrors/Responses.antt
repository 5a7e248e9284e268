-- ===== src/HttpErrors/Responses.antt =====
-- What becomes of errors in a tree, on their way to a client and back.
use elephantine.Prelude.{
  ℕ, ◌≡◌, ◌↔◌, refl, String, true, Option, none, some, arith, eq_iff, if◌then◌else◌, ◌==◌,
}
use elephantine.Fault
use elephantine.Fault.{Fault, HttpError}
use elephantine.HttpErrors.{
  Header, HttpResponse, Written, is_http_error_with_status, write_http_error,
  http_error_handler_func, is_twirp_error_code, twirp_error_to_http_status_code, copied,
}

-- The same error under any number of messages, and before any other that it is joined with.
pub data Wraps (e : Fault) : Fault → Type 0 where
  itself : Wraps e e
  under : {f : Fault} (message : String) → Wraps e f → Wraps e (Fault.wrap message f)
  before : {f : Fault} (other : Fault) → Wraps e f → Wraps e (Fault.join f other)

find-Wraps {ℓ} :
    {A : Type ℓ} (pick : Fault → Option A) {e f : Fault} (a : A)
    → ((s : String) (g : Fault) → pick (Fault.wrap s g) ≡ none)
    → ((g h : Fault) → pick (Fault.join g h) ≡ none)
    → Fault.find pick e ≡ some a
    → Wraps e f
    → Fault.find pick f ≡ some a
unfolding Fault.find
find-Wraps pick a no_wrap no_join h itself = h
find-Wraps pick a no_wrap no_join h (under {f} message w) =
    ground (arith, no_wrap message f, find-Wraps pick a no_wrap no_join h w)
find-Wraps pick a no_wrap no_join h (before {f} other w) =
    ground (arith, no_join f other, find-Wraps pick a no_wrap no_join h w)

-- An HTTP error keeps its status through wrapping and joining: it is found again, and a handler
-- that returns it responds with its status code (500 for none), its body, and its header on top of
-- the response's. The error has a body.
pub http_error_survives :
    (http_error : Fault → ℕ → Header → Written) (h : HttpError) (f : Fault) (header : Header)
    (own : Option Written) (body : String)
    → Wraps (Fault.http h) f
    → h.body ≡ some body
    → (is_http_error_with_status f h.status_code ≡ true)
      × (http_error_handler_func http_error (some f) header own
          ≡ some (record {
            header = copied h.header header;
            status_code = if h.status_code == 0 then 500 else h.status_code;
            body = body;
          }))
unfolding is_http_error_with_status http_error_handler_func write_http_error
http_error_survives http_error h f header own body w full =
    let found : Fault.find Fault.as_http f ≡ some h =
      find-Wraps Fault.as_http h (λ s g. refl) (λ g k. refl) refl w in
    (ground (arith, found), ground (arith, found))

abbrev from_response : HttpResponse → HttpError
from_response res = record {
  status = res.status;
  status_code = res.status_code;
  header = some res.header;
  body = some res.body;
}

-- A Twirp error keeps its code through wrapping and joining: it is recognised by that code and by
-- no other, and gives the HTTP status of the code.
pub twirp_error_survives :
    (status_of : String → ℕ) (code message : String) (f : Fault) (other : String)
    → Wraps (Fault.twirp code message) f
    → ((is_twirp_error_code (some f) other ≡ true) ↔ (code ≡ other))
      × (twirp_error_to_http_status_code status_of (some f) ≡ status_of code)
unfolding is_twirp_error_code twirp_error_to_http_status_code
twirp_error_survives status_of code message f other w =
    let found : Fault.find Fault.as_twirp f ≡ some (code, message) =
      find-Wraps Fault.as_twirp (code, message) (λ s g. refl) (λ g k. refl) refl w in
    ground (arith, found, eq_iff code other)
