-- ===== src/HttpErrors/Tests.antt =====
-- Concrete errors and responses.
use Prim.Native.Nat.{ℕ}
use elephantine.Prelude.{◌≡◌, true, [], ◌∷◌, none, some, refl}
use elephantine.Fault
use elephantine.Fault.{Fault, HttpError}
use elephantine.HttpErrors.{
  Header, HttpResponse, Written, is_http_error_with_status, http_error_from_response,
}

abbrev plain : Fault → ℕ → Header → Written
plain e status header = record { header = header; status_code = status; body = "error" }

abbrev missing : HttpError
missing = record {
  status = "Not Found";
  status_code = 404;
  header = none;
  body = some "no such document";
}

abbrev wrapped : Fault
wrapped = Fault.wrap "load document" (Fault.join (Fault.http missing) (Fault.text "close body"))

abbrev cut_short : HttpResponse
cut_short = record {
  status = "502 Bad Gateway";
  status_code = 502;
  header = ("Content-Type", "text/plain" ∷ []) ∷ [];
  body = "upst";
  read_error = some (Fault.text "unexpected EOF");
}

-- The handler has set two names of its header, of which the response has one.
abbrev own_header : Header
own_header = ("Content-Type", "text/html" ∷ []) ∷ ("X-Trace", "t1" ∷ []) ∷ []

abbrev passed_on : Fault
passed_on = Fault.wrap "fetch document" (http_error_from_response cut_short)

is_found : is_http_error_with_status wrapped 404 ≡ true
unfolding is_http_error_with_status Fault.find
is_found = refl
