-- ===== src/HttpErrors.antt =====
-- HTTP and Twirp errors and the responses made of them (http.go, httprouter.go, twirp.go).
pub mod Responses
mod Tests
use elephantine.Prelude.{
  ℕ, String, Bool, true, false, List, [], ◌∷◌, Option, none, some, if◌then◌else◌, ◌==◌, str_eq, leb,
}
use elephantine.Prelude.Lists.{insert}
use elephantine.Fault
use elephantine.Fault.{Fault, HttpError, Result, ok, err}

abbrev pub Header : Type 0
Header = List (String × List String)

-- `status_text` is http.StatusText.
unfoldable pub new_http_error : (ℕ → String) → ℕ → String → HttpError
new_http_error status_text status_code message = record {
  status = status_text status_code;
  status_code = status_code;
  header = some (("Content-Type", "text/plain" ∷ []) ∷ []);
  body = some message;
}

unfoldable pub is_http_error_with_status : Fault → ℕ → Bool
unfolding Fault.find
is_http_error_with_status e status = elim (Fault.find Fault.as_http e) [
  | none ↦ false
  | some http_err ↦ http_err.status_code == status
]

-- What HTTPErrorFromResponse reads of a response: reading the body yields what could be read, and an
-- error or nil.
pub record HttpResponse : Type 0 where
  pub status : String
  pub status_code : ℕ
  pub header : Header
  pub body : String
  pub read_error : Option Fault

unfoldable pub http_error_from_response : HttpResponse → Fault
http_error_from_response res =
    let e = Fault.http (record {
      status = res.status;
      status_code = res.status_code;
      header = some res.header;
      body = some res.body;
    }) in
    elim res.read_error [
      | none ↦ e
      | some r ↦ Fault.join e (Fault.wrap "failed to read response body" r)
    ]

-- What is written of a response. http.Error sets a header of its own.
pub record Written : Type 0 where
  pub header : Header
  pub status_code : ℕ
  pub body : String

-- The loop that copies the header of the error, listed in the order in which the map yields it, the last
-- first, over that of the response.
abbrev pub copy_header : Header → Header → Header
copy_header [] into = into
copy_header ((k, v) ∷ header) into = insert k v (copy_header header into)

abbrev pub copied : Option Header → Header → Header
copied none into = into
copied (some header) into = copy_header header into

-- `http_error` is http.Error, with the error's text. `none` is for an error whose body is nil, which
-- io.Copy is not made for.
unfoldable pub write_http_error :
    (http_error : Fault → ℕ → Header → Written) → Fault → Header → Option Written
unfolding Fault.find
write_http_error http_error e header = elim (Fault.find Fault.as_http e) [
  | none ↦ some (http_error e 500 header)
  | some http_err ↦ elim http_err.body [
    | none ↦ none
    | some body ↦ some (record {
      header = copied http_err.header header;
      status_code = if http_err.status_code == 0 then 500 else http_err.status_code;
      body = body;
    })
  ]
]

-- HTTPErrorHandlerFunc and RHandleFunc: `fn` returns its error and what it has written itself.
unfoldable pub http_error_handler_func :
    (http_error : Fault → ℕ → Header → Written)
    → Option Fault
    → Header
    → Option Written
    → Option Written
http_error_handler_func http_error none header own = own
http_error_handler_func http_error (some e) header own = write_http_error http_error e header

-- twirp.go. `status_of` is twirp.ServerHTTPStatusFromErrorCode.
unfoldable pub is_twirp_error_code : Option Fault → String → Bool
unfolding Fault.find
is_twirp_error_code none code = false
is_twirp_error_code (some e) code = elim (Fault.find Fault.as_twirp e) [
  | none ↦ false
  | some (found, message) ↦ str_eq found code
]

unfoldable pub twirp_error_to_http_status_code : (String → ℕ) → Option Fault → ℕ
unfolding Fault.find
twirp_error_to_http_status_code status_of none = 200
twirp_error_to_http_status_code status_of (some e) = elim (Fault.find Fault.as_twirp e) [
  | none ↦ 500
  | some (code, message) ↦ status_of code
]

pub data Level : Type 0 where
  info warn error : Level

-- The level at which LoggingHooks logs an error response.
unfoldable pub response_level : ℕ → Level
response_level status = if status == 400 then info else if leb 500 status then error else warn
