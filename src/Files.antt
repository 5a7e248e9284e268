-- ===== src/Files.antt =====
-- io.go: reading and writing of JSON files and HTTP resources. The files are a dictionary of texts,
-- and how each call of the operating system or of the network ends is an argument. A handle, or a
-- response's body, counts as open from when it is had until Close has been called.
pub mod Kept
mod Tests
use elephantine.Prelude.{
  ℕ, ◌+◌, String, Bool, List, [], ◌∷◌, Option, none, some, if◌then◌else◌, ◌==◌,
}
use elephantine.Prelude.Lists.{lookup, insert}
use elephantine.Fault
use elephantine.Fault.{Fault, Result, ok, err, errors_join}

pub record Files : Type 0 where
  pub contents : List (String × String)
  pub opened : ℕ
  pub closed : ℕ

-- encoding/json on values of one type: decoding writes into the value that it is given, also where it
-- fails. `strict` is whether unknown fields are an error.
pub record Codec (A : Type 0) : Type 0 where
  pub encode : A → Result String
  pub decode : (strict : Bool) → A → String → A × Option Fault

-- How the calls end. After a write that fails, `written` is in the file.
pub record FileEnv : Type 0 where
  pub open_error : Option Fault
  pub write_error : Option Fault
  pub written : String
  pub close_error : Option Fault

abbrev pub wrapped : String → Option Fault → Option Fault
wrapped message none = none
wrapped message (some e) = some (Fault.wrap message e)

abbrev pub opening : Files → Files
opening fs = record fs { opened = fs.opened + 1 }

-- The deferred Close: its error is joined with what is returned.
unfoldable pub close_file : String → Option Fault → Option Fault → Files → Option Fault × Files
close_file message close_error out fs =
    (errors_join out (wrapped message close_error), record fs { closed = fs.closed + 1 })

module _ {A : Type 0} (json : Codec A) where
  unfoldable pub unmarshal_file : FileEnv → String → A → Files → Option Fault × A × Files
  unfolding close_file
  unmarshal_file env path o fs = elim env.open_error [
    | some e ↦ (some (Fault.wrap "failed to open file" e), o, fs)
    | none ↦ elim (lookup path fs.contents) [
      | none ↦ (some (Fault.wrap "failed to open file" (Fault.text "no such file")), o, fs)
      | some text ↦
          let (read, e) = json.decode Bool.true o text in
          let (out, after) =
            close_file "failed to close file" env.close_error (wrapped "failed to unmarshal JSON" e)
              (opening fs) in
          (out, read, after)
    ]
  ]

  -- os.Create empties a file that is there.
  unfoldable pub marshal_file : FileEnv → String → A → Files → Option Fault × Files
  unfolding close_file
  marshal_file env path o fs = elim env.open_error [
    | some e ↦ (some (Fault.wrap "failed to create file" e), fs)
    | none ↦
        let created = record (opening fs) { contents = insert path "" fs.contents } in
        elim (json.encode o) [
          | err e ↦
              close_file "failed to close file" env.close_error
                (some (Fault.wrap "failed to marshal JSON" e)) created
          | ok text ↦
              let left : String = elim env.write_error [ none ↦ text | some e ↦ env.written ] in
              close_file "failed to close file" env.close_error
                (wrapped "failed to marshal JSON" env.write_error)
                (record created { contents = insert path left fs.contents })
        ]
  ]

-- What http.Get answers with.
pub record Resource : Type 0 where
  pub status_code : ℕ
  pub body : String
  pub close_error : Option Fault

module _ {A : Type 0} (json : Codec A) where
  -- The last number counts the bodies that were closed.
  unfoldable pub unmarshal_http_resource :
      (String → Result Resource) → String → A → Option Fault × A × ℕ
  unmarshal_http_resource get url o = elim (get url) [
    | err e ↦ (some (Fault.wrap "failed to perform request" e), o, 0)
    | ok res ↦
        let closing = wrapped "failed to close response body" res.close_error in
        if res.status_code == 200
        then (let (read, e) = json.decode Bool.false o res.body in
            (errors_join (wrapped "failed to unmarshal JSON" e) closing, read, 1))
        else (errors_join (some (Fault.text "server responded with")) closing, o, 1)
  ]

-- SafeClose: what it logs of the result of Close.
unfoldable pub safe_close_resource : String → Option Fault → List (String × Fault)
safe_close_resource name none = []
safe_close_resource name (some e) = (name, e) ∷ []
