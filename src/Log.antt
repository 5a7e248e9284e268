-- ===== src/Log.antt =====
-- log.go: SetUpLogger and contextHandler. Of log/slog: a level is its number, kept as a bit pattern
-- with the sign turned, so that levels compare as they do in Go; a JSON handler writes a record whose
-- level is at least its own, under the attributes and groups that were set before.
pub mod Handling
mod Tests
use elephantine.Prelude.{
  ℕ, ◌+◌, ◌^◌, String, Bool, true, false, List, [], ◌∷◌, ◌++◌, Option, none, some, map, leb, str_eq,
  if◌then◌else◌,
}
use elephantine.Fault.{Fault, Result, ok, err}
use elephantine.LogContext.{Context, Heap, Metadata, get_log_metadata}

abbrev pub level_info : ℕ
level_info = 2 ^ 63

abbrev pub level_warn : ℕ
level_warn = 2 ^ 63 + 4

abbrev pub level_error : ℕ
level_error = 2 ^ 63 + 8

pub data LogValue : Type 0 where
  text : String → LogValue
  number : ℕ → LogValue
  fault : Fault → LogValue
  object : List (String × String) → LogValue

abbrev pub Attrs : Type 0
Attrs = List (String × LogValue)

pub record LogRecord : Type 0 where
  pub level : ℕ
  pub message : String
  pub attrs : Attrs

-- What WithAttrs and WithGroup have set, the last first.
pub data Scope : Type 0 where
  attrs : Attrs → Scope
  group : String → Scope

pub record JsonHandler : Type 0 where
  pub level : ℕ
  pub scopes : List Scope

pub record Output : Type 0 where
  pub scopes : List Scope
  pub entry : LogRecord

abbrev pub enabled : JsonHandler → ℕ → Bool
enabled h level = leb h.level level

abbrev pub write_json : JsonHandler → LogRecord → List Output
write_json h r = record { scopes = h.scopes; entry = r } ∷ []

pub record ContextHandler : Type 0 where
  pub h : JsonHandler

-- r.Add for each entry of the metadata, in the order in which the map yields them.
abbrev pub metadata_attrs : Option Metadata → Attrs
metadata_attrs none = []
metadata_attrs (some m) = map (λ ((k, v) : String × String). (k, text v)) m

unfoldable pub handle : ContextHandler → Context → Heap → LogRecord → List Output
handle c ctx heap r =
    if enabled c.h r.level
    then write_json c.h (record r { attrs = r.attrs ++ metadata_attrs (get_log_metadata ctx heap) })
    else []

unfoldable pub with_attrs : Attrs → ContextHandler → ContextHandler
with_attrs a c = record { h = record c.h { scopes = attrs a ∷ c.h.scopes } }

unfoldable pub with_group : String → ContextHandler → ContextHandler
with_group name c = record { h = record c.h { scopes = group name ∷ c.h.scopes } }

-- The level, and what is logged to the writer `w`. `unmarshal` is Level.UnmarshalText.
unfoldable pub log_level : (String → Result ℕ) → String → ℕ × List LogRecord
log_level unmarshal name = if str_eq name "" then (level_warn, []) else elim (unmarshal name) [
  | ok level ↦ (level, [])
  | err e ↦ (
    level_warn,
    record {
      level = level_error;
      message = "invalid log level";
      attrs = ("err", fault e) ∷ ("log_level", text name) ∷ [];
    }
        ∷ [],
  )
]

unfoldable pub set_up_logger : (String → Result ℕ) → String → ContextHandler
unfolding log_level
set_up_logger unmarshal name = record {
  h = record { level = (log_level unmarshal name).0; scopes = [] };
}
