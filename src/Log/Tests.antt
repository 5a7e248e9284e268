-- ===== src/Log/Tests.antt =====
-- A logger at level info, with a group, in a context with metadata.
use elephantine.Prelude.{ℕ, ◌≡◌, refl, String, List, [], ◌∷◌, ◌++◌, if◌then◌else◌, str_eq}
use elephantine.Prelude.Lists.{lookup}
use elephantine.Fault
use elephantine.Fault.{Result, ok, err}
use elephantine.LogContext.{Context, Heap, metadata, with_log_metadata, get_log_metadata}
use elephantine.Log.{
  LogRecord, Attrs, Output, text, group, handle, set_up_logger, with_group, log_level, level_info,
  level_error,
}
use elephantine.Log.Handling.{derive, metadata_set, latest, handle-set_up_logger}

abbrev unmarshal : String → Result ℕ
unmarshal name = if str_eq name "info" then ok level_info else err (Fault.text "unknown name")

abbrev traced : Context
traced = (1, metadata 0) ∷ []

abbrev maps : Heap
maps = (("trace", "t1") ∷ []) ∷ []

abbrev failure : LogRecord
failure = record { level = level_error; message = "failed"; attrs = ("name", text "job") ∷ [] }

abbrev written : Attrs → List Output
written added =
    record {
      scopes = group "api" ∷ [];
      entry = record failure { attrs = (("name", text "job") ∷ []) ++ added };
    }
    ∷ []

-- The trace is set twice.
abbrev calls : List (String × String)
calls = ("trace", "t2") ∷ ("trace", "t1") ∷ []

handle-set_up_logger_example :
    let logger = derive (group "api" ∷ []) (set_up_logger unmarshal "info") in
    ((added : Attrs) × (handle logger traced (metadata_set traced calls ([] ∷ [])) failure
        ≡ written added)
      × ((k : String) → lookup k added ≡ latest k calls))
    × (handle logger [] [] failure ≡ written [])
unfolding with_log_metadata
handle-set_up_logger_example =
    handle-set_up_logger unmarshal "info" (group "api" ∷ []) [] [] calls failure

writes :
    handle (derive (group "api" ∷ []) (set_up_logger unmarshal "info")) traced maps failure
    ≡ record {
      scopes = group "api" ∷ [];
      entry = record failure { attrs = ("name", text "job") ∷ ("trace", text "t1") ∷ [] };
    }
      ∷ []
unfolding handle with_group set_up_logger log_level get_log_metadata
writes = refl
