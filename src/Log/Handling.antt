-- ===== src/Log/Handling.antt =====
-- What a logger writes, however it was derived from the one that SetUpLogger makes.
use mathlib.Core.List.{append-nil}
use elephantine.Prelude.{
  ℕ, ◌≡◌, ◌∙◌, refl, String, List, [], ◌∷◌, ◌++◌, Option, none, some, Option-cases, inl, inr,
  eq_iff, leb, str_eq, if◌then◌else◌, arith,
}
use elephantine.Prelude.Lists.{lookup}
use elephantine.Fault.{Result, ok, err}
use elephantine.LogContext.{
  Context, Heap, Metadata, value, with_log_metadata, get_log_metadata, set_log_metadata,
}
use elephantine.LogContext.Keys.{metadata_kept, read-length}
use elephantine.Log.{
  LogRecord, LogValue, text, Attrs, Output, Scope, attrs, group, ContextHandler, handle,
  metadata_attrs, with_attrs, with_group, set_up_logger, level_warn,
}

-- Logger.With and Logger.WithGroup, the last first.
abbrev pub derive : List Scope → ContextHandler → ContextHandler
derive [] c = c
derive (attrs a ∷ scopes) c = with_attrs a (derive scopes c)
derive (group name ∷ scopes) c = with_group name (derive scopes c)

derive-h :
    (scopes : List Scope) (c : ContextHandler)
    → (derive scopes c).h ≡ record { level = c.h.level; scopes = scopes ++ c.h.scopes }
unfolding with_attrs with_group
derive-h [] c = refl
derive-h (attrs a ∷ scopes) c = rw (derive-h scopes c) refl
derive-h (group name ∷ scopes) c = rw (derive-h scopes c) refl

-- The level that a name asks for: that of the name, or `warn` where there is none or it is invalid.
abbrev pub asked_level : (String → Result ℕ) → String → ℕ
asked_level unmarshal name =
    if str_eq name "" then level_warn else elim (unmarshal name) [ ok l ↦ l | err e ↦ level_warn ]

-- Calls of SetLogMetadata, the last first.
abbrev pub metadata_set : Context → List (String × String) → Heap → Heap
metadata_set ctx [] heap = heap
metadata_set ctx ((k, v) ∷ calls) heap = set_log_metadata ctx k v (metadata_set ctx calls heap)

-- The value that was set last, as an attribute's.
abbrev pub latest : String → List (String × String) → Option LogValue
latest k [] = none
latest k ((j, v) ∷ calls) = if str_eq j k then some (text v) else latest k calls

abbrev as_text : Option String → Option LogValue
as_text none = none
as_text (some s) = some (text s)

lookup-metadata_attrs :
    (k : String) (m : Metadata) → lookup k (metadata_attrs (some m)) ≡ as_text (lookup k m)
unfolding lookup
lookup-metadata_attrs k [] = refl
lookup-metadata_attrs k ((j, v) ∷ m) = ground (arith, lookup-metadata_attrs k m)

-- The metadata after some calls.
metadata_set_lem :
    (ctx : Context) (heap : Heap) (calls : List (String × String))
    → get_log_metadata ctx heap ≡ some []
    → (m : Metadata) × (get_log_metadata ctx (metadata_set ctx calls heap) ≡ some m)
      × ((k : String) → as_text (lookup k m) ≡ latest k calls)
unfolding lookup
metadata_set_lem ctx heap [] empty = ([], empty, λ k. refl)
metadata_set_lem ctx heap ((j, v) ∷ calls) empty =
    let (m, at, before) = metadata_set_lem ctx heap calls empty in
    let middle = metadata_set ctx calls heap in
    elim (Option-cases (get_log_metadata ctx (set_log_metadata ctx j v middle))) [
      | inl lost ↦
          absurd (let set = metadata_kept ctx middle j v j m at in ground (arith, eq_iff j j))
      | inr (after, found) ↦ (
        after,
        found,
        λ k. let set = metadata_kept ctx middle j v k m at in ground (arith, before k),
      )
    ]

-- A logger that SetUpLogger makes, with any attributes and groups that are set on it, writes a record
-- exactly if the record's level is at least the level asked for, and then once: under those attributes
-- and groups, the record's own attributes with others behind them. In a context that WithLogMetadata
-- returned, after any calls of SetLogMetadata, those are what was set, each key with its latest
-- value; in a context without values there are none.
pub handle-set_up_logger :
    (unmarshal : String → Result ℕ) (name : String) (scopes : List Scope) (ctx : Context)
    (heap : Heap) (calls : List (String × String)) (r : LogRecord)
    → let logger = derive scopes (set_up_logger unmarshal name) in
      let (traced, maps) = with_log_metadata ctx heap in
      let writes : Attrs → List Output = λ added.
        if leb (asked_level unmarshal name) r.level
        then record { scopes = scopes; entry = record r { attrs = r.attrs ++ added } } ∷ []
        else [] in
      ((added : Attrs) × (handle logger traced (metadata_set traced calls maps) r ≡ writes added)
        × ((k : String) → lookup k added ≡ latest k calls))
      × (handle logger [] heap r ≡ writes [])
unfolding handle set_up_logger with_log_metadata
handle-set_up_logger unmarshal name scopes ctx heap calls r =
    let (traced, maps) = with_log_metadata ctx heap in
    let (m, at, keys) =
      metadata_set_lem traced maps calls (unfold get_log_metadata value in read-length heap []) in
    let is_scopes = append-nil scopes in
    (
      (
        metadata_attrs (some m),
        rw (derive-h scopes (set_up_logger unmarshal name), set_up_logger, is_scopes, at)
            (ground arith),
        λ k. lookup-metadata_attrs k m ∙ keys k,
      ),
      rw (derive-h scopes (set_up_logger unmarshal name), set_up_logger, is_scopes)
          (unfold get_log_metadata value in ground arith),
    )
