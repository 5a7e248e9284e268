-- ===== src/Files/Kept.antt =====
-- Nothing that was opened stays open, no error is lost, and what was written is read back.
use elephantine.Prelude.{
  ◌+◌, ◌≡◌, ◌≢◌, ◌↔◌, String, Bool, true, Option, none, some, arith, eq_iff, inl, inr,
}
use elephantine.Prelude.Lists.{lookup, lookup-insert}
use elephantine.Fault.{ok, Result-cases}
use elephantine.Files.{Files, Codec, FileEnv, unmarshal_file, marshal_file, close_file}

-- What a call reports and leaves: each handle that it opened is closed.
abbrev pub IsBalanced : Files → Files → Type 0
IsBalanced before after = after.opened + before.closed ≡ before.opened + after.closed

-- What the codec writes of `a` it reads back, as `a`, into `o`.
abbrev pub ReadsBack : {A : Type 0} → Codec A → (a o : A) → Type 0
ReadsBack json a o = (text : String) → json.encode a ≡ ok text → json.decode true o text ≡ (a, none)

module _ {A : Type 0} (json : Codec A) where
  -- Whether the text of an answer, or of a file, could be read.
  abbrev pub IsRead : Bool → A → Option String → Type 0
  IsRead strict o none = ⊥
  IsRead strict o (some text) = (json.decode strict o text).1 ≡ none

  -- Reading a file closes what it opens and changes no file; it returns nil exactly if the file could be
  -- opened, is there, is valid and could be closed, and what is read is then what the decoder read.
  pub unmarshal_file-closes :
      (env : FileEnv) (path : String) (o : A) (fs : Files)
      → let (out, read, after) = unmarshal_file json env path o fs in
        IsBalanced fs after
        × (after.contents ≡ fs.contents)
        × ((out ≡ none) ↔ (
            (env.open_error ≡ none)
            × IsRead true o (lookup path fs.contents)
            × (env.close_error ≡ none)))
  unfolding unmarshal_file close_file
  unmarshal_file-closes env path o fs = (ground arith, ground arith, ground arith)

  -- Writing a file closes what it opens, and changes no other file. If it returns nil, reading the file
  -- back, with calls that do not fail, yields the value that was written. The codec reads what it
  -- writes of the value back, into the value that is there.
  pub marshal_file-unmarshal_file :
      (env later : FileEnv) (path : String) (a o : A) (fs : Files)
      → ReadsBack json a o
      → later.open_error ≡ none
      → later.close_error ≡ none
      → let (out, after) = marshal_file json env path a fs in
        IsBalanced fs after
        × ((other : String) → other ≢ path → lookup other after.contents ≡ lookup other fs.contents)
        × (out ≡ none
            → let (out', read, _) = unmarshal_file json later path o after in
              (out' ≡ none) × (read ≡ a))
  unfolding marshal_file unmarshal_file close_file
  marshal_file-unmarshal_file env later path a o fs faithful opens closes =
      elim (Result-cases (json.encode a)) [
        | inl (text, encoded) ↦ (
          ground arith,
          λ other differs. ground (
            arith,
            eq_iff path other,
            lookup-insert path other text fs.contents,
            lookup-insert path other env.written fs.contents,
          ),
          λ h. ground (
            arith,
            eq_iff path path,
            lookup-insert path path text fs.contents,
            faithful text encoded,
          ),
        )
        | inr (e, failed) ↦ (
          ground arith,
          λ other differs.
              ground (arith, eq_iff path other, lookup-insert path other "" fs.contents),
          λ h. ground arith,
        )
      ]
