-- ===== src/Files/Tests.antt =====
-- Files of texts, which are their own encoding.
use elephantine.Prelude.{◌≡◌, ◌≢◌, refl, String, [], ◌∷◌, none, some}
use elephantine.Prelude.Lists.{lookup, insert}
use elephantine.Fault.{Fault, ok}
use elephantine.Files.{Files, Codec, FileEnv, unmarshal_file, marshal_file, close_file}
use elephantine.Files.Kept.{IsBalanced, marshal_file-unmarshal_file}

abbrev plain : Codec String
plain = record { encode = ok; decode = λ strict o text. (text, none) }

abbrev calm : FileEnv
calm = record { open_error = none; write_error = none; written = ""; close_error = none }

abbrev full_disk : FileEnv
full_disk = record calm {
  write_error = some (Fault.text "no space left on device");
  written = "he";
}

abbrev disk : Files
disk = record { contents = ("a", "old") ∷ ("b", "kept") ∷ []; opened = 0; closed = 0 }

marshal_file-unmarshal_file_example :
    let (out, after) = marshal_file plain calm "a" "new" disk in
    IsBalanced disk after
    × ((other : String) → other ≢ "a" → lookup other after.contents ≡ lookup other disk.contents)
    × (out ≡ none
        → let (out', read, _) = unmarshal_file plain calm "a" "" after in
          (out' ≡ none) × (read ≡ "new"))
marshal_file-unmarshal_file_example =
    marshal_file-unmarshal_file plain calm calm "a" "new" "" disk (λ text h. unfold lookup in cc)
      refl refl

-- A write that fails leaves a part of the text in the file, and what was there before is lost.
truncates :
    (marshal_file plain full_disk "a" "hello" disk).1.contents ≡ ("a", "he") ∷ ("b", "kept") ∷ []
unfolding marshal_file close_file insert
truncates = refl
