-- ===== src/LogContext/Keys.antt =====
-- Log metadata and authentication information share one context key, so the one that is set last
-- hides the other.
use elephantine.Prelude.{
  ℕ, zero, suc, ◌≡◌, refl, String, [], ◌∷◌, Option, none, some, arith, Option-cases, inl, inr,
  str_eq, if◌then◌else◌, ◌++◌,
}
use elephantine.Prelude.Lists.{lookup, lookup-insert, length}
use elephantine.LogContext.{
  Context, Heap, Metadata, AuthInfo, read, write, with_log_metadata, get_log_metadata,
  set_log_metadata, set_auth_info, get_auth_info, as_metadata, value,
}

abbrev pub in_map : String → Option Metadata → Option String
in_map k none = none
in_map k (some m) = lookup k m

-- What is put at the end of the heap is found there.
pub read-length : (heap : Heap) (m : Metadata) → read (heap ++ m ∷ []) (length heap) ≡ some m
read-length [] m = refl
read-length (other ∷ heap) m = read-length heap m

read-write :
    (heap : Heap) (a : ℕ) (k v j : String) {m : Metadata}
    → read heap a ≡ some m
    → in_map j (read (write heap a k v) a) ≡ (if str_eq k j then some v else lookup j m)
read-write [] a k v j h = cc
read-write (m ∷ heap) zero k v j {m = found} h = ground (arith, lookup-insert k j v m)
read-write (m ∷ heap) (suc a) k v j h = read-write heap a k v j h

-- On a context with a metadata map, a value that is set is read back under its key, and no other
-- key changes.
pub metadata_kept :
    (ctx : Context) (heap : Heap) (k v j : String) (m : Metadata)
    → get_log_metadata ctx heap ≡ some m
    → in_map j (get_log_metadata ctx (set_log_metadata ctx k v heap))
      ≡ (if str_eq k j then some v else lookup j m)
unfolding get_log_metadata set_log_metadata
metadata_kept ctx heap k v j m h = elim (Option-cases (as_metadata (value ctx 1))) [
  | inl missing ↦ absurd (ground arith)
  | inr (a, found) ↦ ground (arith, read-write heap a k v j {m = m})
]

-- Once authentication information has been set, the metadata map is out of reach: it cannot be read,
-- and what is set is dropped. A new map hides the authentication information in turn.
pub keys_collide :
    (ctx : Context) (heap : Heap) (info : AuthInfo) (k v : String)
    → (get_log_metadata (set_auth_info ctx (some info)) heap ≡ none)
      × (set_log_metadata (set_auth_info ctx (some info)) k v heap ≡ heap)
      × (get_auth_info (set_auth_info ctx (some info)) ≡ some info)
      × (get_auth_info (with_log_metadata (set_auth_info ctx (some info)) heap).0 ≡ none)
unfolding get_log_metadata set_log_metadata set_auth_info get_auth_info with_log_metadata
keys_collide ctx heap info k v = (refl, refl, refl, refl)
