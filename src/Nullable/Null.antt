-- ===== src/Nullable/Null.antt =====
-- What the conversions store: NULL, or which value.
use elephantine.Prelude.{
  ℕ, ◌≡◌, ◌↔◌, refl, ◌≢◌, String, Bool, true, false, Option, none, some, arith, eq_iff,
  if◌then◌else◌,
}
use elephantine.Nullable.{
  Nullable, p_bool, p_int32, p_int2, bigint_or_null, p_text, text_or_null, p_time, time_or_null,
  p_uuid, uuid, to_uuid_pointer, from_pointer,
}

-- What the driver stores of a value: NULL where it is not valid.
abbrev pub stored : {A : Type 0} → Nullable A → Option A
stored v = if v.valid then some v.content else none

-- A pointer is stored as what it points to, and nil as NULL, so a column tells a nil pointer from one
-- to a zero value; and a UUID that is read back is the pointer that was stored.
pub pointer_round_trip :
    {Time : Type 0} (zero_time : Time) (zero_uuid : String) (b : Option Bool) (n m : Option ℕ)
    (s u : Option String) (t : Option Time) (v : String)
    → (stored (p_bool b) ≡ b)
      × (stored (p_int32 n) ≡ n)
      × (stored (p_int2 m) ≡ m)
      × (stored (p_text s) ≡ s)
      × (stored (p_time zero_time t) ≡ t)
      × (to_uuid_pointer (p_uuid zero_uuid u) ≡ u)
      × (to_uuid_pointer (uuid v) ≡ some v)
unfolding p_bool p_int32 p_int2 p_text p_time p_uuid uuid to_uuid_pointer from_pointer
pointer_round_trip zero_time zero_uuid b n m s u t v =
    (ground arith, ground arith, ground arith, ground arith, ground arith, ground arith, refl)

-- Of a text, a number and a time that may stand for nothing, exactly the empty text, zero and the
-- zero time are stored as NULL, and any other as itself.
pub or_null_iff :
    {Time : Type 0} (zero_time : Time) (is_zero : Time → Bool) (s : String) (n : ℕ) (t : Time)
    → ((stored (text_or_null s) ≡ none) ↔ (s ≡ ""))
      × ((stored (text_or_null s) ≡ some s) ↔ (s ≢ ""))
      × ((stored (bigint_or_null n) ≡ none) ↔ (n ≡ 0))
      × ((stored (bigint_or_null n) ≡ some n) ↔ (n ≢ 0))
      × ((stored (time_or_null zero_time is_zero t) ≡ none) ↔ (is_zero t ≡ true))
      × ((stored (time_or_null zero_time is_zero t) ≡ some t) ↔ (is_zero t ≡ false))
unfolding text_or_null bigint_or_null time_or_null
or_null_iff zero_time is_zero s n t = (
  ground (arith, eq_iff s ""),
  ground (arith, eq_iff s ""),
  ground arith,
  ground arith,
  ground arith,
  ground arith,
)
