-- ===== src/Nullable.antt =====
-- pg/pg.go: the conversions between Go values and the nullable values of the package pgtype. Each of
-- its structs has a value and the flag Valid; a pointer is an option.
pub mod Null
mod Tests
use elephantine.Prelude.{
  ℕ, String, Bool, true, false, Option, none, some, if◌then◌else◌, ◌==◌, str_eq,
}

pub record Nullable (A : Type 0) : Type 0 where
  pub content : A
  pub valid : Bool

module _ {A : Type 0} where
  -- A valid value, and the zero value of the struct.
  abbrev pub given : A → Nullable A
  given a = record { content = a; valid = true }

  abbrev pub zero_struct : A → Nullable A
  zero_struct zero = record { content = zero; valid = false }

  -- The body of each conversion of a pointer, by the zero value of the type.
  unfoldable pub from_pointer : (zero : A) → Option A → Nullable A
  from_pointer zero none = zero_struct zero
  from_pointer zero (some a) = given a

unfoldable pub p_bool : Option Bool → Nullable Bool
unfolding from_pointer
p_bool b = from_pointer false b

-- int32, int16 and int64 as their bit patterns.
unfoldable pub p_int32 : Option ℕ → Nullable ℕ
unfolding from_pointer
p_int32 n = from_pointer 0 n

unfoldable pub p_int2 : Option ℕ → Nullable ℕ
unfolding from_pointer
p_int2 n = from_pointer 0 n

unfoldable pub bigint_or_null : ℕ → Nullable ℕ
bigint_or_null n = if n == 0 then zero_struct 0 else given n

unfoldable pub p_text : Option String → Nullable String
unfolding from_pointer
p_text s = from_pointer "" s

unfoldable pub text : String → Nullable String
text s = given s

unfoldable pub text_or_null : String → Nullable String
text_or_null s = if str_eq s "" then zero_struct "" else given s

-- time.Time, its zero value and IsZero; a pgtype.Date holds a time as well.
module _ {Time : Type 0} (zero_time : Time) where
  unfoldable pub date : Time → Nullable Time
  date t = given t

  unfoldable pub time : Time → Nullable Time
  time t = given t

  unfoldable pub p_time : Option Time → Nullable Time
  unfolding from_pointer
  p_time t = from_pointer zero_time t

  unfoldable pub time_or_null : (is_zero : Time → Bool) → Time → Nullable Time
  time_or_null is_zero t = if is_zero t then zero_struct zero_time else given t

-- A UUID is the text of its sixteen bytes.
module _ (zero_uuid : String) where
  unfoldable pub p_uuid : Option String → Nullable String
  unfolding from_pointer
  p_uuid u = from_pointer zero_uuid u

unfoldable pub uuid : String → Nullable String
uuid u = given u

unfoldable pub to_uuid_pointer : Nullable String → Option String
to_uuid_pointer v = if v.valid then some v.content else none
