-- ===== src/Duration.antt =====
-- time.Duration: an int64 count of nanoseconds, kept as its 64-bit pattern so that arithmetic wraps
-- as it does in Go, with signed comparison. A time.Time is a number of nanoseconds.
use Prim.Native.Nat.{min}
use elephantine.Prelude.{
  ℕ, ◌+◌, ◌-◌, ◌*◌, ◌/◌, ◌%◌, ◌^◌, ◌≤◌, ◌<◌, ◌≡◌, Bool, true, false, arith, ltb, leb, if◌then◌else◌,
}

-- a < b on signed 64-bit integers.
unfoldable pub lt : ℕ → ℕ → Bool
lt a b = ltb ((a + 2 ^ 63) % 2 ^ 64) ((b + 2 ^ 63) % 2 ^ 64)

unfoldable pub times : ℕ → ℕ → ℕ
times d k = d * k % 2 ^ 64

-- d / 2, rounded towards zero.
unfoldable pub half : ℕ → ℕ
half d = if ltb d (2 ^ 63) then d / 2 else (2 ^ 64 - (2 ^ 64 - d) / 2) % 2 ^ 64

-- time.Since(t) at the time `now`: Time.Sub, which saturates.
unfoldable pub since : ℕ → ℕ → ℕ
since now t = if leb t now then min (now - t) (2 ^ 63 - 1) else 2 ^ 64 - min (t - now) (2 ^ 63)

-- Not younger than a non-negative duration means that the duration has passed.
pub since-lt-false : (now t d : ℕ) → 0 < d → d < 2 ^ 63 → lt (since now t) d ≡ false → t + d ≤ now
unfolding lt since
since-lt-false now t d p q h = ground arith

pub lt-since-true : (now t d : ℕ) → d < 2 ^ 63 → lt d (since now t) ≡ true → t + d < now
unfolding lt since
lt-since-true now t d q h = ground arith

pub lt-small : (a b : ℕ) → a < 2 ^ 63 → b < 2 ^ 63 → lt a b ≡ ltb a b
unfolding lt
lt-small a b p q = ground arith
