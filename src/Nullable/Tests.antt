-- ===== src/Nullable/Tests.antt =====
-- Zero is stored as a value.
use elephantine.Prelude.{◌≡◌, refl, some}
use elephantine.Nullable.{p_int2}
use elephantine.Nullable.Null.{stored}

stores_zero : stored (p_int2 (some 0)) ≡ some 0
unfolding p_int2
stores_zero = refl
