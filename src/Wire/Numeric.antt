-- ===== src/Wire/Numeric.antt =====
-- internal/wire/types_numeric.go: integers scaled by a power of ten.
pub mod Scale
use go_firebird_driver.Prelude.{
  ℕ, zero, suc, ◌+◌, ◌*◌, Bool, ◌||◌, Option, none, some, if◌then◌else◌,
}
use go_firebird_driver.Prelude.Int.{ℤ, pos, negsuc, ltb_ℤ}

-- `maxInt64/10` and `minInt64/10`, which cut towards zero.
abbrev pub max_tenth : ℤ
max_tenth = pos 922337203685477580

abbrev pub min_tenth : ℤ
min_tenth = negsuc 922337203685477579

-- `v *= 10`, where it does not overflow.
abbrev pub times_ten : ℤ → ℤ
times_ten (pos n) = pos (n * 10)
times_ten (negsuc n) = negsuc (n * 10 + 9)

-- The loop of `scaleIntegralInt64`, for the rounds that are left: `none` is `numericOverflow`.
unfoldable pub scale_loop : ℕ → ℤ → Option ℤ
scale_loop zero v = some v
scale_loop (suc n) v =
    let later = scale_loop n (times_ten v) in
    if ltb_ℤ max_tenth v || ltb_ℤ v min_tenth then none else later

-- `scaleIntegralInt64`
unfoldable pub scale_integral_int64 : ℤ → ℤ → Option ℤ
scale_integral_int64 v (pos scale) = some v
scale_integral_int64 v (negsuc n) = scale_loop (suc n) v
