-- ===== src/Wire/Decimal/Print.antt =====
-- internal/wire/types_numeric.go: scaled integers as texts. strconv.FormatUint and big.Int.String write the
-- decimal digits without leading zeros. A scale is above -2 ^ 31, so that its negation is an int32.
use go_firebird_driver.Prelude.{
  ℕ, zero, suc, ◌+◌, ◌-◌, ◌/◌, ◌%◌, ◌^◌, Bool, true, false, [], ◌∷◌, ◌++◌, length, take, drop,
  replicate, leb, ◌==◌, if◌then◌else◌,
}
use go_firebird_driver.Prelude.Bytes.{Bytes}
use go_firebird_driver.Prelude.Int.{ℤ, pos, negsuc}
use go_firebird_driver.Wire.Decimal.{minus, dot}

-- The digits of a number in front of `buf`, for the rounds that are left; none for zero.
unfoldable pub fill_digits : ℕ → ℕ → Bytes → Bytes
fill_digits zero v buf = buf
fill_digits (suc fuel) v buf =
    let more = fill_digits fuel (v / 10) ((48 + v % 10) ∷ buf) in if v == 0 then buf else more

-- strconv.FormatUint, and `String` of a big.Int that is not negative.
unfoldable pub format_uint : ℕ → Bytes
format_uint u = if u == 0 then 48 ∷ [] else fill_digits u u []

-- `int64ToString`, whose loop leaves the buffer empty for a negative number.
unfoldable pub int64_to_string : ℤ → Bytes
int64_to_string (pos n) = if n == 0 then 48 ∷ [] else fill_digits n n []
int64_to_string (negsuc n) = []

-- `repeatZeros`
abbrev pub repeat_zeros : ℕ → Bytes
repeat_zeros n = replicate n 48

-- `addNeg`
unfoldable pub add_neg : Bytes → Bool → Bytes
add_neg s true = minus ∷ s
add_neg s false = s

-- The digits with the dot, `dec_pos` places from their end.
unfoldable pub point : ℕ → Bytes → Bytes
point dec_pos s =
    if leb (length s) dec_pos
    then 48 ∷ dot ∷ repeat_zeros (dec_pos - length s) ++ s
    else take (length s - dec_pos) s ++ dot ∷ drop (length s - dec_pos) s

-- `uint64(v)`
abbrev pub to_uint64 : ℤ → ℕ
to_uint64 (pos n) = n % 2 ^ 64
to_uint64 (negsuc n) = 2 ^ 64 - 1 - n % 2 ^ 64

abbrev pub is_negative : ℤ → Bool
is_negative (pos n) = false
is_negative (negsuc n) = true

-- `u` of `scaledInt64`: the negation is one of a uint64.
unfoldable pub unsigned_magnitude : ℤ → ℕ
unsigned_magnitude v = if is_negative v then (2 ^ 64 - to_uint64 v) % 2 ^ 64 else to_uint64 v

-- `scaledInt64`
unfoldable pub scaled_int64 : ℤ → ℤ → Bytes
scaled_int64 v (pos scale) = int64_to_string v
scaled_int64 v (negsuc n) =
    add_neg (point (suc n) (format_uint (unsigned_magnitude v))) (is_negative v)

-- `new(big.Int).Neg(v)` where `v` is negative, and `v` where it is not.
abbrev pub big_magnitude : ℤ → ℕ
big_magnitude (pos n) = n
big_magnitude (negsuc n) = suc n

-- `scaledBigInt`
unfoldable pub scaled_big_int : ℤ → ℤ → Bytes
scaled_big_int v (pos scale) = add_neg (format_uint (big_magnitude v)) (is_negative v)
scaled_big_int v (negsuc n) =
    add_neg (point (suc n) (format_uint (big_magnitude v))) (is_negative v)
