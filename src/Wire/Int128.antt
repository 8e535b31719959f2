-- ===== src/Wire/Int128.antt =====
-- internal/wire/types_int128.go, and INT128 in `DecodeColumn` of internal/wire/types_decode.go.
pub mod Sixteen
pub mod RoundTrip
use go_firebird_driver.Prelude.{
  ℕ, zero, suc, ◌+◌, ◌-◌, ◌*◌, ◌/◌, ◌%◌, ◌^◌, Bool, true, false, List, [], ◌∷◌, ◌++◌, ◌⊎◌, inl, inr,
  length, drop, replicate, ltb, leb, ◌==◌, if◌then◌else◌,
}
use go_firebird_driver.Prelude.Bytes.{Bytes, at}
use go_firebird_driver.Prelude.Int.{ℤ, pos, negsuc, ◌+ℤ◌, ◌-ℤ◌}
use go_firebird_driver.Wire.Decimal.{DecimalError, decimal_string_to_scaled_big_int}
use go_firebird_driver.Wire.Decimal.Print.{big_magnitude, is_negative, scaled_big_int}

-- The bytes of a number in front of `buf`, for the rounds that are left; none for zero.
unfoldable pub fill_bytes : ℕ → ℕ → Bytes → Bytes
fill_bytes zero v buf = buf
fill_bytes (suc fuel) v buf =
    let more = fill_bytes fuel (v / 256) (v % 256 ∷ buf) in if v == 0 then buf else more

-- `v.Bytes()`: the absolute value, the first byte not zero.
unfoldable pub big_bytes : ℤ → Bytes
big_bytes v = fill_bytes (big_magnitude v) (big_magnitude v) []

-- `b[len(b)-16:]` where `b` is longer, and the copy to the end of `result`.
unfoldable pub last16 : Bytes → Bytes
last16 b = if ltb 16 (length b) then drop (length b - 16) b else replicate (16 - length b) 0 ++ b

-- `stringToInt128Err` behind the conversion to an integer.
unfoldable pub int128_bytes : ℤ → Bytes
int128_bytes v =
    if is_negative v then last16 (big_bytes (v +ℤ pos (2 ^ 128))) else last16 (big_bytes v)

unfoldable pub as_int128 : DecimalError ⊎ ℤ → DecimalError ⊎ Bytes
as_int128 (inl e) = inl e
as_int128 (inr v) = inr (int128_bytes v)

-- `stringToInt128Err`
unfoldable pub string_to_int128_err : (Bytes → Bytes) → Bytes → ℤ → DecimalError ⊎ Bytes
string_to_int128_err trim_space s scale =
    as_int128 (decimal_string_to_scaled_big_int trim_space s scale)

-- `SetBytes`, behind `acc`.
unfoldable pub number_of : ℕ → Bytes → ℕ
number_of acc [] = acc
number_of acc (b ∷ bs) = number_of (acc * 256 + b) bs

-- `case SQLInt128` on its sixteen bytes, as the integer.
unfoldable pub decode_int128 : Bytes → ℤ
decode_int128 buf =
    if leb 128 (at buf 0) then pos (number_of 0 buf) -ℤ pos (2 ^ 128) else pos (number_of 0 buf)

-- `case SQLInt128`, as the text that a row holds.
unfoldable pub int128_text : Bytes → ℤ → Bytes
int128_text buf scale = scaled_big_int (decode_int128 buf) scale
