-- ===== src/Wire/Decimal.antt =====
-- internal/wire/types_numeric.go: decimal texts, to scaled integers and back. An int, an int32 or an int64 is the
-- integer that it stands for, a big.Int an integer or, where it is not negative, a number. strings.TrimSpace is a parameter.
pub mod Print
pub mod Digits
pub mod Parse
pub mod RoundTrip
pub mod Rounding
use go_firebird_driver.Prelude.{
  ℕ, zero, suc, ◌+◌, ◌-◌, ◌*◌, ◌/◌, ◌%◌, ◌^◌, Bool, true, false, not, ◌&&◌, ◌||◌, List, [], ◌∷◌,
  ◌++◌, Option, none, some, ◌⊎◌, inl, inr, length, take, drop, replicate, ltb, leb, ◌==◌,
  if◌then◌else◌,
}
use go_firebird_driver.Prelude.Bytes.{Bytes}
use go_firebird_driver.Prelude.Int.{ℤ, pos, negsuc, pos_part, neg_part, ◌+ℤ◌, ◌-ℤ◌, ltb_ℤ, leb_ℤ}

pub data DecimalError : Type 0 where
  invalid_decimal numeric_overflow exponent_range : DecimalError

abbrev pub min_int64 : ℤ
min_int64 = negsuc (2 ^ 63 - 1)

abbrev pub max_int64 : ℤ
max_int64 = pos (2 ^ 63 - 1)

-- `v.IsInt64()`
abbrev pub is_int64 : ℤ → Bool
is_int64 v = leb_ℤ min_int64 v && leb_ℤ v max_int64

-- A sum or difference of two ints, with its wrap-around.
unfoldable pub wrap64 : ℤ → ℤ
wrap64 v =
    if ltb_ℤ max_int64 v
    then v -ℤ pos (2 ^ 64)
    else if ltb_ℤ v min_int64
    then v +ℤ pos (2 ^ 64)
    else v

abbrev pub is_digit : ℕ → Bool
is_digit ch = leb 48 ch && leb ch 57

abbrev pub minus : ℕ
minus = 45

abbrev pub plus : ℕ
plus = 43

abbrev pub dot : ℕ
dot = 46

-- The loop over the digits and the dot, which breaks at any other byte: the digits, how many of them
-- are behind the dot, and what is left. A second dot is an error.
unfoldable pub mantissa : Bytes → Bytes → ℕ → Bool → Option (Bytes × ℕ × Bytes)
mantissa [] digits frac_digits seen_dot = some (digits, frac_digits, [])
mantissa (ch ∷ s) digits frac_digits seen_dot =
    let digit =
      mantissa s (digits ++ ch ∷ []) (if seen_dot then suc frac_digits else frac_digits) seen_dot in
    let behind = mantissa s digits frac_digits true in
    if is_digit ch
    then digit
    else if ch == dot
    then (if seen_dot then none else behind)
    else some (digits, frac_digits, ch ∷ s)

-- The digits of the exponent, and what is left.
unfoldable pub digits_of : Bytes → Bytes × Bytes
digits_of [] = ([], [])
digits_of (ch ∷ s) =
    let (ds, rest) = digits_of s in if is_digit ch then (ch ∷ ds, rest) else ([], ch ∷ s)

-- The number that decimal digits stand for, behind `acc`.
unfoldable pub number_from : ℕ → Bytes → ℕ
number_from acc [] = acc
number_from acc (d ∷ ds) = number_from (acc * 10 + (d - 48)) ds

abbrev pub number : Bytes → ℕ
number = number_from 0

unfoldable pub signed : Bool → ℕ → ℤ
signed true (suc n) = negsuc n
signed true zero = pos 0
signed false n = pos n

-- strconv.Atoi on a sign and digits
abbrev pub atoi : Bool → Bytes → Option ℤ
atoi negative ds = let v = signed negative (number ds) in if is_int64 v then some v else none

-- A sign, where there is one.
unfoldable pub sign_of : Bytes → Bool × Bytes
sign_of [] = (false, [])
sign_of (ch ∷ s) =
    if ch == minus then (true, s) else if ch == plus then (false, s) else (false, ch ∷ s)

-- The exponent behind its sign, on its digits and what is left.
unfoldable pub add_exponent : ℤ → Bool → Bytes × Bytes → DecimalError ⊎ ℤ
add_exponent exp negative (ds, rest) =
    if length ds == 0 then inl invalid_decimal else elim (atoi negative ds) [
      | none ↦ inl exponent_range
      | some e ↦ if length rest == 0 then inr (wrap64 (exp +ℤ e)) else inl invalid_decimal
    ]

unfoldable pub after_sign : ℤ → Bool × Bytes → DecimalError ⊎ ℤ
after_sign exp (negative, s) = add_exponent exp negative (digits_of s)

-- The exponent, where there is one, added to `exp`; the text ends behind it.
unfoldable pub exponent : ℤ → Bytes → DecimalError ⊎ ℤ
exponent exp [] = inr exp
exponent exp (ch ∷ s) =
    if ch == 101 || ch == 69 then after_sign exp (sign_of s) else inl invalid_decimal

-- The leading zeros, all but the last digit.
unfoldable pub without_zeros : Bytes → Bytes
without_zeros [] = []
without_zeros (d ∷ []) = d ∷ []
without_zeros (d ∷ e ∷ ds) =
    let rest = without_zeros (e ∷ ds) in if d == 48 then rest else d ∷ e ∷ ds

pub record Decimal : Type 0 where
  pub negative : Bool
  pub digits : Bytes
  pub exp : ℤ

unfoldable pub with_exponent : Bool → Bytes → DecimalError ⊎ ℤ → DecimalError ⊎ Decimal
with_exponent negative digits (inl e) = inl e
with_exponent negative digits (inr exp) =
    inr (record { negative = negative; digits = without_zeros digits; exp = exp })

unfoldable pub with_mantissa : Bool → Option (Bytes × ℕ × Bytes) → DecimalError ⊎ Decimal
with_mantissa negative none = inl invalid_decimal
with_mantissa negative (some (digits, frac_digits, rest)) =
    if length digits == 0
    then inl invalid_decimal
    else with_exponent negative digits (exponent (pos 0 -ℤ pos frac_digits) rest)

-- `parseDecimalStringStrict`, on the trimmed text, behind its sign and whole.
unfoldable pub parse_signed : Bool × Bytes → DecimalError ⊎ Decimal
parse_signed (negative, s) = with_mantissa negative (mantissa s [] 0 false)

unfoldable pub parse_trimmed : Bytes → DecimalError ⊎ Decimal
parse_trimmed s = parse_signed (sign_of s)

abbrev pub parse_decimal_string_strict : (Bytes → Bytes) → Bytes → DecimalError ⊎ Decimal
parse_decimal_string_strict trim_space s = parse_trimmed (trim_space s)

-- `pow10Big`
abbrev pub pow10_big : ℤ → ℕ
pow10_big (pos n) = 10 ^ n
pow10_big (negsuc n) = 1

-- `quotient` of `QuoRem`, rounded half away from zero.
unfoldable pub round_half_away : ℕ → ℕ → ℕ
round_half_away coeff divisor =
    if leb divisor (coeff % divisor * 2) then coeff / divisor + 1 else coeff / divisor

unfoldable pub shifted : ℕ → ℤ → ℕ
shifted coeff (pos n) = coeff * pow10_big (pos n)
shifted coeff (negsuc n) = round_half_away coeff (pow10_big (wrap64 (pos (suc n))))

unfoldable pub at_scale : ℤ → DecimalError ⊎ Decimal → DecimalError ⊎ ℤ
at_scale scale (inl e) = inl e
at_scale scale (inr d) =
    let coeff = number d.digits in
    let shift = wrap64 (d.exp -ℤ scale) in
    if ltb_ℤ (pos 128) shift && not (coeff == 0)
    then inl numeric_overflow
    else inr (signed d.negative (shifted coeff shift))

-- `decimalStringToScaledBigInt`
unfoldable pub decimal_string_to_scaled_big_int : (Bytes → Bytes) → Bytes → ℤ → DecimalError ⊎ ℤ
decimal_string_to_scaled_big_int trim_space s scale =
    at_scale scale (parse_decimal_string_strict trim_space s)

unfoldable pub as_int64 : DecimalError ⊎ ℤ → DecimalError ⊎ ℤ
as_int64 (inl e) = inl e
as_int64 (inr v) = if is_int64 v then inr v else inl numeric_overflow

-- `decimalStringToScaledInt64`
unfoldable pub decimal_string_to_scaled_int64 : (Bytes → Bytes) → Bytes → ℤ → DecimalError ⊎ ℤ
decimal_string_to_scaled_int64 trim_space s scale =
    as_int64 (decimal_string_to_scaled_big_int trim_space s scale)
