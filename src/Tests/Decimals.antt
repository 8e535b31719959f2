-- ===== src/Tests/Decimals.antt =====
-- Decimal texts, INT128 and dates on concrete values.
use go_firebird_driver.Prelude.{ℕ, ◌+◌, ◌-◌, ◌%◌, ◌^◌, ◌≡◌, refl, arith, true, false, some, inr}
use go_firebird_driver.Prelude.Bytes.{Bytes, codes}
use go_firebird_driver.Prelude.Int.{pos, negsuc, ◌+ℤ◌, ◌-ℤ◌}
use go_firebird_driver.Wire.Decimal.{
  signed, wrap64, number_from, number, decimal_string_to_scaled_big_int,
  decimal_string_to_scaled_int64,
}
use go_firebird_driver.Wire.Decimal.Print.{scaled_int64, scaled_big_int}
use go_firebird_driver.Wire.Decimal.Parse.{Written, minus_sign, text}
use go_firebird_driver.Wire.Decimal.RoundTrip.{Keeps, decimal_string_to_scaled_int64-scaled_int64}
use go_firebird_driver.Wire.Decimal.Rounding.{IsNearest, decimal_string_to_scaled_big_int-IsNearest}
use go_firebird_driver.Wire.Int128.{string_to_int128_err, int128_text, decode_int128}
use go_firebird_driver.Wire.Int128.RoundTrip.{
  string_to_int128_err-scaled_big_int, string_to_int128_err-too_large,
}
use go_firebird_driver.Wire.DateTime.{date_to_mjd}
use go_firebird_driver.Wire.DateTime.Calendar.{
  Date, days_in_month, next_date, date_to_mjd-next_date,
}

-- A function that takes nothing away, which is what trimming does to these texts.
abbrev no_trim : Bytes → Bytes
no_trim s = s

no_trim-Keeps : Keeps no_trim
no_trim-Keeps s h = refl

decimal_string_to_scaled_int64-scaled_int64_example :
    decimal_string_to_scaled_int64 no_trim
      (scaled_int64 (negsuc (2 ^ 63 - 1)) (negsuc 3))
      (negsuc 3)
    ≡ inr (negsuc (2 ^ 63 - 1))
decimal_string_to_scaled_int64-scaled_int64_example =
    decimal_string_to_scaled_int64-scaled_int64 no_trim (negsuc (2 ^ 63 - 1)) 3 no_trim-Keeps refl

-- -12.345e-1
abbrev sample_number : Written
sample_number = record {
  sign = minus_sign;
  whole = codes "12";
  fraction = some (codes "345");
  power = some (record { capital = false; sign = minus_sign; digits = codes "1" });
}

sample_shift : wrap64 (wrap64 (pos 0 -ℤ pos 3 +ℤ signed true 1) -ℤ negsuc 1) ≡ negsuc 1
unfolding wrap64 ◌-ℤ◌ ◌+ℤ◌ signed
sample_shift = refl

decimal_string_to_scaled_big_int-IsNearest_example :
    (q : ℕ) × (decimal_string_to_scaled_big_int no_trim (text sample_number) (negsuc 1)
      ≡ inr (signed true q))
    × IsNearest (number (codes "12345")) (10 ^ 2) q
unfolding number_from signed
decimal_string_to_scaled_big_int-IsNearest_example =
    decimal_string_to_scaled_big_int-IsNearest no_trim sample_number (negsuc 1) 1
      (
        ((omega arith, omega arith), ((omega arith, omega arith), tt)),
        (
          (omega arith, omega arith),
          ((omega arith, omega arith), ((omega arith, omega arith), tt)),
        ),
        omega arith,
        (((omega arith, omega arith), tt), omega arith, refl),
      )
      refl sample_shift (omega arith)

string_to_int128_err-scaled_big_int_example :
    (bs : Bytes) × (string_to_int128_err no_trim (scaled_big_int (negsuc 122) (negsuc 1)) (negsuc 1)
      ≡ inr bs)
    × (int128_text bs (negsuc 1) ≡ scaled_big_int (negsuc 122) (negsuc 1))
string_to_int128_err-scaled_big_int_example =
    string_to_int128_err-scaled_big_int no_trim (negsuc 122) 1 no_trim-Keeps
      (omega arith, omega arith)

string_to_int128_err-too_large_example :
    (bs : Bytes) × (string_to_int128_err no_trim
        (scaled_big_int (pos (2 ^ 127)) (negsuc 1))
        (negsuc 1)
      ≡ inr bs)
    × (decode_int128 bs ≡ negsuc (2 ^ 127 - 1))
string_to_int128_err-too_large_example =
    string_to_int128_err-too_large no_trim (2 ^ 127) 1 no_trim-Keeps (omega arith) (omega arith)

-- The last day of a leap February.
abbrev leap_day : Date
leap_day = record { year = 2000; month = 2; day = 29 }

date_to_mjd-next_date_example :
    (date_to_mjd (pos 1858) 11 17 ≡ 0)
    × (date_to_mjd
          (pos (next_date leap_day).year)
          (next_date leap_day).month
          (next_date leap_day).day
        ≡ (date_to_mjd (pos 2000) 2 29 + 1) % 2 ^ 32)
unfolding days_in_month
date_to_mjd-next_date_example =
    date_to_mjd-next_date leap_day (omega arith, omega arith, omega arith, omega arith, omega arith)
