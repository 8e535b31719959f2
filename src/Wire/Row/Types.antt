-- ===== src/Wire/Row/Types.antt =====
-- What a server sends for a column of each SQL type, and the value that it stands for.
pub mod Carried
use mathlib.Core.Path.{subst}
use go_firebird_driver.Prelude.{
  ℕ, suc, ◌+◌, ◌-◌, ◌*◌, ◌/◌, ◌%◌, ◌^◌, ◌≤◌, ◌<◌, ◌≡◌, ◌≢◌, refl, sym, ◌∙◌, ap, arith, Bool, true,
  false, not, List, [], ◌∷◌, ◌++◌, length, replicate, zero, ◌⊎◌, inl, inr, leb, ltb, ◌==◌, ◌&&◌,
  ◌||◌, if◌then◌else◌,
}
use go_firebird_driver.Prelude.Bytes.{Bytes, be32, be64, is_empty}
use go_firebird_driver.Prelude.Int.{ℤ, pos, negsuc}
use go_firebird_driver.Wire.Protocol.{
  sql_text, sql_varying, sql_short, sql_long, sql_float, sql_double, sql_timestamp, sql_blob,
  sql_type_date, sql_type_time, sql_int64, sql_int128, sql_timestamp_tz, sql_time_tz,
  sql_time_tz_ex, sql_timestamp_tz_ex, sql_dec16, sql_dec34, sql_boolean,
}
use go_firebird_driver.Wire.Writer.Contents.{padded}
use go_firebird_driver.Wire.Reader.{Reader, max_wire_buffer_len}
use go_firebird_driver.Wire.Reader.Filling.{Holds}
use go_firebird_driver.Wire.Info.{ColumnDescriptor}
use go_firebird_driver.Wire.Decimal.Print.{scaled_int64}
use go_firebird_driver.Wire.Int128.{int128_text}
use go_firebird_driver.Wire.Row.{
  Value, int16, int32, int64, float32, float64, date, time, timestamp, time_tz, timestamp_tz,
  boolean, string, bytes, decoded, blob_id, dec16, dec34, signed_of, trim_right_spaces, scaled_or,
  text_value, varying_value, Kind, kind_of, decode_column,
}
use go_firebird_driver.Wire.Row.Column.{Carries, Yields, decode_column-Carries}

-- An integer of `w + 1` bits, and its two's complement in `v` bits.
abbrev pub Fits : ℕ → ℤ → Type 0
Fits w (pos n) = n < 2 ^ w
Fits w (negsuc n) = n < 2 ^ w

abbrev pub twos : ℕ → ℤ → ℕ
twos v (pos n) = n
twos v (negsuc n) = 2 ^ v - 1 - n

-- A text that does not end in a space.
abbrev pub is_trimmed : Bytes → Bool
is_trimmed [] = true
is_trimmed (b ∷ []) = not (b == 32)
is_trimmed (b ∷ c ∷ bs) = is_trimmed (c ∷ bs)

-- The types that are not read as a counted text.
unfoldable pub is_known : ℕ → Bool
is_known t =
    (t == sql_short || t == sql_long || t == sql_int64 || t == sql_int128)
    || (t == sql_float || t == sql_double || t == sql_boolean || t == sql_blob)
    || (t == sql_type_date || t == sql_type_time || t == sql_timestamp)
    || (t == sql_time_tz
        || t == sql_time_tz_ex
        || t == sql_timestamp_tz
        || t == sql_timestamp_tz_ex)
    || (t == sql_text || t == sql_varying || t == sql_dec16 || t == sql_dec34)

-- The bytes of a value of each type. An integer with a negative scale stands for its decimal text.
pub data Sends (d : ColumnDescriptor) : ℕ → Bytes → Value → Type 0 where
  sends_short :
      (z : ℤ)
      → Fits 15 z
      → d.scale < 2 ^ 31
      → Sends d sql_short (be32 (twos 32 z)) (int16 (twos 16 z))
  sends_short_scaled :
      (z : ℤ) (k : ℕ)
      → Fits 15 z
      → k < 2 ^ 31
      → d.scale ≡ twos 32 (negsuc k)
      → Sends d sql_short (be32 (twos 32 z)) (string (scaled_int64 z (negsuc k)))
  sends_long :
      (z : ℤ)
      → Fits 31 z
      → d.scale < 2 ^ 31
      → Sends d sql_long (be32 (twos 32 z)) (int32 (twos 32 z))
  sends_long_scaled :
      (z : ℤ) (k : ℕ)
      → Fits 31 z
      → k < 2 ^ 31
      → d.scale ≡ twos 32 (negsuc k)
      → Sends d sql_long (be32 (twos 32 z)) (string (scaled_int64 z (negsuc k)))
  sends_int64 :
      (z : ℤ)
      → Fits 63 z
      → d.scale < 2 ^ 31
      → Sends d sql_int64 (be64 (twos 64 z)) (int64 (twos 64 z))
  sends_int64_scaled :
      (z : ℤ) (k : ℕ)
      → Fits 63 z
      → k < 2 ^ 31
      → d.scale ≡ twos 32 (negsuc k)
      → Sends d sql_int64 (be64 (twos 64 z)) (string (scaled_int64 z (negsuc k)))
  sends_int128 :
      (bs : Bytes) (s : ℤ)
      → length bs ≡ 16
      → Fits 31 s
      → d.scale ≡ twos 32 s
      → Sends d sql_int128 bs (string (int128_text bs s))
  sends_float : (v : ℕ) → v < 2 ^ 32 → Sends d sql_float (be32 v) (float32 v)
  sends_double : (v : ℕ) → v < 2 ^ 64 → Sends d sql_double (be64 v) (float64 v)
  sends_false : Sends d sql_boolean (be32 0) (boolean false)
  sends_true : (v : ℕ) → v < 2 ^ 32 → 1 ≤ v → Sends d sql_boolean (be32 v) (boolean true)
  sends_date : (v : ℕ) → v < 2 ^ 32 → Sends d sql_type_date (be32 v) (date v)
  sends_time : (v : ℕ) → v < 2 ^ 32 → Sends d sql_type_time (be32 v) (time v)
  sends_timestamp :
      (a b : ℕ) → a < 2 ^ 32 → b < 2 ^ 32 → Sends d sql_timestamp (be32 a ++ be32 b) (timestamp a b)
  sends_time_tz :
      (t a b c : ℕ)
      → (t ≡ sql_time_tz) ⊎ (t ≡ sql_time_tz_ex)
      → a < 2 ^ 32
      → b < 2 ^ 32
      → c < 2 ^ 32
      → Sends d t (be32 a ++ (be32 b ++ be32 c)) (time_tz a b c)
  sends_timestamp_tz :
      (t a b c e : ℕ)
      → (t ≡ sql_timestamp_tz) ⊎ (t ≡ sql_timestamp_tz_ex)
      → a < 2 ^ 32
      → b < 2 ^ 32
      → c < 2 ^ 32
      → e < 2 ^ 32
      → Sends d t (be32 a ++ (be32 b ++ (be32 c ++ be32 e))) (timestamp_tz a b c e)
  sends_octets :
      (bs : Bytes)
      → d.sub_type ≡ 1
      → length bs ≡ d.size
      → 1 ≤ d.size
      → d.size < 2 ^ 31
      → Sends d sql_text (padded bs) (bytes bs)
  sends_text_none :
      (bs : Bytes) (k : ℕ)
      → d.sub_type ≡ 0
      → is_trimmed bs ≡ true
      → length (bs ++ replicate k 32) ≡ d.size
      → 1 ≤ d.size
      → d.size < 2 ^ 31
      → Sends d sql_text (padded (bs ++ replicate k 32)) (bytes bs)
  sends_text :
      (bs : Bytes) (k : ℕ)
      → 2 ≤ d.sub_type
      → is_trimmed bs ≡ true
      → length (bs ++ replicate k 32) ≡ d.size
      → 1 ≤ d.size
      → d.size < 2 ^ 31
      → Sends d sql_text (padded (bs ++ replicate k 32)) (decoded (d.sub_type % 256) bs)
  sends_text_empty : d.size ≡ 0 → Sends d sql_text [] (string [])
  sends_varying_bytes :
      (bs : Bytes)
      → d.sub_type ≤ 1
      → length bs ≤ max_wire_buffer_len
      → Sends d sql_varying (be32 (length bs) ++ padded bs) (bytes bs)
  sends_varying :
      (bs : Bytes)
      → 2 ≤ d.sub_type
      → length bs ≤ max_wire_buffer_len
      → Sends d sql_varying (be32 (length bs) ++ padded bs) (decoded (d.sub_type % 256) bs)
  sends_blob : (v : ℕ) → v < 2 ^ 64 → Sends d sql_blob (be64 v) (blob_id v)
  sends_dec16 : (bs : Bytes) → length bs ≡ 8 → Sends d sql_dec16 bs (dec16 bs)
  sends_dec34 : (bs : Bytes) → length bs ≡ 16 → Sends d sql_dec34 bs (dec34 bs)
  sends_other :
      (t : ℕ) (bs : Bytes)
      → is_known t ≡ false
      → length bs ≤ max_wire_buffer_len
      → Sends d t (be32 (length bs) ++ padded bs) (string bs)
