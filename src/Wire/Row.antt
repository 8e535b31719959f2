-- ===== src/Wire/Row.antt =====
-- internal/wire/types_decode.go: columns and rows. A value is kept as it is before package time, math or
-- the charset tables turn it into one of theirs, and a DECFLOAT before its text; integers are bit patterns.
pub mod Column
pub mod Types
pub mod Layout
use go_firebird_driver.Prelude.{
  ℕ, zero, suc, ◌+◌, ◌-◌, ◌*◌, ◌/◌, ◌%◌, ◌^◌, Bool, true, false, not, ◌&&◌, ◌||◌, List, [], ◌∷◌,
  ◌++◌, Option, none, some, length, take, drop, replicate, ltb, leb, ◌==◌, if◌then◌else◌,
}
use go_firebird_driver.Prelude.Bytes.{Bytes, at, is_empty}
use go_firebird_driver.Prelude.Int.{ℤ, pos, negsuc, ltb_ℤ}
use go_firebird_driver.Wire.Protocol.{
  sql_text, sql_varying, sql_short, sql_long, sql_float, sql_double, sql_timestamp, sql_blob,
  sql_type_date, sql_type_time, sql_int64, sql_int128, sql_timestamp_tz, sql_time_tz,
  sql_time_tz_ex, sql_timestamp_tz_ex, sql_dec16, sql_dec34, sql_boolean,
}
use go_firebird_driver.Wire.Writer.{padding}
use go_firebird_driver.Wire.Reader.{
  ReadError, Reader, read_full, read_view, read_int32, read_uint32, read_int64, read_buffer,
  read_string, uint64_be,
}
use go_firebird_driver.Wire.Info.{ColumnDescriptor}
use go_firebird_driver.Wire.Blr.{base_type}
use go_firebird_driver.Wire.Decimal.Print.{scaled_int64}
use go_firebird_driver.Wire.Int128.{int128_text}

-- What a column holds: nil, a number of its width, a Go string, bytes, a date of days, a time of ticks, with
-- the time zone and its offset; `decoded` is the bytes that fbcharset.Decode is given with a charset.
pub data Value : Type 0 where
  null_value : Value
  int16 int32 int64 float32 float64 date time : ℕ → Value
  timestamp : ℕ → ℕ → Value
  time_tz : ℕ → ℕ → ℕ → Value
  timestamp_tz : ℕ → ℕ → ℕ → ℕ → Value
  boolean : Bool → Value
  string bytes : Bytes → Value
  decoded : ℕ → Bytes → Value
  blob_id : ℕ → Value
  dec16 dec34 : Bytes → Value

-- The integer of `w + 1` bits with a bit pattern.
abbrev pub signed_of : ℕ → ℕ → ℤ
signed_of w v = if leb (2 ^ w) v then negsuc (2 ^ suc w - 1 - v) else pos v

-- `fbcharset.IDNone` and `fbcharset.IDOctets`
abbrev pub id_none : ℕ
id_none = 0

abbrev pub id_octets : ℕ
id_octets = 1

-- `trimRightSpaces`
unfoldable pub trim_right_spaces : Bytes → Bytes
trim_right_spaces [] = []
trim_right_spaces (b ∷ bs) =
    let rest = trim_right_spaces bs in if is_empty rest && b == 32 then [] else b ∷ rest

-- The integer, or its text where the scale is negative.
unfoldable pub scaled_or : Value → ℤ → ℕ → Value
scaled_or plain v scale =
    let s = signed_of 31 scale in if ltb_ℤ s (pos 0) then string (scaled_int64 v s) else plain

-- A view of `n` bytes, or what is returned where it fails.
unfoldable pub viewed : Value → (Bytes → Value) → Bytes × Reader → Value × Reader
viewed failed f (bs, r) = elim r.err [ some e ↦ (failed, r) | none ↦ (f bs, r) ]

-- `case SQLText` and `case SQLVarying` behind the read.
unfoldable pub text_value : ColumnDescriptor → Bytes → Value
text_value d bs =
    if d.sub_type == id_octets
    then bytes bs
    else if d.sub_type == id_none
    then bytes (trim_right_spaces bs)
    else decoded (d.sub_type % 256) (trim_right_spaces bs)

unfoldable pub varying_value : ColumnDescriptor → Bytes → Value
varying_value d bs =
    if d.sub_type == id_octets || d.sub_type == id_none
    then bytes bs
    else decoded (d.sub_type % 256) bs

-- `case SQLText`
unfoldable pub decode_text : ColumnDescriptor → Reader → Value × Reader
decode_text d r =
    let n = d.size in
    let read = viewed (string []) (λ bs. text_value d (take n bs)) (read_view r (n + padding n)) in
    if n == 0 || leb (2 ^ 31) n then (string [], r) else read

-- The cases of the switch.
pub data Kind : Type 0 where
  short long big real double bool day clock moment clock_tz moment_tz fixed varying blob decimal16
        decimal34 huge other :
      Kind

unfoldable pub kind_of : ℕ → Kind
kind_of t =
    if t == sql_short
    then short
    else if t == sql_long
    then long
    else if t == sql_int64
    then big
    else if t == sql_float
    then real
    else if t == sql_double
    then double
    else if t == sql_boolean
    then bool
    else if t == sql_type_date
    then day
    else if t == sql_type_time
    then clock
    else if t == sql_timestamp
    then moment
    else if t == sql_time_tz || t == sql_time_tz_ex
    then clock_tz
    else if t == sql_timestamp_tz || t == sql_timestamp_tz_ex
    then moment_tz
    else if t == sql_text
    then fixed
    else if t == sql_varying
    then varying
    else if t == sql_blob
    then blob
    else if t == sql_dec16
    then decimal16
    else if t == sql_dec34
    then decimal34
    else if t == sql_int128
    then huge
    else other

unfoldable pub decode_as : Kind → ColumnDescriptor → Reader → Value × Reader
decode_as short d r =
    let (v, r') = read_int32 r in
    (scaled_or (int16 (v % 2 ^ 16)) (signed_of 15 (v % 2 ^ 16)) d.scale, r')
decode_as long d r =
    let (v, r') = read_int32 r in (scaled_or (int32 v) (signed_of 31 v) d.scale, r')
decode_as big d r = let (v, r') = read_int64 r in (scaled_or (int64 v) (signed_of 63 v) d.scale, r')
decode_as real d r = let (v, r') = read_uint32 r in (float32 v, r')
decode_as double d r = viewed (float64 0) (λ bs. float64 (uint64_be bs)) (read_view r 8)
decode_as bool d r = let (v, r') = read_int32 r in (boolean (not (v == 0)), r')
decode_as day d r = let (v, r') = read_int32 r in (date v, r')
decode_as clock d r = let (v, r') = read_uint32 r in (time v, r')
decode_as moment d r =
    let (mjd, r1) = read_int32 r in let (ticks, r2) = read_uint32 r1 in (timestamp mjd ticks, r2)
decode_as clock_tz d r =
    let (ticks, r1) = read_uint32 r in
    let (tz, r2) = read_uint32 r1 in
    let (offset, r3) = read_int32 r2 in (time_tz ticks tz offset, r3)
decode_as moment_tz d r =
    let (mjd, r1) = read_int32 r in
    let (ticks, r2) = read_uint32 r1 in
    let (tz, r3) = read_uint32 r2 in
    let (offset, r4) = read_int32 r3 in (timestamp_tz mjd ticks tz offset, r4)
decode_as fixed d r = decode_text d r
decode_as varying d r = viewed (string []) (varying_value d) (read_buffer r)
decode_as blob d r = let (v, r') = read_int64 r in (blob_id v, r')
decode_as decimal16 d r = viewed (string []) dec16 (read_view r 8)
decode_as decimal34 d r = viewed (string []) dec34 (read_view r 16)
decode_as huge d r =
    viewed (string []) (λ bs. string (int128_text bs (signed_of 31 d.scale))) (read_view r 16)
decode_as other d r = let (v, r') = read_string r in (string v, r')

-- `DecodeColumn`
unfoldable pub decode_column : ColumnDescriptor → Reader → Value × Reader
decode_column d r = decode_as (kind_of (base_type d.sql_type)) d r

-- `byteCount` and `padded`
abbrev pub byte_count : ℕ → ℕ
byte_count n = (n + 7) / 8

abbrev pub padded_count : ℕ → ℕ
padded_count n = (byte_count n + 3) / 4 * 4

-- `readNullBitsetInto`, on the first `padded` bytes of the buffer, which a failed read leaves as they are.
unfoldable pub read_null_bitset_into : Reader → ℕ → Bytes → Bytes × Reader
read_null_bitset_into r col_count buf =
    let (bs, r') = read_full r (padded_count col_count) in (if is_empty bs then buf else bs, r')

-- `IsNull`
unfoldable pub is_null : Bytes → ℕ → Bool
is_null bitset idx =
    if leb (length bitset) (idx / 8)
    then false
    else not (at bitset (idx / 8) / 2 ^ (idx % 8) % 2 == 0)

-- The loop of `DecodeRow`, from column `i` on.
unfoldable pub decode_columns : Bytes → ℕ → List ColumnDescriptor → Reader → List Value × Reader
decode_columns bitset i [] r = ([], r)
decode_columns bitset i (d ∷ ds) r =
    let (v, r1) = if is_null bitset i then (null_value, r) else decode_column d r in
    let (vs, r2) = decode_columns bitset (suc i) ds r1 in (v ∷ vs, r2)

-- The errors of `DecodeRow`.
pub data RowError : Type 0 where
  short_row : RowError
  broken_row : ReadError → RowError

pub record RowResult : Type 0 where
  pub failure : Option RowError
  pub row : List Value
  pub reader : Reader

-- `DecodeRow`
unfoldable pub decode_row : Reader → List ColumnDescriptor → Bytes → List Value → RowResult
decode_row r descs null_buf row =
    let n = padded_count (length descs) in
    let buf = if ltb (length null_buf) n then replicate n 0 else take n null_buf in
    let (bitset, r1) = read_null_bitset_into r (length descs) buf in
    let (vs, r2) = decode_columns (take (byte_count (length descs)) bitset) 0 descs r1 in
    if ltb (length row) (length descs)
    then record { failure = some short_row; row = row; reader = r }
    else record {
      failure = elim r2.err [ some e ↦ some (broken_row e) | none ↦ none ];
      row = vs ++ drop (length descs) row;
      reader = r2;
    }
