-- ===== src/Wire/Blr.antt =====
-- internal/wire/blr.go: the BLR message that describes a row to the server. An int32 is its bit pattern,
-- so `x & ^1` is `x / 2 * 2`, `x & 0xFF` is `x % 256` and the byte of `x >> 8` is that of `x / 2 ^ 8`.
pub mod Parse
pub mod Messages
use go_firebird_driver.Prelude.{
  ℕ, ◌+◌, ◌*◌, ◌/◌, ◌%◌, ◌^◌, Bool, true, false, List, [], ◌∷◌, ◌++◌, length, ◌==◌, ◌||◌,
  if◌then◌else◌,
}
use go_firebird_driver.Prelude.Int.{ℤ, pos, negsuc}
use go_firebird_driver.Prelude.Bytes.{Bytes, byte}
use go_firebird_driver.Wire.Protocol.{
  blr_version5, blr_begin, blr_message, blr_end, blr_eoc, blr_short, blr_long, blr_int64,
  blr_int128, blr_float, blr_double, blr_text, blr_text2, blr_varying2, blr_bool, blr_sql_date,
  blr_sql_time, blr_timestamp, blr_ex_time_tz, blr_ex_timestamp_tz, blr_dec64, blr_dec128,
  blr_blob2, sql_short, sql_long, sql_int64, sql_int128, sql_float, sql_double, sql_text,
  sql_varying, sql_boolean, sql_type_date, sql_type_time, sql_timestamp, sql_time_tz,
  sql_time_tz_ex, sql_timestamp_tz, sql_timestamp_tz_ex, sql_dec16, sql_dec34, sql_blob, sql_null,
  sql_array,
}
use go_firebird_driver.Wire.Info.{ColumnDescriptor}

-- `charsetID`
abbrev pub charset_id : ColumnDescriptor → ℕ
charset_id desc = desc.sub_type % 256

-- `wireCharset`
abbrev pub wire_charset : ColumnDescriptor → ℕ
wire_charset desc = if desc.sub_type_from_none then 0 else charset_id desc

-- `sqlType & ^int32(1)`
abbrev pub base_type : ℕ → ℕ
base_type t = t / 2 * 2

-- `appendBLRType`
unfoldable pub append_blr_type : Bytes → ColumnDescriptor → Bytes
append_blr_type buf desc =
    let t = base_type desc.sql_type in
    let charset = wire_charset desc in
    if t == sql_short
    then buf ++ blr_short ∷ byte desc.scale ∷ []
    else if t == sql_long
    then buf ++ blr_long ∷ byte desc.scale ∷ []
    else if t == sql_int64
    then buf ++ blr_int64 ∷ byte desc.scale ∷ []
    else if t == sql_int128
    then buf ++ blr_int128 ∷ byte desc.scale ∷ []
    else if t == sql_float
    then buf ++ blr_float ∷ []
    else if t == sql_double
    then buf ++ blr_double ∷ []
    else if t == sql_text
    then buf
      ++ blr_text2
        ∷ byte charset
        ∷ byte (charset / 2 ^ 8)
        ∷ byte desc.size
        ∷ byte (desc.size / 2 ^ 8)
        ∷ []
    else if t == sql_varying
    then buf
      ++ blr_varying2
        ∷ byte charset
        ∷ byte (charset / 2 ^ 8)
        ∷ byte desc.size
        ∷ byte (desc.size / 2 ^ 8)
        ∷ []
    else if t == sql_boolean
    then buf ++ blr_bool ∷ []
    else if t == sql_type_date
    then buf ++ blr_sql_date ∷ []
    else if t == sql_type_time
    then buf ++ blr_sql_time ∷ []
    else if t == sql_timestamp
    then buf ++ blr_timestamp ∷ []
    else if t == sql_time_tz || t == sql_time_tz_ex
    then buf ++ blr_ex_time_tz ∷ []
    else if t == sql_timestamp_tz || t == sql_timestamp_tz_ex
    then buf ++ blr_ex_timestamp_tz ∷ []
    else if t == sql_dec16
    then buf ++ blr_dec64 ∷ []
    else if t == sql_dec34
    then buf ++ blr_dec128 ∷ []
    else if t == sql_blob
    then buf ++ blr_blob2 ∷ byte desc.sub_type ∷ byte (desc.sub_type / 2 ^ 8) ∷ 0 ∷ 0 ∷ []
    else if t == sql_null
    then buf ++ blr_text ∷ 0 ∷ 0 ∷ []
    else buf ++ blr_varying2 ∷ 0 ∷ 0 ∷ byte desc.size ∷ byte (desc.size / 2 ^ 8) ∷ []

-- `appendVaryingUTF8BLR`
unfoldable pub append_varying_utf8_blr : Bytes → ℕ → Bytes
append_varying_utf8_blr buf n =
    buf ++ blr_varying2 ∷ byte 4 ∷ byte (4 / 2 ^ 8) ∷ byte n ∷ byte (n / 2 ^ 8) ∷ []

-- `appendParamBLRType`
unfoldable pub append_param_blr_type : Bytes → ColumnDescriptor → Bytes
append_param_blr_type buf desc =
    let t = base_type desc.sql_type in
    if t == sql_dec16
    then append_varying_utf8_blr buf 64
    else if t == sql_dec34
    then append_varying_utf8_blr buf 128
    else append_blr_type buf desc

-- The bytes before the columns, which `AppendBLR` and `BuildParamBLR` both start with.
abbrev pub message_start : ℕ → Bytes
message_start count =
    blr_version5 ∷ blr_begin ∷ blr_message ∷ 0 ∷ byte (count * 2) ∷ byte (count * 2 / 2 ^ 8) ∷ []

-- The loop of `AppendBLR`
unfoldable pub append_columns : Bytes → List ColumnDescriptor → Bytes
append_columns dst [] = dst
append_columns dst (d ∷ ds) = append_columns (append_blr_type dst d ++ blr_short ∷ 0 ∷ []) ds

-- `AppendBLR`
unfoldable pub append_blr : Bytes → List ColumnDescriptor → Bytes
append_blr dst descs =
    append_columns (dst ++ message_start (length descs)) descs ++ blr_end ∷ blr_eoc ∷ []

-- `BuildBLR`
unfoldable pub build_blr : List ColumnDescriptor → Bytes
build_blr descs = append_blr [] descs

-- The loop of `BuildParamBLR`
unfoldable pub append_params : Bytes → List ColumnDescriptor → Bytes
append_params dst [] = dst
append_params dst (d ∷ ds) = append_params (append_param_blr_type dst d ++ blr_short ∷ 0 ∷ []) ds

-- `BuildParamBLR`
unfoldable pub build_param_blr : List ColumnDescriptor → Bytes
build_param_blr descs = append_params (message_start (length descs)) descs ++ blr_end ∷ blr_eoc ∷ []

-- `IOLength`, on an int32 length that is not negative: the int is signed.
unfoldable pub io_length : ℕ → ℕ → ℤ
io_length sql_type n =
    let t = base_type sql_type in
    if t == sql_short
      || (t == sql_long || (t == sql_float || (t == sql_type_date || t == sql_type_time)))
    then negsuc 3
    else if t == sql_double
        || (t == sql_timestamp
            || (t == sql_blob
                || (t == sql_array || (t == sql_int64 || (t == sql_dec16 || t == sql_time_tz)))))
    then negsuc 7
    else if t == sql_timestamp_tz || t == sql_time_tz_ex
    then negsuc 11
    else if t == sql_timestamp_tz_ex || (t == sql_dec34 || t == sql_int128)
    then negsuc 15
    else if t == sql_text
    then pos (n + 1)
    else if t == sql_varying
    then pos 0
    else if t == sql_boolean
    then pos 2
    else pos 0
