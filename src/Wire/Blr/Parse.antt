-- ===== src/Wire/Blr/Parse.antt =====
-- A reference reader of BLR messages, and what `BuildBLR` and `BuildParamBLR` write read back through it.
use go_firebird_driver.Prelude.{
  ℕ, zero, suc, ◌+◌, ◌*◌, ◌/◌, ◌%◌, ◌^◌, List, [], ◌∷◌, Option, none, some, ◌>>=◌, ◌==◌, ◌||◌, ◌&&◌,
  if◌then◌else◌,
}
use go_firebird_driver.Prelude.Bytes.{Bytes}
use go_firebird_driver.Wire.Protocol.{
  blr_version5, blr_begin, blr_message, blr_end, blr_eoc, blr_short, blr_long, blr_int64,
  blr_int128, blr_float, blr_double, blr_text, blr_text2, blr_varying2, blr_bool, blr_sql_date,
  blr_sql_time, blr_timestamp, blr_ex_time_tz, blr_ex_timestamp_tz, blr_dec64, blr_dec128,
  blr_blob2, sql_short, sql_long, sql_int64, sql_int128, sql_float, sql_double, sql_text,
  sql_varying, sql_boolean, sql_type_date, sql_type_time, sql_timestamp, sql_time_tz,
  sql_time_tz_ex, sql_timestamp_tz, sql_timestamp_tz_ex, sql_dec16, sql_dec34, sql_blob, sql_null,
}
use go_firebird_driver.Wire.Info.{ColumnDescriptor}
use go_firebird_driver.Wire.Blr.{base_type}

-- A field of a message: an opcode with its operands.
pub data Field : Type 0 where
  scaled : ℕ → ℕ → Field
  plain : ℕ → Field
  counted : ℕ → ℕ → ℕ → Field
  raw_text : ℕ → Field
  blob : ℕ → ℕ → ℕ → Field

-- How many bytes of operands an opcode has.
pub data Shape : Type 0 where
  of_scale of_nothing of_text of_length of_blob unknown : Shape

unfoldable pub shape : ℕ → Shape
shape op =
    if op == blr_short || (op == blr_long || (op == blr_int64 || op == blr_int128))
    then Shape.of_scale
    else if op == blr_text2 || op == blr_varying2
    then Shape.of_text
    else if op == blr_text
    then Shape.of_length
    else if op == blr_blob2
    then Shape.of_blob
    else if op == blr_float
        || (op == blr_double
            || (op == blr_bool
                || (op == blr_sql_date
                    || (op == blr_sql_time
                        || (op == blr_timestamp
                            || (op == blr_ex_time_tz
                                || (op == blr_ex_timestamp_tz
                                    || (op == blr_dec64 || op == blr_dec128))))))))
    then Shape.of_nothing
    else Shape.unknown

unfoldable pub operands : Shape → ℕ → Bytes → Option (Field × Bytes)
operands Shape.of_scale op (s ∷ r) = some (Field.scaled op s, r)
operands Shape.of_nothing op r = some (Field.plain op, r)
operands Shape.of_text op (a ∷ b ∷ c ∷ d ∷ r) =
    some (Field.counted op (a + b * 256) (c + d * 256), r)
operands Shape.of_length op (a ∷ b ∷ r) = some (Field.raw_text (a + b * 256), r)
operands Shape.of_blob op (a ∷ b ∷ c ∷ d ∷ r) = some (Field.blob (a + b * 256) c d, r)
operands _ op r = none

unfoldable pub field : Bytes → Option (Field × Bytes)
field [] = none
field (op ∷ r) = operands (shape op) op r

-- A field, and the null indicator behind it.
unfoldable pub indicator : Field × Bytes → Option (Field × Bytes)
indicator (f, a ∷ b ∷ r) = if a == blr_short && b == 0 then some (f, r) else none
indicator (f, r) = none

-- `n` fields with their null indicators, then the end.
unfoldable pub fields : ℕ → Bytes → Option (List Field)
fields zero (a ∷ b ∷ []) = if a == blr_end && b == blr_eoc then some [] else none
fields zero r = none
fields (suc n) r = do fr ← field r; fr' ← indicator fr; fs ← fields n fr'.1; some (fr'.0 ∷ fs)

-- A whole message: version 5, `begin`, message 0 and twice the number of fields, then the fields.
unfoldable pub parse_message : Bytes → Option (List Field)
parse_message (v ∷ b ∷ m ∷ z ∷ lo ∷ hi ∷ r) =
    let n = lo + hi * 256 in
    if v == blr_version5 && (b == blr_begin && (m == blr_message && (z == 0 && n % 2 == 0)))
    then fields (n / 2) r
    else none
parse_message r = none

-- The field that a column asks for. Its charset is the low byte of the subtype, and NONE where the
-- subtype was put in for NONE.
unfoldable pub described : ColumnDescriptor → Field
described d =
    let t = base_type d.sql_type in
    let charset = if d.sub_type_from_none then 0 else d.sub_type % 256 in
    if t == sql_short
    then Field.scaled blr_short (d.scale % 256)
    else if t == sql_long
    then Field.scaled blr_long (d.scale % 256)
    else if t == sql_int64
    then Field.scaled blr_int64 (d.scale % 256)
    else if t == sql_int128
    then Field.scaled blr_int128 (d.scale % 256)
    else if t == sql_float
    then Field.plain blr_float
    else if t == sql_double
    then Field.plain blr_double
    else if t == sql_text
    then Field.counted blr_text2 charset (d.size % 2 ^ 16)
    else if t == sql_varying
    then Field.counted blr_varying2 charset (d.size % 2 ^ 16)
    else if t == sql_boolean
    then Field.plain blr_bool
    else if t == sql_type_date
    then Field.plain blr_sql_date
    else if t == sql_type_time
    then Field.plain blr_sql_time
    else if t == sql_timestamp
    then Field.plain blr_timestamp
    else if t == sql_time_tz || t == sql_time_tz_ex
    then Field.plain blr_ex_time_tz
    else if t == sql_timestamp_tz || t == sql_timestamp_tz_ex
    then Field.plain blr_ex_timestamp_tz
    else if t == sql_dec16
    then Field.plain blr_dec64
    else if t == sql_dec34
    then Field.plain blr_dec128
    else if t == sql_blob
    then Field.blob (d.sub_type % 2 ^ 16) 0 0
    else if t == sql_null
    then Field.raw_text 0
    else Field.counted blr_varying2 0 (d.size % 2 ^ 16)

-- The field that a parameter is sent as: decimal floats go as texts in UTF-8.
unfoldable pub described_param : ColumnDescriptor → Field
described_param d =
    let t = base_type d.sql_type in
    if t == sql_dec16
    then Field.counted blr_varying2 4 64
    else if t == sql_dec34
    then Field.counted blr_varying2 4 128
    else described d
