-- ===== src/Wire/Info.antt =====
-- internal/wire/info.go: tagged info buffers, record counts, and the column descriptors that statement
-- descriptions are parsed into. An int32 is its bit pattern, a Go string the list of its bytes.
pub mod Items
pub mod Records
use go_firebird_driver.Prelude.{
  ℕ, zero, suc, ◌+◌, ◌-◌, ◌/◌, ◌%◌, ◌^◌, Bool, true, false, List, [], ◌∷◌, ◌++◌, Option, none, some,
  length, take, drop, ltb, leb, ◌==◌, ◌||◌, if◌then◌else◌,
}
use go_firebird_driver.Prelude.Bytes.{Bytes, at, byte, uint16_le, uint32_le}
use go_firebird_driver.Wire.Protocol.{
  isc_info_data_not_ready, isc_info_end, isc_info_error, isc_info_req_delete_count,
  isc_info_req_insert_count, isc_info_req_select_count, isc_info_req_update_count,
  isc_info_sql_alias, isc_info_sql_bind, isc_info_sql_describe_end, isc_info_sql_describe_vars,
  isc_info_sql_field, isc_info_sql_length, isc_info_sql_null_ind, isc_info_sql_num_variables,
  isc_info_sql_records, isc_info_sql_scale, isc_info_sql_select, isc_info_sql_sqlda_seq,
  isc_info_sql_sqlda_start, isc_info_sql_stmt_type, isc_info_sql_sub_type, isc_info_sql_type,
  isc_info_truncated,
}

-- `InfoItem`
pub record InfoItem : Type 0 where
  pub tag : ℕ
  pub value : Bytes

-- `readInfoInt32LE`, and `Int32LE` on the data of an item.
unfoldable pub read_info_int32_le : Bytes → ℕ
read_info_int32_le data_ =
    let l = length data_ in
    if l == 0
    then 0
    else if l == 1
    then at data_ 0
    else if l == 2
    then uint16_le data_
    else if leb 4 l
    then uint32_le (take 4 data_)
    else at data_ 0

pub int32_le : InfoItem → ℕ
int32_le item = read_info_int32_le item.value

-- The value of an item whose tag has been read, and the bytes behind it: `none` where the buffer ends
-- inside the length or the value.
pub item_value : Bytes → Option (Bytes × Bytes)
item_value r =
    if ltb (length r) 2
    then none
    else (let n = uint16_le r in
        let body = drop 2 r in
        if ltb (length body) n then none else some (take n body, drop n body))

-- The loop of `ParseInfoBuffer`, on the bytes from `pos` on, with fuel.
pub info_loop : ℕ → Bytes → List InfoItem → Option (List InfoItem × Bool)
info_loop fuel [] items = some (items, false)
info_loop zero (tag ∷ r) items = none
info_loop (suc fuel) (tag ∷ r) items =
    if tag == isc_info_end
    then some (items, false)
    else if tag == isc_info_truncated
    then some (items, true)
    else elim (item_value r) [
      | none ↦ some (items, false)
      | some (v, r') ↦ info_loop fuel r' (items ++ record { tag = tag; value = v } ∷ [])
    ]

-- `ParseInfoBuffer`: each round takes a byte at least, so `len(buf)` rounds are enough.
pub parse_info_buffer : Bytes → Option (List InfoItem × Bool)
parse_info_buffer buf = info_loop (length buf) buf []

-- The four results of `ParseRecordCounts`.
pub record Counts : Type 0 where
  pub selected : ℕ
  pub inserted : ℕ
  pub updated : ℕ
  pub deleted : ℕ

abbrev pub no_counts : Counts
no_counts = record { selected = 0; inserted = 0; updated = 0; deleted = 0 }

-- `case IscInfoEnd, IscInfoTruncated, IscInfoError, IscInfoDataNotReady`
unfoldable pub is_control : ℕ → Bool
is_control tag =
    tag == isc_info_end
    || (tag == isc_info_truncated || (tag == isc_info_error || tag == isc_info_data_not_ready))

-- The inner switch of `parseRecordCountItems`
pub set_count : ℕ → ℕ → Counts → Counts
set_count tag v c =
    if tag == isc_info_req_select_count
    then record c { selected = v }
    else if tag == isc_info_req_insert_count
    then record c { inserted = v }
    else if tag == isc_info_req_update_count
    then record c { updated = v }
    else if tag == isc_info_req_delete_count
    then record c { deleted = v }
    else c

-- The int64 of an int32, both as bit patterns.
abbrev pub sign_extend : ℕ → ℕ
sign_extend v = if leb (2 ^ 31) v then v + (2 ^ 64 - 2 ^ 32) else v

-- `parseRecordCountItems`, on the bytes from `pos` on, with fuel.
pub count_items : ℕ → Bytes → Counts → Option Counts
count_items fuel [] c = some c
count_items zero (tag ∷ r) c = none
count_items (suc fuel) (tag ∷ r) c = if is_control tag then some c else elim (item_value r) [
  | none ↦ some c
  | some (v, r') ↦ count_items fuel r' (set_count tag (sign_extend (read_info_int32_le v)) c)
]

-- The loop of `ParseRecordCounts`, with fuel.
pub counts_loop : ℕ → Bytes → Option Counts
counts_loop fuel [] = some no_counts
counts_loop zero (tag ∷ r) = none
counts_loop (suc fuel) (tag ∷ r) = if is_control tag then some no_counts else elim (item_value r) [
  | none ↦ some no_counts
  | some (v, r') ↦
      if tag == isc_info_sql_records
      then count_items (length v) v no_counts
      else counts_loop fuel r'
]

-- `ParseRecordCounts`
pub parse_record_counts : Bytes → Option Counts
parse_record_counts buf = counts_loop (length buf) buf

-- `ColumnDescriptor`
pub record ColumnDescriptor : Type 0 where
  pub field_name : Bytes
  pub relation_name : Bytes
  pub owner_name : Bytes
  pub alias_name : Bytes
  pub sql_type : ℕ
  pub sub_type : ℕ
  pub scale : ℕ
  pub size : ℕ
  pub nullable : Bool
  pub sub_type_from_none : Bool

-- `ColumnDescriptor{}`
abbrev pub blank_column : ColumnDescriptor
blank_column = record {
  field_name = [];
  relation_name = [];
  owner_name = [];
  alias_name = [];
  sql_type = 0;
  sub_type = 0;
  scale = 0;
  size = 0;
  nullable = false;
  sub_type_from_none = false;
}

abbrev pub max_sql_describe_columns : ℕ
max_sql_describe_columns = 4096

-- `describeCount`: `v <= 0` on the int32 that the bit pattern `v` stands for.
unfoldable pub describe_count : ℕ → ℕ
describe_count v = if v == 0 || leb (2 ^ 31) v || ltb max_sql_describe_columns v then 0 else v

-- `itemsWithSqldaStart`
unfoldable pub items_with_sqlda_start : Bytes → ℕ → ℕ → Bytes
items_with_sqlda_start [] next_output next_input = []
items_with_sqlda_start (it ∷ items) next_output next_input =
    let later = items_with_sqlda_start items next_output next_input in
    let idx = if it == isc_info_sql_bind then next_input else next_output in
    if it == isc_info_sql_select || it == isc_info_sql_bind
    then isc_info_sql_sqlda_start ∷ 2 ∷ idx % 256 ∷ byte (idx / 2 ^ 8) ∷ it ∷ later
    else it ∷ later

-- `PrepareInfoItems`
abbrev pub prepare_info_items : Bytes
prepare_info_items =
    isc_info_sql_stmt_type ∷ isc_info_sql_select ∷ isc_info_sql_num_variables
    ∷ isc_info_sql_describe_vars ∷ isc_info_sql_sqlda_seq ∷ isc_info_sql_type
    ∷ isc_info_sql_sub_type ∷ isc_info_sql_scale ∷ isc_info_sql_length ∷ isc_info_sql_null_ind
    ∷ isc_info_sql_field ∷ isc_info_sql_alias ∷ isc_info_sql_describe_end ∷ isc_info_sql_bind
    ∷ isc_info_sql_num_variables ∷ isc_info_sql_describe_vars ∷ isc_info_sql_sqlda_seq
    ∷ isc_info_sql_type ∷ isc_info_sql_sub_type ∷ isc_info_sql_scale ∷ isc_info_sql_length
    ∷ isc_info_sql_describe_end ∷ []

-- `PrepareExecInfoItems`
abbrev pub prepare_exec_info_items : Bytes
prepare_exec_info_items =
    isc_info_sql_stmt_type ∷ isc_info_sql_bind ∷ isc_info_sql_num_variables
    ∷ isc_info_sql_describe_vars ∷ isc_info_sql_sqlda_seq ∷ isc_info_sql_type
    ∷ isc_info_sql_sub_type ∷ isc_info_sql_scale ∷ isc_info_sql_length ∷ isc_info_sql_describe_end
    ∷ []
