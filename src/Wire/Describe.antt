-- ===== src/Wire/Describe.antt =====
-- internal/wire/info.go: statement descriptions, whole or in chunks, and `CompleteSQLDescribe` of statement.go.
-- A pointer into a list of columns is an index, until the list is moved to a larger array: what is
-- written through the pointer is lost from then on.
pub mod Fields
pub mod Runs
pub mod Server
pub mod Columns
pub mod Sections
pub mod Chunks
pub mod Complete
pub mod Meaning
pub mod Bounds
use go_firebird_driver.Prelude.{
  ℕ, zero, suc, ◌+◌, ◌-◌, Bool, true, false, not, ◌&&◌, ◌||◌, List, [], ◌∷◌, ◌++◌, Option, none,
  some, ◌⊎◌, inl, inr, length, get_or, set, ltb, ◌==◌, if◌then◌else◌,
}
use go_firebird_driver.Prelude.Bytes.{Bytes}
use go_firebird_driver.Wire.Protocol.{
  isc_info_end, isc_info_truncated, isc_info_sql_select, isc_info_sql_bind,
  isc_info_sql_describe_end, isc_info_sql_stmt_type, isc_info_sql_num_variables,
  isc_info_sql_describe_vars, isc_info_sql_sqlda_seq, isc_info_sql_type, isc_info_sql_sub_type,
  isc_info_sql_scale, isc_info_sql_length, isc_info_sql_null_ind, isc_info_sql_field,
  isc_info_sql_relation, isc_info_sql_owner, isc_info_sql_alias,
}
use go_firebird_driver.Wire.Info.{
  ColumnDescriptor, blank_column, read_info_int32_le, item_value, describe_count,
  items_with_sqlda_start,
}

-- The list of one section with its capacity, and its two counters.
pub record Section : Type 0 where
  pub columns : List ColumnDescriptor
  pub capacity : ℕ
  pub total : ℕ
  pub done : ℕ

abbrev pub blank_section : Section
blank_section = record { columns = []; capacity = 0; total = 0; done = 0 }

-- `describeState`
pub record DescribeState : Type 0 where
  pub stmt_type : ℕ
  pub outputs : Section
  pub inputs : Section

abbrev pub blank_state : DescribeState
blank_state = record { stmt_type = 0; outputs = blank_section; inputs = blank_section }

-- `currentList`, `totalVars` and `doneVars`, which are set together.
pub data Focus : Type 0 where
  nowhere on_outputs on_inputs : Focus

-- `current`: nil, a column of the list in focus, or one of an array that the list has left.
pub data Current : Type 0 where
  no_column stale : Current
  column : ℕ → Current

-- The variables of the loop.
pub record Parser : Type 0 where
  pub state : DescribeState
  pub focus : Focus
  pub current : Current

-- A change of the section in focus.
unfoldable pub on_section : (Section → Section) → Focus → DescribeState → DescribeState
on_section f nowhere st = st
on_section f on_outputs st = record st { outputs = f st.outputs }
on_section f on_inputs st = record st { inputs = f st.inputs }

unfoldable pub in_focus : Focus → DescribeState → Option Section
in_focus nowhere st = none
in_focus on_outputs st = some st.outputs
in_focus on_inputs st = some st.inputs

abbrev pub moved : Current → Current
moved (column i) = stale
moved c = c

-- `case IscInfoSQLNumVariables, IscInfoSQLDescribeVars`, on the section in focus.
unfoldable pub on_count : ℕ → Option Section → Parser → Parser
on_count n none p = p
on_count n (some s) p =
    if ltb 0 n && ltb s.capacity n
    then record p {
      state = on_section (λ x. record x { total = n; capacity = n }) p.focus p.state;
      current = moved p.current;
    }
    else record p { state = on_section (λ x. record x { total = n }) p.focus p.state }

-- `append(*currentList, ColumnDescriptor{})`; `grow` gives the capacity of a new array.
unfoldable pub append_blank : (ℕ → ℕ) → Section → Section
append_blank grow s = record s {
  columns = s.columns ++ blank_column ∷ [];
  capacity = if ltb (length s.columns) s.capacity then s.capacity else grow s.capacity;
}

-- `for len(*currentList) < seq`, for the rounds that are left.
unfoldable pub extend : (ℕ → ℕ) → ℕ → Section → Section
extend grow zero s = s
extend grow (suc n) s = extend grow n (append_blank grow s)

-- `case IscInfoSQLSQLDASeq`
unfoldable pub on_seq : (ℕ → ℕ) → ℕ → Option Section → Parser → Parser
on_seq grow seq none p = p
on_seq grow seq (some s) p =
    if seq == 0
    then record p { current = no_column }
    else if ltb 0 s.total && ltb s.total seq
    then record p { current = no_column }
    else record p {
      state = on_section (λ x. extend grow (seq - length x.columns) x) p.focus p.state;
      current = column (seq - 1);
    }

-- The other cases of the switch, on the column that `current` points to.
unfoldable pub set_field : ℕ → Bytes → ColumnDescriptor → ColumnDescriptor
set_field tag v c =
    if tag == isc_info_sql_type
    then record c { sql_type = read_info_int32_le v }
    else if tag == isc_info_sql_sub_type
    then record c { sub_type = read_info_int32_le v }
    else if tag == isc_info_sql_scale
    then record c { scale = read_info_int32_le v }
    else if tag == isc_info_sql_length
    then record c { size = read_info_int32_le v }
    else if tag == isc_info_sql_null_ind
    then record c { nullable = not (read_info_int32_le v == 0) }
    else if tag == isc_info_sql_field
    then record c { field_name = v }
    else if tag == isc_info_sql_relation
    then record c { relation_name = v }
    else if tag == isc_info_sql_owner
    then record c { owner_name = v }
    else if tag == isc_info_sql_alias
    then record c { alias_name = v }
    else c

abbrev pub change : ℕ → (ColumnDescriptor → ColumnDescriptor) → Section → Section
change i f s = record s { columns = set s.columns i (f (get_or s.columns i blank_column)) }

unfoldable pub on_field : (ColumnDescriptor → ColumnDescriptor) → Current → Parser → Parser
on_field f no_column p = p
on_field f stale p = p
on_field f (column i) p = record p { state = on_section (change i f) p.focus p.state }

-- The switch on the tag of an item.
unfoldable pub on_item : (ℕ → ℕ) → ℕ → Bytes → Parser → Parser
on_item grow tag v p =
    if tag == isc_info_sql_stmt_type
    then record p { state = record (p.state) { stmt_type = read_info_int32_le v } }
    else if tag == isc_info_sql_num_variables || tag == isc_info_sql_describe_vars
    then on_count (describe_count (read_info_int32_le v)) (in_focus p.focus p.state) p
    else if tag == isc_info_sql_sqlda_seq
    then on_seq grow (describe_count (read_info_int32_le v)) (in_focus p.focus p.state) p
    else on_field (set_field tag v) p.current p

-- `IscInfoSQLSelect`, `IscInfoSQLBind` and `IscInfoSQLDescribeEnd`, which have no length.
abbrev pub is_marker : ℕ → Bool
is_marker tag =
    tag == isc_info_sql_select || (tag == isc_info_sql_bind || tag == isc_info_sql_describe_end)

unfoldable pub end_column : Current → Parser → Parser
end_column no_column p = p
end_column c p = record p {
  state = on_section (λ x. record x { done = suc x.done }) p.focus p.state;
  current = no_column;
}

unfoldable pub on_marker : ℕ → Parser → Parser
on_marker tag p =
    if tag == isc_info_sql_select
    then record p { focus = on_outputs; current = no_column }
    else if tag == isc_info_sql_bind
    then record p { focus = on_inputs; current = no_column }
    else end_column p.current p

-- The loop of `parseSQLDescribeChunk`, on the bytes from `pos` on, with fuel.
unfoldable pub describe_loop : (ℕ → ℕ) → ℕ → Bytes → Parser → Option (DescribeState × Bool)
describe_loop grow fuel [] p = some (p.state, false)
describe_loop grow zero (tag ∷ r) p = none
describe_loop grow (suc fuel) (tag ∷ r) p =
    let marked = describe_loop grow fuel r (on_marker tag p) in
    if tag == isc_info_end
    then some (p.state, false)
    else if tag == isc_info_truncated
    then some (p.state, true)
    else if is_marker tag
    then marked
    else elim (item_value r) [
      | none ↦ some (p.state, false)
      | some (v, r') ↦ describe_loop grow fuel r' (on_item grow tag v p)
    ]

abbrev pub start_parser : DescribeState → Parser
start_parser st = record { state = st; focus = nowhere; current = no_column }

-- `parseSQLDescribeChunk`: each round takes a byte at least.
unfoldable pub parse_sql_describe_chunk :
    (ℕ → ℕ) → Bytes → DescribeState → Option (DescribeState × Bool)
parse_sql_describe_chunk grow buf st = describe_loop grow (length buf) buf (start_parser st)

-- `ParseSQLDescribeInfo`, which looks at one buffer.
unfoldable pub parse_sql_describe_info : (ℕ → ℕ) → Bytes → Option DescribeState
parse_sql_describe_info grow buf = elim (parse_sql_describe_chunk grow buf blank_state) [
  | none ↦ none
  | some (st, truncated) ↦ some st
]
