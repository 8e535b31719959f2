-- ===== src/Wire/Describe/Columns.antt =====
-- The items of one section, through the loop: a count, a number, a setting, an end.
use go_firebird_driver.Prelude.{
  ℕ, suc, ◌-◌, ◌^◌, ◌≤◌, ◌<◌, ◌≡◌, refl, ap, Bool, true, false, [], arith, length, ltb, ◌==◌, ◌&&◌,
  if◌then◌else◌,
}
use go_firebird_driver.Prelude.Bytes.{le32, uint32_le-le32}
use go_firebird_driver.Wire.Protocol.{
  isc_info_end, isc_info_truncated, isc_info_sql_select, isc_info_sql_bind, isc_info_sql_sqlda_seq,
  isc_info_sql_num_variables, isc_info_sql_describe_vars, isc_info_sql_describe_end,
  isc_info_sql_stmt_type,
}
use go_firebird_driver.Wire.Info.{InfoItem, read_info_int32_le, describe_count}
use go_firebird_driver.Wire.Describe.{
  Section, DescribeState, Focus, on_outputs, on_inputs, Current, no_column, column, Parser,
  is_marker, on_section, in_focus, on_count, extend, on_seq, set_field, change, on_field, on_item,
  end_column, on_marker, start_parser,
}
use go_firebird_driver.Wire.Describe.Server.{IsSetting, is_setting}

-- The outputs for `true`, the inputs for `false`.
abbrev pub focus_of : Bool → Focus
focus_of true = on_outputs
focus_of false = on_inputs

abbrev pub with_section : Bool → Section → DescribeState → DescribeState
with_section true s st = record st { outputs = s }
with_section false s st = record st { inputs = s }

unfoldable pub on : Bool → Section → DescribeState → Current → Parser
on side s st c = record { state = with_section side s st; focus = focus_of side; current = c }

unfoldable pub counted : ℕ → Section → Section
counted n s =
    if ltb 0 n && ltb s.capacity n
    then record s { total = n; capacity = n }
    else record s { total = n }

pub int_value : (n : ℕ) → n < 2 ^ 32 → read_info_int32_le (le32 n) ≡ n
unfolding read_info_int32_le
int_value n h = uint32_le-le32 n [] h

count_value : (n : ℕ) → n ≤ 4096 → describe_count (read_info_int32_le (le32 n)) ≡ n
unfolding describe_count
count_value n h = rw (int_value n (omega arith)) (ground arith)

abbrev pub section_of : Bool → DescribeState → Section
section_of true st = st.outputs
section_of false st = st.inputs

abbrev pub marker_of : Bool → ℕ
marker_of true = isc_info_sql_select
marker_of false = isc_info_sql_bind

pub marker_of-plain :
    (side : Bool)
    → ((marker_of side == isc_info_end) ≡ false)
      × ((marker_of side == isc_info_truncated) ≡ false)
      × (is_marker (marker_of side) ≡ true)
marker_of-plain true = (refl, refl, refl)
marker_of-plain false = (refl, refl, refl)

pub on_marker-start :
    (side : Bool) (p : Parser)
    → on_marker (marker_of side) p ≡ on side (section_of side p.state) p.state no_column
unfolding on_marker on
on_marker-start true p = refl
on_marker-start false p = refl

pub counted-total : (n : ℕ) (s : Section) → (counted n s).total ≡ n
unfolding counted
counted-total n s = ground arith

pub counted-done : (n : ℕ) (s : Section) → (counted n s).done ≡ s.done
unfolding counted
counted-done n s = ground arith

pub counted-columns : (n : ℕ) (s : Section) → (counted n s).columns ≡ s.columns
unfolding counted
counted-columns n s = ground arith

module _ (grow : ℕ → ℕ) where
  pub on_item-stmt_type :
      (st : DescribeState) (n : ℕ)
      → n < 2 ^ 32
      → on_item grow isc_info_sql_stmt_type (le32 n) (start_parser st)
        ≡ start_parser (record st { stmt_type = n })
  unfolding on_item
  on_item-stmt_type st n h = ap (λ x. start_parser (record st { stmt_type = x })) (int_value n h)

  pub on_item-num_variables :
      (side : Bool) (s : Section) (st : DescribeState) (n : ℕ)
      → n ≤ 4096
      → on_item grow isc_info_sql_num_variables (le32 n) (on side s st no_column)
        ≡ on side (counted n s) st no_column
  unfolding on_item on on_count counted in_focus on_section
  on_item-num_variables true s st n h = let e = count_value n h in ground (arith, e)
  on_item-num_variables false s st n h = let e = count_value n h in ground (arith, e)

  pub on_item-describe_vars :
      (side : Bool) (s : Section) (st : DescribeState) (n : ℕ)
      → n ≤ 4096
      → on_item grow isc_info_sql_describe_vars (le32 n) (on side s st no_column)
        ≡ on side (counted n s) st no_column
  unfolding on_item on on_count counted in_focus on_section
  on_item-describe_vars true s st n h = let e = count_value n h in ground (arith, e)
  on_item-describe_vars false s st n h = let e = count_value n h in ground (arith, e)

  pub on_item-seq :
      (side : Bool) (s : Section) (st : DescribeState) (k : ℕ)
      → suc k ≤ 4096
      → suc k ≤ s.total
      → on_item grow isc_info_sql_sqlda_seq (le32 (suc k)) (on side s st no_column)
        ≡ on side (extend grow (suc k - length s.columns) s) st (column k)
  unfolding on_item on on_seq in_focus on_section
  on_item-seq true s st k h m = let e = count_value (suc k) h in ground (arith, e)
  on_item-seq false s st k h m = let e = count_value (suc k) h in ground (arith, e)

  pub on_item-setting :
      (side : Bool) (s : Section) (st : DescribeState) (k : ℕ) (i : InfoItem)
      → IsSetting i
      → on_item grow i.tag i.value (on side s st (column k))
        ≡ on side (change k (set_field i.tag i.value) s) st (column k)
  unfolding on_item on on_field in_focus on_section is_setting
  on_item-setting true s st k i (h, l) = ground (arith, h)
  on_item-setting false s st k i (h, l) = ground (arith, h)

  pub on_marker-end :
      (side : Bool) (s : Section) (st : DescribeState) (k : ℕ)
      → on_marker isc_info_sql_describe_end (on side s st (column k))
        ≡ on side (record s { done = suc (s.done) }) st no_column
  unfolding on_marker on end_column on_section
  on_marker-end true s st k = refl
  on_marker-end false s st k = refl

-- A setting is no end, no truncation and no marker.
pub setting-plain :
    (t : ℕ)
    → is_setting t ≡ true
    → ((t == isc_info_end) ≡ false) × ((t == isc_info_truncated) ≡ false) × (is_marker t ≡ false)
unfolding is_setting
setting-plain t h = (ground (arith, h), ground (arith, h), ground (arith, h))
