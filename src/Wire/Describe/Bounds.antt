-- ===== src/Wire/Describe/Bounds.antt =====
-- `parseSQLDescribeChunk` on any bytes at all.
use go_firebird_driver.Prelude.{
  ℕ, zero, suc, ◌+◌, ◌-◌, ◌≤◌, ◌≡◌, refl, Bool, true, false, [], ◌∷◌, Option, none, some, arith,
  length, length-append, length-set, get_or, ltb, ◌==◌, ◌&&◌, ◌||◌, Bool-cases, Option-cases, inl,
  inr,
}
use go_firebird_driver.Prelude.Bytes.{Bytes}
use go_firebird_driver.Wire.Protocol.{
  isc_info_end, isc_info_truncated, isc_info_sql_stmt_type, isc_info_sql_num_variables,
  isc_info_sql_describe_vars, isc_info_sql_sqlda_seq, isc_info_sql_select, isc_info_sql_bind,
}
use go_firebird_driver.Wire.Info.{
  ColumnDescriptor, blank_column, item_value, describe_count, read_info_int32_le,
}
use go_firebird_driver.Wire.Info.Items.{item_value_left}
use go_firebird_driver.Wire.Describe.{
  Section, DescribeState, Focus, nowhere, on_outputs, on_inputs, Current, no_column, stale, column,
  Parser, is_marker, on_section, in_focus, on_count, append_blank, extend, on_seq, set_field,
  change, on_field, on_item, end_column, on_marker, describe_loop, start_parser,
  parse_sql_describe_chunk,
}

-- At most `maxSQLDescribeColumns` columns in both lists.
abbrev pub IsSmall : DescribeState → Type 0
IsSmall st = (length st.outputs.columns ≤ 4096) × (length st.inputs.columns ≤ 4096)

on_section-IsSmall :
    (f : Section → Section) (c : Focus) (st : DescribeState)
    → ((s : Section) → length s.columns ≤ 4096 → length (f s).columns ≤ 4096)
    → IsSmall st
    → IsSmall (on_section f c st)
unfolding on_section
on_section-IsSmall f nowhere st h (a, b) = (a, b)
on_section-IsSmall f on_outputs st h (a, b) = (h st.outputs a, b)
on_section-IsSmall f on_inputs st h (a, b) = (a, h st.inputs b)

length-extend :
    (grow : ℕ → ℕ) (n : ℕ) (s : Section) → length (extend grow n s).columns ≡ length s.columns + n
unfolding extend append_blank
length-extend grow zero s = omega arith
length-extend grow (suc n) s =
    omega (
      arith,
      length-extend grow n (append_blank grow s),
      length-append s.columns (blank_column ∷ []),
    )

describe_count_bound : (v : ℕ) → describe_count v ≤ 4096
unfolding describe_count
describe_count_bound v = ground arith

on_count-IsSmall :
    (n : ℕ) (o : Option Section) (p : Parser) → IsSmall p.state → IsSmall (on_count n o p).state
unfolding on_count
on_count-IsSmall n none p h = h
on_count-IsSmall n (some s) p h = elim (Bool-cases (ltb 0 n && ltb s.capacity n)) [
  | inl e ↦
      rw e (
        on_section-IsSmall (λ x. record x { total = n; capacity = n }) p.focus p.state (λ s l. l) h)
  | inr e ↦ rw e (on_section-IsSmall (λ x. record x { total = n }) p.focus p.state (λ s l. l) h)
]

on_seq-IsSmall :
    (grow : ℕ → ℕ) (n : ℕ) (o : Option Section) (p : Parser)
    → n ≤ 4096
    → IsSmall p.state
    → IsSmall (on_seq grow n o p).state
unfolding on_seq
on_seq-IsSmall grow n none p l h = h
on_seq-IsSmall grow n (some s) p l h =
    let g = λ (x : Section). extend grow (n - length x.columns) x in
    let small =
      on_section-IsSmall g p.focus p.state
        (λ x k. omega (arith, length-extend grow (n - length x.columns) x)) h in
    elim (Bool-cases (n == 0)) [
      | inl e ↦ rw e h
      | inr e ↦ elim (Bool-cases (ltb 0 s.total && ltb s.total n)) [
        | inl q ↦ rw (e, q) h
        | inr q ↦ rw (e, q) small
      ]
    ]

on_field-IsSmall :
    (f : ColumnDescriptor → ColumnDescriptor) (c : Current) (p : Parser)
    → IsSmall p.state
    → IsSmall (on_field f c p).state
unfolding on_field
on_field-IsSmall f no_column p h = h
on_field-IsSmall f stale p h = h
on_field-IsSmall f (column i) p h =
    on_section-IsSmall (change i f) p.focus p.state
      (λ s l. omega (arith, length-set s.columns i (f (get_or s.columns i blank_column)))) h

on_item-IsSmall :
    (grow : ℕ → ℕ) (tag : ℕ) (v : Bytes) (p : Parser)
    → IsSmall p.state
    → IsSmall (on_item grow tag v p).state
unfolding on_item
on_item-IsSmall grow tag v p h =
    let n = describe_count (read_info_int32_le v) in
    let counts = on_count-IsSmall n (in_focus p.focus p.state) p h in
    let numbers =
      on_seq-IsSmall grow n (in_focus p.focus p.state) p
        (describe_count_bound (read_info_int32_le v)) h in
    let fields = on_field-IsSmall (set_field tag v) p.current p h in
    elim (Bool-cases (tag == isc_info_sql_stmt_type)) [
      | inl a ↦ rw a h
      | inr a ↦
          elim (Bool-cases
            (tag == isc_info_sql_num_variables || tag == isc_info_sql_describe_vars)) [
              | inl b ↦ rw (a, b) counts
              | inr b ↦ elim (Bool-cases (tag == isc_info_sql_sqlda_seq)) [
                | inl c ↦ rw (a, b, c) numbers
                | inr c ↦ rw (a, b, c) fields
              ]
            ]
    ]

end_column-IsSmall : (c : Current) (p : Parser) → IsSmall p.state → IsSmall (end_column c p).state
unfolding end_column
end_column-IsSmall no_column p h = h
end_column-IsSmall stale p h =
    on_section-IsSmall (λ x. record x { done = suc x.done }) p.focus p.state (λ s l. l) h
end_column-IsSmall (column i) p h =
    on_section-IsSmall (λ x. record x { done = suc x.done }) p.focus p.state (λ s l. l) h

on_marker-IsSmall : (tag : ℕ) (p : Parser) → IsSmall p.state → IsSmall (on_marker tag p).state
unfolding on_marker
on_marker-IsSmall tag p h =
    let ends = end_column-IsSmall p.current p h in
    elim (Bool-cases (tag == isc_info_sql_select)) [
      | inl a ↦ rw a h
      | inr a ↦ elim (Bool-cases (tag == isc_info_sql_bind)) [
        | inl b ↦ rw (a, b) h
        | inr b ↦ rw (a, b) ends
      ]
    ]

-- A result whose lists are small.
abbrev pub IsSmallResult : Option (DescribeState × Bool) → Type 0
IsSmallResult o =
    (st : DescribeState) × (truncated : Bool) × (o ≡ some (st, truncated)) × IsSmall st

describe_loop-IsSmall :
    (grow : ℕ → ℕ) (fuel : ℕ) (buf : Bytes) (p : Parser)
    → length buf ≤ fuel
    → IsSmall p.state
    → IsSmallResult (describe_loop grow fuel buf p)
unfolding describe_loop
describe_loop-IsSmall grow zero [] p h w = (p.state, false, refl, w)
describe_loop-IsSmall grow (suc fuel) [] p h w = (p.state, false, refl, w)
describe_loop-IsSmall grow zero (t ∷ r) p h w = absurd (omega arith)
describe_loop-IsSmall grow (suc fuel) (t ∷ r) p h w =
    let marked =
      describe_loop-IsSmall grow fuel r (on_marker t p) (omega arith) (on_marker-IsSmall t p w) in
    elim (Bool-cases (t == isc_info_end)) [
      | inl a ↦ rw a (p.state, false, refl, w)
      | inr a ↦ elim (Bool-cases (t == isc_info_truncated)) [
        | inl b ↦ rw (a, b) (p.state, true, refl, w)
        | inr b ↦ elim (Bool-cases (is_marker t)) [
          | inl c ↦ rw (a, b, c) marked
          | inr c ↦ elim (Option-cases (item_value r)) [
            | inl d ↦ rw (a, b, c, d) (p.state, false, refl, w)
            | inr ((v, r'), d) ↦
                let l = item_value_left r v r' d in
                rw (a, b, c, d)
                  (describe_loop-IsSmall grow fuel r' (on_item grow t v p) (omega arith)
                    (on_item-IsSmall grow t v p w))
          ]
        ]
      ]
    ]

-- `parseSQLDescribeChunk` ends on any bytes at all, within one round for each byte, and whatever
-- numbers the bytes name, lists of at most 4096 columns stay lists of at most 4096 columns.
pub parse_sql_describe_chunk-IsSmall :
    (grow : ℕ → ℕ) (buf : Bytes) (st : DescribeState)
    → IsSmall st
    → IsSmallResult (parse_sql_describe_chunk grow buf st)
unfolding parse_sql_describe_chunk
parse_sql_describe_chunk-IsSmall grow buf st w =
    describe_loop-IsSmall grow (length buf) buf (start_parser st) (omega arith) w
