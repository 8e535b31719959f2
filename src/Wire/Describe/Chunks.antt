-- ===== src/Wire/Describe/Chunks.antt =====
-- One reply of a server, whole or cut short, through `parseSQLDescribeChunk`.
use mathlib.Core.Path.{subst}
use go_firebird_driver.Prelude.{
  ℕ, zero, suc, ◌+◌, ◌-◌, ◌^◌, ◌≤◌, ◌<◌, ◌≡◌, refl, sym, ◌∙◌, ap, Bool, true, false, List, [], ◌∷◌,
  ◌++◌, some, arith, length, length-take, length-drop, take-append-drop, drop-drop, append_assoc,
  append-nil, map, take, drop, take_all, drop_all, All,
}
use go_firebird_driver.Prelude.Bytes.{Bytes}
use go_firebird_driver.Wire.Protocol.{
  isc_info_end, isc_info_truncated, isc_info_sql_num_variables, isc_info_sql_describe_vars,
  isc_info_sql_stmt_type, isc_info_sql_select, isc_info_sql_bind,
}
use go_firebird_driver.Wire.Info.Items.{item_bytes}
use go_firebird_driver.Wire.Describe.{
  Section, DescribeState, no_column, Parser, start_parser, parse_sql_describe_chunk,
}
use go_firebird_driver.Wire.Describe.Fields.{described}
use go_firebird_driver.Wire.Describe.Runs.{
  run, run-item, run-marker, run-end, run-truncated, parse_sql_describe_chunk-run,
}
use go_firebird_driver.Wire.Describe.Server.{
  Settings, IsSetting, Statement, IsStatement, Cut, int_item, columns_bytes, part_bytes,
  section_start, section_bytes, cut_section, reply, whole_reply, next_out, next_in, IsCut,
}
use go_firebird_driver.Wire.Describe.Columns.{
  on, with_section, section_of, marker_of, counted, counted-total, counted-done, counted-columns,
  on_marker-start, marker_of-plain, on_item-stmt_type, on_item-num_variables, on_item-describe_vars,
}
use go_firebird_driver.Wire.Describe.Sections.{All-take, Knows, Reads, run-columns, run-part}

counted-Knows :
    (n : ℕ) (before after : List Settings) (s : Section)
    → Knows before after s
    → Knows before after (counted n s)
counted-Knows n before after s (d, (left, e, l)) =
    (counted-done n s ∙ d, (left, counted-columns n s ∙ e, l))

All-drop {ℓ κ} : {A : Type ℓ} (P : A → Type κ) (n : ℕ) (xs : List A) → All P xs → All P (drop n xs)
All-drop P zero xs h = h
All-drop P (suc n) [] h = tt
All-drop P (suc n) (x ∷ xs) h = All-drop P n xs h.1

take-take {ℓ} :
    {A : Type ℓ} (k m : ℕ) (xs : List A) → take k xs ++ take m (drop k xs) ≡ take (k + m) xs
take-take zero m xs = ap (λ x. take x xs) (omega arith)
take-take (suc k) zero [] = let e : suc k + 0 ≡ suc k = omega arith in rw e refl
take-take (suc k) (suc m) [] = let e : suc k + suc m ≡ suc (k + suc m) = omega arith in rw e refl
take-take (suc k) m (x ∷ xs) =
    let e : suc k + m ≡ suc (k + m) = omega arith in rw e (ap (◌∷◌ x) (take-take k m xs))

-- Nothing is left behind the last column.
Knows-all :
    (cols : List Settings) (s : Section)
    → Knows (take (length cols) cols) (drop (length cols) cols) s
    → s.columns ≡ map described cols
Knows-all cols s w =
    let done =
      subst (λ x. Knows x (drop (length cols) cols) s) (take_all (length cols) cols (omega arith))
        w in
    let all = subst (λ x. Knows cols x s) (drop_all (length cols) cols (omega arith)) done in
    all_columns cols s all
  where
    all_columns :
        (cols : List Settings) (s : Section) → Knows cols [] s → s.columns ≡ map described cols
    all_columns cols s (d, ([], e, l)) = e ∙ append-nil (map described cols)
    all_columns cols s (d, (c ∷ cs, e, l)) = absurd l

module _ (grow : ℕ → ℕ) where
  -- The marker and the counts of a section.
  run-start :
      (side : Bool) (n : ℕ) (rest : Bytes) (p : Parser)
      → n ≤ 4096
      → run grow (section_start (marker_of side) n ++ rest) p
        ≡ run grow rest
            (on side (counted n (counted n (section_of side p.state))) p.state no_column)
  unfolding section_start
  run-start side n rest p h =
      let i = int_item isc_info_sql_num_variables n in
      let j = int_item isc_info_sql_describe_vars n in
      let s = section_of side p.state in
      let st = p.state in
      let q = marker_of-plain side in
      let bytes = item_bytes i ++ item_bytes j in
      run-marker grow (marker_of side) (bytes ++ rest) p q.0 q.1 q.2
      ∙ ap (run grow (bytes ++ rest)) (on_marker-start side p)
      ∙ ap (λ x. run grow x (on side s st no_column))
          (append_assoc (item_bytes i) (item_bytes j) rest)
      ∙ run-item grow i (item_bytes j ++ rest) (on side s st no_column) refl refl refl (omega arith)
      ∙ ap (run grow (item_bytes j ++ rest)) (on_item-num_variables grow side s st n h)
      ∙ run-item grow j rest (on side (counted n s) st no_column) refl refl refl (omega arith)
      ∙ ap (run grow rest) (on_item-describe_vars grow side (counted n s) st n h)

  -- The columns behind the first `k`, `m` of them.
  run-some :
      (side : Bool) (cols : List Settings) (k m : ℕ) (p : Parser)
      → k + m ≤ length cols
      → length cols ≤ 4096
      → All (All IsSetting) cols
      → Knows (take k cols) (drop k cols) (section_of side p.state)
      → (s : Section) × ((rest : Bytes)
          → run grow
              (section_start (marker_of side) (length cols)
                ++ (columns_bytes k (take m (drop k cols)) ++ rest))
              p
            ≡ run grow rest (on side s p.state no_column))
        × (s.total ≡ length cols)
        × Knows (take (k + m) cols) (drop (k + m) cols) s
  unfolding Reads
  run-some side cols k m p h n a w =
      let now = take m (drop k cols) in
      let before = take k cols in
      let l : length before ≡ k = omega (arith, length-take k cols) in
      let l' = length-take m (drop k cols) in
      let l'' = length-drop k cols in
      let s0 = counted (length cols) (counted (length cols) (section_of side p.state)) in
      let t0 = counted-total (length cols) (counted (length cols) (section_of side p.state)) in
      let w0 =
        counted-Knows (length cols) before (drop k cols)
          (counted (length cols) (section_of side p.state))
          (counted-Knows (length cols) before (drop k cols) (section_of side p.state) w) in
      let w1 = subst (λ x. Knows before x s0) (sym (take-append-drop m (drop k cols))) w0 in
      let (s, reads, t, w2) =
        run-columns grow now side s0 p.state before (drop m (drop k cols))
          (omega (arith, l, l', l'')) (omega (arith, l, l', l'', t0))
          (All-take (All IsSetting) m (drop k cols) (All-drop (All IsSetting) k cols a)) w1 in
      (
        s,
        (λ rest.
            run-start side (length cols) (columns_bytes k now ++ rest) p n
            ∙ ap (λ x. run grow (columns_bytes x now ++ rest) (on side s0 p.state no_column))
                (sym l)
            ∙ reads rest),
        t ∙ t0,
        subst (λ x. Knows x (drop (k + m) cols) s) (take-take k m cols)
            (subst (λ x. Knows (before ++ now) x s) (drop-drop m k cols) w2),
      )

  -- A section that is cut.
  run-cut :
      (side : Bool) (cols : List Settings) (k m j : ℕ) (p : Parser)
      → k + m ≤ length cols
      → length cols ≤ 4096
      → All (All IsSetting) cols
      → Knows (take k cols) (drop k cols) (section_of side p.state)
      → (s : Section) × (run grow (cut_section (marker_of side) k m j cols) p
          ≡ some (with_section side s p.state, true))
        × Knows (take (k + m) cols) (drop (k + m) cols) s
  unfolding Reads cut_section on
  run-cut side cols k m j p h n a w =
      let (s, reads, t, w1) = run-some side cols k m p h n a w in
      let l : length (take (k + m) cols) ≡ k + m = omega (arith, length-take (k + m) cols) in
      let l' = length-drop (k + m) cols in
      let (c, s', reads', w2) =
        run-part grow j side s p.state (take (k + m) cols) (drop (k + m) cols)
          (omega (arith, l, l')) (omega (arith, l, l', t)) (All-drop (All IsSetting) (k + m) cols a)
          w1 in
      let after = drop m (drop k cols) in
      let e : part_bytes (k + m) j after
          ≡ part_bytes (length (take (k + m) cols)) j (drop (k + m) cols) =
        ap (λ x. part_bytes x j after) (sym l)
        ∙ ap (part_bytes (length (take (k + m) cols)) j) (drop-drop m k cols) in
      (
        s',
        reads (part_bytes (k + m) j after ++ isc_info_truncated ∷ [])
            ∙ ap (λ x. run grow (x ++ isc_info_truncated ∷ []) (on side s p.state no_column)) e
            ∙ reads' (isc_info_truncated ∷ [])
            ∙ run-truncated grow [] (on side s' p.state c),
        w2,
      )

  -- A section that is whole.
  run-section :
      (side : Bool) (cols : List Settings) (k : ℕ) (p : Parser)
      → k ≤ length cols
      → length cols ≤ 4096
      → All (All IsSetting) cols
      → Knows (take k cols) (drop k cols) (section_of side p.state)
      → (s : Section) × ((rest : Bytes)
          → run grow (section_bytes (marker_of side) k cols ++ rest) p
            ≡ run grow rest (on side s p.state no_column))
        × Knows (take (length cols) cols) (drop (length cols) cols) s
  unfolding section_bytes
  run-section side cols k p h n a w =
      let m = length cols - k in
      let (s, reads, t, w1) = run-some side cols k m p (omega arith) n a w in
      let start = section_start (marker_of side) (length cols) in
      let e : take m (drop k cols) ≡ drop k cols =
        take_all m (drop k cols) (omega (arith, length-drop k cols)) in
      let l : k + m ≡ length cols = omega arith in
      (
        s,
        (λ rest.
            ap (λ x. run grow x p) (append_assoc start (columns_bytes k (drop k cols)) rest)
            ∙ ap (λ x. run grow (start ++ (columns_bytes k x ++ rest)) p) (sym e)
            ∙ reads rest),
        subst (λ x. Knows (take x cols) (drop x cols) s) l w1,
      )

  -- The state after `a` columns and `b` parameters.
  abbrev pub Tracks : Statement → ℕ → ℕ → DescribeState → Type 0
  Tracks s a b st =
      (a ≤ length s.outs)
      × (b ≤ length s.ins)
      × Knows (take a s.outs) (drop a s.outs) st.outputs
      × Knows (take b s.ins) (drop b s.ins) st.inputs

  run-stmt_type :
      (s : Statement) (st : DescribeState) (rest : Bytes)
      → s.kind < 2 ^ 32
      → run grow (item_bytes (int_item isc_info_sql_stmt_type s.kind) ++ rest) (start_parser st)
        ≡ run grow rest (start_parser (record st { stmt_type = s.kind }))
  run-stmt_type s st rest h =
      run-item grow (int_item isc_info_sql_stmt_type s.kind) rest (start_parser st) refl refl refl
        (omega arith)
      ∙ ap (run grow rest) (on_item-stmt_type grow st s.kind h)

  -- A reply that is cut.
  pub parse_sql_describe_chunk-reply :
      (s : Statement) (n a b : ℕ) (c : Cut) (st : DescribeState)
      → IsStatement s
      → IsCut s n a b c
      → Tracks s a b st
      → (st' : DescribeState) × (parse_sql_describe_chunk grow (reply s a b c) st
          ≡ some (st', true))
        × Tracks s (next_out s a c) (next_in b c) st'
  unfolding reply on
  parse_sql_describe_chunk-reply s n a b (Cut.in_outputs m j) st (k, lo, li, ao, ai) (q, r)
        (wa, wb, wo, wi) =
      let st0 = record st { stmt_type = s.kind } in
      let (s', e, w) = run-cut true s.outs a m j (start_parser st0) r lo ao wo in
      (
        with_section true s' st0,
        parse_sql_describe_chunk-run grow (reply s a b (Cut.in_outputs m j)) st
            ∙ run-stmt_type s st (cut_section isc_info_sql_select a m j s.outs) k
            ∙ e,
        (r, wb, w, wi),
      )
  parse_sql_describe_chunk-reply s n a b (Cut.in_inputs m j) st (k, lo, li, ao, ai) (q, r)
        (wa, wb, wo, wi) =
      let st0 = record st { stmt_type = s.kind } in
      let (s1, e1, w1) = run-section true s.outs a (start_parser st0) wa lo ao wo in
      let st1 = with_section true s1 st0 in
      let p = on true s1 st0 no_column in
      let (s2, e2, w2) = run-cut false s.ins b m j p r li ai wi in
      (
        with_section false s2 st1,
        parse_sql_describe_chunk-run grow (reply s a b (Cut.in_inputs m j)) st
            ∙ run-stmt_type s st
                (section_bytes isc_info_sql_select a s.outs
                  ++ cut_section isc_info_sql_bind b m j s.ins)
                k
            ∙ e1 (cut_section isc_info_sql_bind b m j s.ins)
            ∙ e2,
        (omega arith, r, w1, w2),
      )

  -- The state after the whole statement.
  abbrev pub IsDescribed : Statement → DescribeState → Type 0
  IsDescribed s st =
      (st.stmt_type ≡ s.kind)
      × (st.outputs.columns ≡ map described s.outs)
      × (st.inputs.columns ≡ map described s.ins)

  -- A reply that is whole.
  pub parse_sql_describe_chunk-whole_reply :
      (s : Statement) (a b : ℕ) (st : DescribeState)
      → IsStatement s
      → Tracks s a b st
      → (st' : DescribeState) × (parse_sql_describe_chunk grow (whole_reply s a b) st
          ≡ some (st', false))
        × IsDescribed s st'
  unfolding whole_reply on
  parse_sql_describe_chunk-whole_reply s a b st (k, lo, li, ao, ai) (wa, wb, wo, wi) =
      let st0 = record st { stmt_type = s.kind } in
      let (s1, e1, w1) = run-section true s.outs a (start_parser st0) wa lo ao wo in
      let st1 = with_section true s1 st0 in
      let (s2, e2, w2) = run-section false s.ins b (on true s1 st0 no_column) wb li ai wi in
      let ends = isc_info_end ∷ [] in
      let ins = section_bytes isc_info_sql_bind b s.ins ++ ends in
      (
        with_section false s2 st1,
        parse_sql_describe_chunk-run grow (whole_reply s a b) st
            ∙ run-stmt_type s st (section_bytes isc_info_sql_select a s.outs ++ ins) k
            ∙ e1 ins
            ∙ e2 ends
            ∙ run-end grow [] (on false s2 st1 no_column),
        (refl, Knows-all s.outs s1 w1, Knows-all s.ins s2 w2),
      )
