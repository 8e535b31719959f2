-- ===== src/Wire/Describe/Runs.antt =====
-- The loop over a description without its fuel, one item or marker at a time.
use go_firebird_driver.Prelude.{
  ℕ, zero, suc, ◌^◌, ◌≤◌, ◌<◌, ◌≡◌, refl, ◌∙◌, ap, Bool, true, false, [], ◌∷◌, ◌++◌, Option, some,
  arith, length, append_assoc, ◌==◌, Option-cases, inl, inr,
}
use go_firebird_driver.Prelude.Bytes.{Bytes, le16}
use go_firebird_driver.Wire.Protocol.{isc_info_end, isc_info_truncated}
use go_firebird_driver.Wire.Info.{InfoItem, item_value}
use go_firebird_driver.Wire.Info.Items.{item_bytes, item_value-whole, item_value_left}
use go_firebird_driver.Wire.Describe.{
  DescribeState, Parser, is_marker, on_item, on_marker, describe_loop, start_parser,
  parse_sql_describe_chunk,
}

module _ (grow : ℕ → ℕ) where
  -- Any fuel that reaches the end of the bytes gives the same result.
  describe_loop_fuel :
      (f f' : ℕ) (buf : Bytes) (p : Parser)
      → length buf ≤ f
      → length buf ≤ f'
      → describe_loop grow f buf p ≡ describe_loop grow f' buf p
  unfolding describe_loop
  describe_loop_fuel zero zero buf p h h' = refl
  describe_loop_fuel zero (suc f') [] p h h' = refl
  describe_loop_fuel zero (suc f') (t ∷ r) p h h' = absurd (omega arith)
  describe_loop_fuel (suc f) zero [] p h h' = refl
  describe_loop_fuel (suc f) zero (t ∷ r) p h h' = absurd (omega arith)
  describe_loop_fuel (suc f) (suc f') [] p h h' = refl
  describe_loop_fuel (suc f) (suc f') (t ∷ r) p h h' =
      let marked = describe_loop_fuel f f' r (on_marker t p) (omega arith) (omega arith) in
      elim (Option-cases (item_value r)) [
        | inl e ↦ rw (marked, e) refl
        | inr ((v, r'), e) ↦
            let l = item_value_left r v r' e in
            rw (marked, e)
              (rw (describe_loop_fuel f f' r' (on_item grow t v p) (omega arith) (omega arith))
                refl)
      ]

  -- The whole run over some bytes.
  unfoldable pub run : Bytes → Parser → Option (DescribeState × Bool)
  run buf p = describe_loop grow (length buf) buf p

  pub run-item :
      (i : InfoItem) (rest : Bytes) (p : Parser)
      → (i.tag == isc_info_end) ≡ false
      → (i.tag == isc_info_truncated) ≡ false
      → is_marker i.tag ≡ false
      → length i.value < 2 ^ 16
      → run (item_bytes i ++ rest) p ≡ run rest (on_item grow i.tag i.value p)
  unfolding run describe_loop item_bytes
  run-item i rest p a b c h =
      let bytes = le16 (length i.value) ++ i.value in
      let e : item_value (bytes ++ rest) ≡ some (i.value, rest) =
        ap item_value (append_assoc (le16 (length i.value)) i.value rest)
        ∙ item_value-whole i.value rest h in
      rw (a, b, c, e)
        (describe_loop_fuel (length (bytes ++ rest)) (length rest) rest
          (on_item grow i.tag i.value p) (item_value_left (bytes ++ rest) i.value rest e)
          (omega arith))

  pub run-marker :
      (t : ℕ) (rest : Bytes) (p : Parser)
      → (t == isc_info_end) ≡ false
      → (t == isc_info_truncated) ≡ false
      → is_marker t ≡ true
      → run (t ∷ rest) p ≡ run rest (on_marker t p)
  unfolding run describe_loop
  run-marker t rest p a b c = rw (a, b, c) refl

  pub run-end : (rest : Bytes) (p : Parser) → run (isc_info_end ∷ rest) p ≡ some (p.state, false)
  unfolding run describe_loop
  run-end rest p = refl

  pub run-truncated :
      (rest : Bytes) (p : Parser) → run (isc_info_truncated ∷ rest) p ≡ some (p.state, true)
  unfolding run describe_loop
  run-truncated rest p = refl

  pub parse_sql_describe_chunk-run :
      (buf : Bytes) (st : DescribeState)
      → parse_sql_describe_chunk grow buf st ≡ run buf (start_parser st)
  unfolding run parse_sql_describe_chunk
  parse_sql_describe_chunk-run buf st = refl
