-- ===== src/Tests/Descriptions.antt =====
-- Statement descriptions on a concrete statement and server.
use go_firebird_driver.Prelude.{
  ℕ, true, ◌+◌, ◌-◌, ◌≤◌, ◌≡◌, ◌∙◌, refl, ap, arith, List, [], ◌∷◌, some, inr, ◌⊎◌, drop,
}
use go_firebird_driver.Prelude.Bytes.{Bytes, codes, le16, uint16_le, uint16_le-le16}
use go_firebird_driver.Wire.Protocol.{
  isc_info_sql_type, isc_info_sql_alias, isc_info_sql_scale, isc_info_sql_sqlda_seq,
}
use go_firebird_driver.Wire.Info.{
  InfoItem, blank_column, read_info_int32_le, prepare_info_items, items_with_sqlda_start,
}
use go_firebird_driver.Wire.Describe.{blank_state, parse_sql_describe_chunk}
use go_firebird_driver.Wire.Describe.Server.{
  is_setting, Statement, IsStatement, Cut, int_item, next_reply, later, Resumes-unique,
}
use go_firebird_driver.Wire.Describe.Complete.{Serves, complete_sql_describe}
use go_firebird_driver.Wire.Describe.Meaning.{last_of, with_charset, complete_sql_describe-Serves}
use go_firebird_driver.Wire.Describe.Bounds.{IsSmallResult, parse_sql_describe_chunk-IsSmall}

abbrev name_item : InfoItem
name_item = record { tag = isc_info_sql_alias; value = codes "A" }

-- Three columns and a parameter.
abbrev sample : Statement
sample = record {
  kind = 1;
  outs =
      (int_item isc_info_sql_type 448 ∷ name_item ∷ [])
      ∷ (int_item isc_info_sql_type 497 ∷ [])
      ∷ (int_item isc_info_sql_scale 2 ∷ name_item ∷ [])
      ∷ [];
  ins = (int_item isc_info_sql_type 496 ∷ []) ∷ [];
}

sample-IsStatement : IsStatement sample
unfolding is_setting
sample-IsStatement = (
  omega arith,
  omega arith,
  omega arith,
  (
    ((refl, omega arith), ((refl, omega arith), tt)),
    (((refl, omega arith), tt), (((refl, omega arith), ((refl, omega arith), tt)), tt)),
  ),
  (((refl, omega arith), tt), tt),
)

-- A server that reads the two numbers of the request.
abbrev sample_ask : Bytes → List Cut → (ℕ ⊎ Bytes) × List Cut
sample_ask request cuts = (
  inr (next_reply sample (uint16_le (drop 3 request) - 1) (uint16_le (drop 19 request) - 1) cuts),
  later cuts,
)

sample_ask-started :
    (a b : ℕ) (cuts : List Cut)
    → a ≤ 3
    → b ≤ 1
    → sample_ask (items_with_sqlda_start prepare_info_items (a + 1) (b + 1)) cuts
      ≡ (inr (next_reply sample a b cuts), later cuts)
unfolding items_with_sqlda_start
sample_ask-started a b cuts h h' =
    let x : uint16_le (le16 (a + 1)) - 1 ≡ a =
      omega (arith, uint16_le-le16 (a + 1) [] (omega arith)) in
    let y : uint16_le (le16 (b + 1)) - 1 ≡ b =
      omega (arith, uint16_le-le16 (b + 1) [] (omega arith)) in
    ap (λ z. (inr (next_reply sample z (uint16_le (le16 (b + 1)) - 1) cuts), later cuts)) x
    ∙ ap (λ z. (inr (next_reply sample a z cuts), later cuts)) y

sample_ask-Serves : Serves sample prepare_info_items sample_ask
sample_ask-Serves a b request cuts h h' k =
    ap (λ x. sample_ask x cuts) (Resumes-unique (a + 1) (b + 1) prepare_info_items request k)
    ∙ sample_ask-started a b cuts h h'

-- Doubling, at least one.
abbrev doubled : ℕ → ℕ
doubled n = n + n + 1

complete_sql_describe-Serves_example :
    complete_sql_describe doubled sample_ask prepare_info_items 4 3
      (next_reply sample 0 0 (Cut.in_outputs 1 2 ∷ Cut.in_inputs 0 1 ∷ []))
      (Cut.in_inputs 0 1 ∷ [])
    ≡ some (
      inr (record {
        stmt_type = 1;
        outputs =
            record blank_column {
              sql_type = 448;
              alias_name = codes "A";
              sub_type = 4;
              sub_type_from_none = true;
            }
            ∷ record blank_column { sql_type = 497 }
            ∷ record blank_column { scale = 2; alias_name = codes "A" }
            ∷ [];
        inputs = record blank_column { sql_type = 496 } ∷ [];
      }),
      [],
    )
unfolding last_of with_charset read_info_int32_le
complete_sql_describe-Serves_example =
    complete_sql_describe-Serves doubled sample prepare_info_items sample_ask 4 3
      (Cut.in_outputs 1 2 ∷ Cut.in_inputs 0 1 ∷ []) sample_ask-Serves sample-IsStatement
      (omega arith) ((omega arith, omega arith), ((omega arith, omega arith), tt))

-- A number out of bounds, and a value that is cut.
parse_sql_describe_chunk-IsSmall_example : IsSmallResult (
    parse_sql_describe_chunk doubled
      (4 ∷ isc_info_sql_sqlda_seq ∷ 4 ∷ 0 ∷ 255 ∷ 255 ∷ 255 ∷ 127 ∷ 9 ∷ 7 ∷ [])
      blank_state)
parse_sql_describe_chunk-IsSmall_example =
    parse_sql_describe_chunk-IsSmall doubled
      (4 ∷ isc_info_sql_sqlda_seq ∷ 4 ∷ 0 ∷ 255 ∷ 255 ∷ 255 ∷ 127 ∷ 9 ∷ 7 ∷ []) blank_state
      (omega arith, omega arith)
