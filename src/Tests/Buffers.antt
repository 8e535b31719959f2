-- ===== src/Tests/Buffers.antt =====
-- The writers, the parameter buffers, the info buffers and the messages on concrete values.
use go_firebird_driver.Prelude.{
  ◌+◌, ◌^◌, ◌<◌, ◌≡◌, ◌∙◌, refl, arith, All, true, false, List, [], ◌∷◌, ◌++◌, none, some, inr,
  length, map, ltb,
}
use go_firebird_driver.Prelude.Bytes.{Bytes, codes}
use mathlib.Core.Option
use go_firebird_driver.Wire.Protocol.{
  isc_dpb_sql_dialect, isc_info_req_insert_count, isc_info_req_update_count, stmt_insert, sql_dec16,
}
use go_firebird_driver.Wire.Writer.{new_writer, bytes}
use go_firebird_driver.Wire.Writer.Buffer.{IsValid}
use go_firebird_driver.Wire.Writer.Contents.{
  Item, write_all, encoded_all, bytes-write_all, new_writer-IsValid,
}
use go_firebird_driver.Wire.StackWriter
use go_firebird_driver.Wire.StackWriter.Fits
use go_firebird_driver.Wire.Dpb.{Call, new_dpb_builder, calls}
use go_firebird_driver.Wire.Dpb
use go_firebird_driver.Wire.Dpb.Decode.{meant, decode, decode-calls}
use go_firebird_driver.Wire.Dpb.Connect.{
  ProtocolConfig, Host, build_connect_dpb, get_os_user, get_hostname, sends_time_zone, attach_calls,
  values_of, dialect_values,
}
use go_firebird_driver.Wire.Info.{
  InfoItem, ColumnDescriptor, blank_column, is_control, parse_info_buffer,
}
use go_firebird_driver.Wire.Info.Items.{
  item_bytes, items_bytes, Ending, ending_bytes, is_truncated, parse_info_buffer-items,
}
use go_firebird_driver.Wire.Info.Records.{
  Count, IsCount, body, count_item_bytes, answer, get_rows_affected, reported,
  get_rows_affected-answer,
}
use go_firebird_driver.Wire.Tpb.{TxOptions, build_tpb}
use go_firebird_driver.Wire.Tpb.Options.{snapshot, level_of, build_tpb-asked, meaning, asks}
use go_firebird_driver.Wire.Blr.{build_blr, build_param_blr}
use go_firebird_driver.Wire.Blr.Parse.{described, described_param, parse_message}
use go_firebird_driver.Wire.Blr.Messages.{parse_message-build_blr, parse_message-build_param_blr}

abbrev abc : Bytes
abc = codes "abc"

bytes-write_all_example :
    IsValid (write_all (Item.int32 9 ∷ Item.opaque abc 2 ∷ []) new_writer)
    × (bytes (write_all (Item.int32 9 ∷ Item.opaque abc 2 ∷ []) new_writer)
        ≡ bytes new_writer ++ encoded_all (Item.int32 9 ∷ Item.opaque abc 2 ∷ []))
bytes-write_all_example =
    bytes-write_all (Item.int32 9 ∷ Item.opaque abc 2 ∷ []) new_writer new_writer-IsValid.0
      (tt, (omega arith, tt))

decode-calls_example :
    decode (
      Dpb.bytes
        (calls (Call.string 28 abc ∷ Call.marker 77 ∷ Call.byte_tag 63 3 ∷ []) new_dpb_builder))
    ≡ some (map meant (Call.string 28 abc ∷ Call.marker 77 ∷ Call.byte_tag 63 3 ∷ []))
decode-calls_example =
    decode-calls (Call.string 28 abc ∷ Call.marker 77 ∷ Call.byte_tag 63 3 ∷ [])
      (omega arith, (omega arith, (omega arith, tt)))

abbrev items : List InfoItem
items = record { tag = 21; value = 1 ∷ 0 ∷ 0 ∷ 0 ∷ [] } ∷ record { tag = 4; value = [] } ∷ []

abbrev cut_short : Ending
cut_short = Ending.cut 4 (record { tag = 7; value = abc })

parse_info_buffer-items_example :
    parse_info_buffer (items_bytes items ++ ending_bytes cut_short)
    ≡ some (items, is_truncated cut_short)
parse_info_buffer-items_example =
    parse_info_buffer-items items cut_short
      (
        (λ e. absurd (omega arith), λ e. absurd (omega arith), omega arith),
        ((λ e. absurd (omega arith), λ e. absurd (omega arith), omega arith), tt),
      )
      ((λ e. absurd (omega arith), λ e. absurd (omega arith), omega arith), omega arith)

abbrev column : ColumnDescriptor
column = record blank_column { sql_type = sql_dec16 + 1; size = 8 }

parse_message-build_blr_example :
    parse_message (build_blr (column ∷ column ∷ [])) ≡ some (map described (column ∷ column ∷ []))
parse_message-build_blr_example = parse_message-build_blr (column ∷ column ∷ []) (omega arith)

parse_message-build_param_blr_example :
    parse_message (build_param_blr (column ∷ [])) ≡ some (map described_param (column ∷ []))
parse_message-build_param_blr_example = parse_message-build_param_blr (column ∷ []) (omega arith)

abbrev counts : List Count
counts =
    record { tag = isc_info_req_insert_count; value = 12 }
    ∷ record { tag = isc_info_req_update_count; value = 0 }
    ∷ []

counts-All : All IsCount counts
unfolding is_control
counts-All = ((refl, omega arith), ((refl, omega arith), tt))

body_fits : length (body counts []) < 2 ^ 16
unfolding count_item_bytes item_bytes
body_fits = omega arith

get_rows_affected-answer_example :
    get_rows_affected {E = Unit {0}} (inr (answer [] counts [] (1 ∷ []))) stmt_insert
    ≡ some (inr (reported stmt_insert counts))
get_rows_affected-answer_example =
    get_rows_affected-answer stmt_insert [] counts [] (1 ∷ []) tt counts-All body_fits

abbrev stack_calls : List Fits.Call
stack_calls = Fits.Call.int32 9 ∷ Fits.Call.buffer abc ∷ []

overflowed-calls_example :
    StackWriter.overflowed (Fits.calls stack_calls (StackWriter.reset StackWriter.new_stack_writer))
    ≡ ltb StackWriter.stack_size (length (encoded_all (map Fits.meant stack_calls)))
overflowed-calls_example =
    Fits.overflowed-calls stack_calls StackWriter.new_stack_writer Fits.new_stack_writer-IsValid

bytes-calls_example :
    StackWriter.bytes (Fits.calls stack_calls (StackWriter.reset StackWriter.new_stack_writer))
    ≡ encoded_all (map Fits.meant stack_calls)
unfolding encoded_all
bytes-calls_example =
    Fits.bytes-calls stack_calls StackWriter.new_stack_writer Fits.new_stack_writer-IsValid (
      Fits.overflowed-calls stack_calls StackWriter.new_stack_writer Fits.new_stack_writer-IsValid
      ∙ refl)

abbrev host : Host
host = record {
  to_upper = λ s. s;
  equal_fold = λ a b. false;
  current_user = some abc;
  hostname = none;
}

abbrev config : ProtocolConfig
config = record {
  charset = codes "UTF8";
  user = codes "SYSDBA";
  dialect = 3;
  role = codes "ADMIN";
  auth_plugin_list = codes "Srp256";
  data_type_bind = [];
  session_time_zone = [];
}

attach_calls-Fits : All Dpb.Decode.Fits (map meant (attach_calls host config abc))
unfolding get_os_user get_hostname sends_time_zone
attach_calls-Fits = (
  omega arith,
  (
    omega arith,
    (
      omega arith,
      (
        omega arith,
        (
          omega arith,
          (
            omega arith,
            (omega arith, (omega arith, (omega arith, (omega arith, (omega arith, tt))))),
          ),
        ),
      ),
    ),
  ),
)

dialect_values_example :
    Option.map (values_of isc_dpb_sql_dialect) (decode (build_connect_dpb host config abc))
    ≡ some ((3 ∷ []) ∷ codes "ADMIN" ∷ [])
dialect_values_example = dialect_values host config abc attach_calls-Fits

abbrev read_only_snapshot : TxOptions
read_only_snapshot = record { isolation = 5; read_only = true }

build_tpb-asked_example :
    meaning (build_tpb read_only_snapshot)
    ≡ asks (record { isolation = snapshot; rec_version = false; read_only = true })
unfolding level_of
build_tpb-asked_example = build_tpb-asked read_only_snapshot
