-- ===== src/Wire/Execute/Returning.antt =====
-- internal/wire/execute.go: `Execute2`, the execution of a statement that returns one row. The negotiated
-- protocol version and the buffer of null bits are arguments.
pub mod Rows
use go_firebird_driver.Prelude.{
  ℕ, ◌&&◌, ◌^◌, List, [], ◌∷◌, ◌++◌, Option, none, some, length, replicate, ltb, leb, ◌==◌,
  if◌then◌else◌,
}
use go_firebird_driver.Prelude.Bytes.{Bytes, is_empty}
use go_firebird_driver.Wire.Protocol.{op_execute2, op_response, op_sql_response}
use go_firebird_driver.Wire.Reader.{ReadError, Reader, read_opcode}
use go_firebird_driver.Wire.Status.{StatusVector, has_error}
use go_firebird_driver.Wire.Writer.Contents.{Item, int32, uint32, buffer, raw}
use go_firebird_driver.Wire.Response.{ResponseError, read_generic_response, read_sql_response}
use go_firebird_driver.Wire.Info.{ColumnDescriptor}
use go_firebird_driver.Wire.Row.{Value, null_value, RowError, decode_row}
use go_firebird_driver.Wire.Connection.{WireConnection, put_all, flush_connection, consume_deferred}

-- The errors of `Execute2`.
pub data Execute2Error : Type 0 where
  execute2_flush : ℕ → Execute2Error
  execute2_due : ResponseError → Execute2Error
  execute2_broken : ReadError → Execute2Error
  execute2_refused : StatusVector → Execute2Error
  execute2_unexpected : ℕ → Execute2Error
  execute2_row : RowError → Execute2Error

-- What `Execute2` returns, with nil for no row, and the reader behind it.
pub record Returned : Type 0 where
  pub messages : ℕ
  pub row : Option (List Value)
  pub failure : Option Execute2Error
  pub reader : Reader

abbrev stopped : ℕ → Option (List Value) → Execute2Error → Reader → Returned
stopped m row e r = record { messages = m; row = row; failure = some e; reader = r }

-- An op_response behind its opcode: the end of `Execute2`, with a row or without.
unfoldable pub last_response : ℕ → Option (List Value) → Reader → Returned
last_response m row r =
    let (resp, r') = read_generic_response r in
    elim r'.err [
      | some e ↦ stopped m row (execute2_broken e) r'
      | none ↦
          if has_error resp.status
          then stopped m row (execute2_refused resp.status) r'
          else record { messages = m; row = row; failure = none; reader = r' }
    ]

-- The response behind the row.
unfoldable pub second_response : ℕ → Option (List Value) → Reader → Returned
second_response m row r =
    let (op, r') = read_opcode r in
    let last = last_response m row r' in
    elim r'.err [
      | some e ↦ stopped m row (execute2_broken e) r'
      | none ↦ if op == op_response then last else stopped m row (execute2_unexpected op) r'
    ]

-- The check of the reader between them: its error leaves no row.
unfoldable pub after_row : ℕ → Option (List Value) → Reader → Returned
after_row m row r =
    let second = second_response m row r in
    elim r.err [ some e ↦ stopped 0 none (execute2_broken e) r | none ↦ second ]

-- An op_sql_response behind its opcode. The number of messages is an int32: a row comes where it is positive.
unfoldable pub on_sql_response : List ColumnDescriptor → Bytes → Reader → Returned
on_sql_response outputs null_buf r =
    let (m, r1) = read_sql_response r in
    let x = decode_row r1 outputs null_buf (replicate (length outputs) null_value) in
    let with_row = after_row m (some x.row) x.reader in
    let without = after_row m none r1 in
    if ltb 0 m && ltb m (2 ^ 31)
    then elim x.failure [ some e ↦ stopped m none (execute2_row e) x.reader | none ↦ with_row ]
    else without

-- What the server answers to `Execute2`.
unfoldable pub read_returned : List ColumnDescriptor → Bytes → Reader → Returned
read_returned outputs null_buf r =
    let (op, r') = read_opcode r in
    let sql = on_sql_response outputs null_buf r' in
    let last = last_response 0 none r' in
    elim r'.err [
      | some e ↦ stopped 0 none (execute2_broken e) r'
      | none ↦
          if op == op_sql_response
          then sql
          else if op == op_response
          then last
          else stopped 0 none (execute2_unexpected op) r'
    ]

-- The request of `Execute2`.
unfoldable pub execute2_items : ℕ → ℕ → ℕ → Bytes → Bytes → Bytes → List Item
execute2_items protocol_version stmt_handle tx_handle in_blr params out_blr =
    int32 op_execute2
    ∷ int32 stmt_handle
    ∷ int32 tx_handle
    ∷ buffer in_blr
    ∷ int32 0
    ∷ ((if is_empty params then int32 0 ∷ [] else int32 1 ∷ raw params ∷ [])
        ++ (buffer out_blr
            ∷ int32 0
            ∷ ((if leb 16 protocol_version then uint32 0 ∷ [] else [])
                ++ (if leb 18 protocol_version then uint32 0 ∷ [] else []))))

-- `Execute2`
unfoldable pub execute2 :
    ℕ
    → ℕ
    → ℕ
    → Bytes
    → Bytes
    → Bytes
    → List ColumnDescriptor
    → Bytes
    → WireConnection
    → Returned × WireConnection
execute2 protocol_version stmt_handle tx_handle in_blr params out_blr outputs null_buf wc =
    let op = execute2_items protocol_version stmt_handle tx_handle in_blr params out_blr in
    let (e, wc1) = flush_connection (put_all op wc) in
    let (d, wc2) = consume_deferred wc1 in
    let x = read_returned outputs null_buf wc2.reader in
    elim e [
      | some y ↦ (stopped 0 none (execute2_flush y) wc1.reader, wc1)
      | none ↦ elim d [
        | some y ↦ (stopped 0 none (execute2_due y) wc2.reader, wc2)
        | none ↦ (x, record wc2 { reader = x.reader })
      ]
    ]
