-- ===== src/Wire/Execute.antt =====
-- internal/wire/execute.go: the requests of an execution and of a fetch, over one connection. The negotiated
-- protocol version is an argument.
pub mod Returning
use go_firebird_driver.Prelude.{
  ℕ, List, [], ◌∷◌, ◌++◌, Option, none, some, ◌⊎◌, inl, inr, leb, if◌then◌else◌,
}
use go_firebird_driver.Prelude.Bytes.{Bytes, is_empty}
use go_firebird_driver.Wire.Protocol.{op_execute, op_commit_retaining, op_fetch}
use go_firebird_driver.Wire.Writer.Contents.{Item, int32, uint32, buffer, raw}
use go_firebird_driver.Wire.Response.{ResponseError}
use go_firebird_driver.Wire.Info.{ColumnDescriptor}
use go_firebird_driver.Wire.Row.{Value}
use go_firebird_driver.Wire.Fetch.{FetchResult, fetch_rows_reuse}
use go_firebird_driver.Wire.Connection.{
  WireConnection, OpError, flush_failed, response_failed, put_all, flush_connection,
  consume_deferred, read_reply, read_direct, request,
}

-- `writeExecuteOp`, as what it writes.
unfoldable pub write_execute_op : ℕ → ℕ → ℕ → Bytes → Bytes → List Item
write_execute_op protocol_version stmt_handle tx_handle blr params =
    int32 op_execute
    ∷ int32 stmt_handle
    ∷ int32 tx_handle
    ∷ buffer blr
    ∷ int32 0
    ∷ ((if is_empty params then int32 0 ∷ [] else int32 1 ∷ raw params ∷ [])
        ++ ((if leb 16 protocol_version then uint32 0 ∷ [] else [])
            ++ (if leb 18 protocol_version then uint32 0 ∷ [] else [])))

-- `Execute`
abbrev pub execute :
    ℕ → ℕ → ℕ → Bytes → Bytes → WireConnection → (OpError ⊎ Unit {0}) × WireConnection
execute protocol_version stmt_handle tx_handle blr params =
    request (write_execute_op protocol_version stmt_handle tx_handle blr params) (λ r. tt)

-- The two responses of `ExecuteAndCommitRetaining`, both read before either error is returned.
unfoldable pub both_replies : WireConnection → (OpError ⊎ Unit {0}) × WireConnection
both_replies wc =
    let executed = read_reply wc in
    let committed = read_direct executed.wc in
    elim executed.failure [
      | some e ↦ (inl (response_failed e), committed.wc)
      | none ↦ elim committed.failure [
        | some e ↦ (inl (response_failed e), committed.wc)
        | none ↦ (inr tt, committed.wc)
      ]
    ]

-- `ExecuteAndCommitRetaining`
unfoldable pub execute_and_commit_retaining :
    ℕ → ℕ → ℕ → Bytes → Bytes → WireConnection → (OpError ⊎ Unit {0}) × WireConnection
execute_and_commit_retaining protocol_version stmt_handle tx_handle blr params wc =
    let op = write_execute_op protocol_version stmt_handle tx_handle blr params in
    let (e, wc') =
      flush_connection (put_all (op ++ int32 op_commit_retaining ∷ int32 tx_handle ∷ []) wc) in
    let replies = both_replies wc' in
    elim e [ some x ↦ (inl (flush_failed x), wc') | none ↦ replies ]

-- How `FetchRowsReuse` ends: before its loop, or as its loop does.
pub data Fetched : Type 0 where
  not_sent : ℕ → Fetched
  not_due : ResponseError → Fetched
  fetched : FetchResult → Fetched

abbrev pub fetch_items : ℕ → Bytes → ℕ → List Item
fetch_items stmt_handle blr fetch_size =
    int32 op_fetch ∷ int32 stmt_handle ∷ buffer blr ∷ int32 0 ∷ int32 fetch_size ∷ []

unfoldable pub of_result : WireConnection → Option FetchResult → Option (Fetched × WireConnection)
of_result wc none = none
of_result wc (some x) = some (fetched x, record wc { reader = x.reader })

-- `FetchRowsReuse`, with fuel for its loop.
unfoldable pub fetch_rows :
    ℕ
    → ℕ
    → Bytes
    → List ColumnDescriptor
    → ℕ
    → List Value
    → Bytes
    → WireConnection
    → Option (Fetched × WireConnection)
fetch_rows fuel stmt_handle blr descs fetch_size values_buf null_buf wc =
    let (e, wc1) = flush_connection (put_all (fetch_items stmt_handle blr fetch_size) wc) in
    let (d, wc2) = consume_deferred wc1 in
    let rows =
      of_result wc2 (fetch_rows_reuse fuel descs fetch_size values_buf null_buf wc2.reader) in
    elim e [
      | some x ↦ some (not_sent x, wc1)
      | none ↦ elim d [ some x ↦ some (not_due x, wc2) | none ↦ rows ]
    ]
