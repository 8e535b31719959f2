-- ===== src/Wire/Connection.antt =====
-- internal/wire/database.go, transaction.go and statement.go: requests and responses of one connection.
-- The lock around a write is left out: a connection is used by one operation at a time here.
pub mod Steps
pub mod Prepares
pub mod Requests
pub mod Refused
pub mod Pool
use mathlib.Core.Option
use go_firebird_driver.Prelude.{
  ℕ, zero, suc, ◌+◌, ◌*◌, ◌/◌, Bool, true, false, List, [], ◌∷◌, ◌++◌, Option, none, some, ◌⊎◌, inl,
  inr, ltb, ◌==◌, ◌&&◌, ◌||◌, length, if◌then◌else◌,
}
use go_firebird_driver.Prelude.Bytes.{Bytes}
use go_firebird_driver.Wire.Protocol.{
  op_transaction, op_commit, op_rollback, op_commit_retaining, op_info_transaction,
  op_info_database, op_prepare_statement, op_allocate_statement, op_free_statement, op_info_sql,
  invalid_object, sql_dialect_current, dsql_close, dsql_drop, sql_text, sql_varying,
}
use go_firebird_driver.Wire.Writer.{Writer, flush}
use go_firebird_driver.Wire.Writer.Contents.{Item, int32, uint32, buffer, string, write_all}
use go_firebird_driver.Wire.Reader.{Reader}
use go_firebird_driver.Wire.Response.{
  GenericResponse, no_response, ResponseError, Outcome, read_response,
}
use go_firebird_driver.Wire.Info.{ColumnDescriptor, prepare_info_items}
use go_firebird_driver.Wire.Blr.{base_type}

-- `WireConnection`, without what no operation here uses. `write_results` are the errors of the coming
-- writes to the transport, nil behind its end, and `sent` is what was written; `free_handles` is the
-- used part of the source's array, the last handle first.
pub record WireConnection : Type 0 where
  pub reader : Reader
  pub writer : Writer
  pub write_results : List (Option ℕ)
  pub sent : Bytes
  pub db_handle : ℕ
  pub lazy_send : Bool
  pub deferred_count : ℕ
  pub free_handles : List ℕ

-- The error of an operation: its flush's, or its response's.
pub data OpError : Type 0 where
  flush_failed : ℕ → OpError
  response_failed : ResponseError → OpError

-- The writes of a request into the buffer of the connection.
abbrev pub put_all : List Item → WireConnection → WireConnection
put_all is wc = record wc { writer = write_all is wc.writer }

-- `flush`: a write that fails hands over nothing here.
unfoldable pub flush_connection : WireConnection → Option ℕ × WireConnection
flush_connection wc =
    let (bs, w) = flush wc.writer in
    elim bs [
      | none ↦ (none, record wc { writer = w })
      | some d ↦ elim wc.write_results [
        | [] ↦ (none, record wc { writer = w; sent = wc.sent ++ d })
        | e ∷ es ↦ elim e [
          | some x ↦ (some x, record wc { writer = w; write_results = es })
          | none ↦ (none, record wc { writer = w; write_results = es; sent = wc.sent ++ d })
        ]
      ]
    ]

-- The loop of `consumeDeferred`: the error, the responses still due, the reader.
unfoldable pub consume_loop : ℕ → Reader → Option ResponseError × ℕ × Reader
consume_loop zero r = (none, zero, r)
consume_loop (suc n) r =
    let o = read_response r in
    let later = consume_loop n o.reader in
    elim o.failure [ some e ↦ (some e, suc n, o.reader) | none ↦ later ]

-- `consumeDeferred`
unfoldable pub consume_deferred : WireConnection → Option ResponseError × WireConnection
consume_deferred wc =
    let (e, n, r) = consume_loop wc.deferred_count wc.reader in
    (e, record wc { deferred_count = n; reader = r })

-- What `readResponse` returns, and the connection behind it.
pub record Reply : Type 0 where
  pub response : GenericResponse
  pub failure : Option ResponseError
  pub wc : WireConnection

-- `wc.reader.ReadResponse()`
abbrev pub read_direct : WireConnection → Reply
read_direct wc =
    let o = read_response wc.reader in
    record { response = o.response; failure = o.failure; wc = record wc { reader = o.reader } }

-- `readResponse`
unfoldable pub read_reply : WireConnection → Reply
read_reply wc =
    let (e, wc') = consume_deferred wc in
    elim e [
      | some x ↦ record { response = no_response; failure = some x; wc = wc' }
      | none ↦ read_direct wc'
    ]

-- The result of a reply, its error first.
abbrev pub of_reply {ℓ} :
    {A : Type ℓ} → (GenericResponse → A) → Reply → (OpError ⊎ A) × WireConnection
of_reply f x = elim x.failure [
  | some e ↦ (inl (response_failed e), x.wc)
  | none ↦ (inr (f x.response), x.wc)
]

-- What the operations with one request and one response do: write, flush, read the response.
unfoldable pub request {ℓ} :
    {A : Type ℓ}
    → List Item
    → (GenericResponse → A)
    → WireConnection
    → (OpError ⊎ A) × WireConnection
request is f wc =
    let (e, wc') = flush_connection (put_all is wc) in
    let done = of_reply f (read_reply wc') in
    elim e [ some x ↦ (inl (flush_failed x), wc') | none ↦ done ]

-- `Transaction`
abbrev pub transaction : Bytes → WireConnection → (OpError ⊎ ℕ) × WireConnection
transaction tpb = request (int32 op_transaction ∷ int32 0 ∷ buffer tpb ∷ []) (λ r. r.handle)

-- `Commit`, `Rollback` and `CommitRetaining`
abbrev pub commit : ℕ → WireConnection → (OpError ⊎ Unit {0}) × WireConnection
commit tx = request (int32 op_commit ∷ int32 tx ∷ []) (λ r. tt)

abbrev pub rollback : ℕ → WireConnection → (OpError ⊎ Unit {0}) × WireConnection
rollback tx = request (int32 op_rollback ∷ int32 tx ∷ []) (λ r. tt)

abbrev pub commit_retaining : ℕ → WireConnection → (OpError ⊎ Unit {0}) × WireConnection
commit_retaining tx = request (int32 op_commit_retaining ∷ int32 tx ∷ []) (λ r. tt)

-- `InfoTransaction`, `InfoDatabase` and `InfoSQL`
abbrev pub info_transaction : ℕ → Bytes → ℕ → WireConnection → (OpError ⊎ Bytes) × WireConnection
info_transaction tx items n =
    request (int32 op_info_transaction ∷ int32 tx ∷ int32 0 ∷ buffer items ∷ int32 n ∷ [])
      (λ r. r.payload)

abbrev pub info_database : Bytes → ℕ → WireConnection → (OpError ⊎ Bytes) × WireConnection
info_database items n =
    request (int32 op_info_database ∷ int32 0 ∷ int32 0 ∷ buffer items ∷ int32 n ∷ [])
      (λ r. r.payload)

abbrev pub info_sql : ℕ → Bytes → ℕ → WireConnection → (OpError ⊎ Bytes) × WireConnection
info_sql stmt items n =
    request (int32 op_info_sql ∷ int32 stmt ∷ int32 0 ∷ buffer items ∷ int32 n ∷ [])
      (λ r. r.payload)

-- The writes of op_prepare_statement.
abbrev pub prepare_items : ℕ → ℕ → Bytes → Bytes → ℕ → List Item
prepare_items tx stmt sql items n =
    int32 op_prepare_statement
    ∷ int32 tx
    ∷ int32 stmt
    ∷ uint32 sql_dialect_current
    ∷ string sql
    ∷ buffer items
    ∷ int32 n
    ∷ []

-- `PrepareStatementWithItems`
unfoldable pub prepare_statement_with_items :
    ℕ → ℕ → Bytes → ℕ → Bytes → WireConnection → (OpError ⊎ Bytes) × WireConnection
prepare_statement_with_items tx stmt sql n items =
    request (prepare_items tx stmt sql items n) (λ r. r.payload)

-- The part of `AllocateAndPrepareWithItems` behind the flush: both responses. The handle is there also
-- where the second fails.
unfoldable pub read_both : WireConnection → (ℕ × (OpError ⊎ Bytes)) × WireConnection
read_both wc =
    let first = read_reply wc in
    let second = read_direct first.wc in
    elim first.failure [
      | some e ↦ ((0, inl (response_failed e)), first.wc)
      | none ↦ elim second.failure [
        | some e ↦ ((first.response.handle, inl (response_failed e)), second.wc)
        | none ↦ ((first.response.handle, inr second.response.payload), second.wc)
      ]
    ]

-- `AllocateAndPrepareWithItems` without a handle to reuse.
unfoldable pub allocate_fresh :
    ℕ → Bytes → ℕ → Bytes → WireConnection → (ℕ × (OpError ⊎ Bytes)) × WireConnection
allocate_fresh tx sql n items wc =
    let allocate = int32 op_allocate_statement ∷ int32 wc.db_handle ∷ [] in
    let (e, wc') =
      flush_connection (put_all (allocate ++ prepare_items tx invalid_object sql items n) wc) in
    let done = read_both wc' in elim e [ some x ↦ ((0, inl (flush_failed x)), wc') | none ↦ done ]

-- `AllocateAndPrepareWithItems`
unfoldable pub allocate_and_prepare_with_items :
    ℕ → Bytes → ℕ → Bytes → WireConnection → (ℕ × (OpError ⊎ Bytes)) × WireConnection
allocate_and_prepare_with_items tx sql n items wc = elim wc.free_handles [
  | stmt ∷ hs ↦
      let (x, wc') =
        prepare_statement_with_items tx stmt sql n items (record wc { free_handles = hs }) in
      elim x [ inl e ↦ ((0, inl e), wc') | inr d ↦ ((stmt, inr d), wc') ]
  | [] ↦ allocate_fresh tx sql n items wc
]

-- `AllocateAndPrepare`
abbrev pub allocate_and_prepare :
    ℕ → Bytes → ℕ → WireConnection → (ℕ × (OpError ⊎ Bytes)) × WireConnection
allocate_and_prepare tx sql n = allocate_and_prepare_with_items tx sql n prepare_info_items

-- `FreeStatement`
unfoldable pub free_statement : ℕ → ℕ → WireConnection → Option OpError × WireConnection
free_statement stmt option wc =
    let (e, wc') =
      flush_connection (put_all (int32 op_free_statement ∷ int32 stmt ∷ uint32 option ∷ []) wc) in
    let x = read_direct wc' in
    elim e [
      | some f ↦ (some (flush_failed f), wc')
      | none ↦
          if wc'.lazy_send
          then (none, record wc' { deferred_count = suc wc'.deferred_count })
          else (Option.map response_failed x.failure, x.wc)
    ]

abbrev pub max_free_handles : ℕ
max_free_handles = 8

-- `RecycleStatement` behind the closing of its cursor.
unfoldable pub keep_or_drop : ℕ → WireConnection → Option OpError × WireConnection
keep_or_drop stmt wc =
    if ltb (length wc.free_handles) max_free_handles
    then (none, record wc { free_handles = stmt ∷ wc.free_handles })
    else free_statement stmt dsql_drop wc

-- `RecycleStatement`
unfoldable pub recycle_statement : ℕ → Bool → WireConnection → Option OpError × WireConnection
recycle_statement stmt has_cursor wc =
    let (e, wc') = free_statement stmt dsql_close wc in
    let kept = keep_or_drop stmt wc' in
    if has_cursor then elim e [ some x ↦ (some x, wc') | none ↦ kept ] else keep_or_drop stmt wc

-- `DrainStatementPool`, on the handles that are left.
unfoldable pub drain : List ℕ → WireConnection → WireConnection
drain [] wc = record wc { free_handles = [] }
drain (h ∷ hs) wc = drain hs (free_statement h dsql_drop (record wc { free_handles = hs })).1

unfoldable pub drain_statement_pool : WireConnection → WireConnection
drain_statement_pool wc = drain wc.free_handles wc
