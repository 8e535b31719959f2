-- ===== src/Wire/Connection/Prepares.antt =====
-- What a preparation sends, byte by byte, and what reading replies leaves alone.
use go_firebird_driver.Prelude.{ℕ, ◌≡◌, refl, arith, List, ◌∷◌, ◌++◌, length}
use go_firebird_driver.Prelude.Bytes.{Bytes, be32}
use go_firebird_driver.Wire.Protocol.{op_allocate_statement, op_prepare_statement, invalid_object}
use go_firebird_driver.Wire.Writer.Contents.{Item, int32, encoded_all, padded}
use go_firebird_driver.Wire.Response.{GenericResponse}
use go_firebird_driver.Wire.Connection.{
  WireConnection, put_all, flush_connection, consume_deferred, read_reply, request, prepare_items,
}

-- op_prepare_statement: the transaction, the statement, dialect 3, the text, the items asked for, and the
-- length of the answer.
abbrev pub prepare_bytes : ℕ → ℕ → Bytes → Bytes → ℕ → Bytes
prepare_bytes tx stmt sql items n =
    be32 op_prepare_statement
    ++ (be32 tx
        ++ (be32 stmt
            ++ (be32 3
                ++ (be32 (length sql)
                    ++ (padded sql ++ (be32 (length items) ++ (padded items ++ be32 n)))))))

-- op_allocate_statement on the database, and the preparation of the statement that it allocates.
abbrev pub allocate_bytes : ℕ → ℕ → Bytes → Bytes → ℕ → Bytes
allocate_bytes db tx sql items n =
    be32 op_allocate_statement ++ (be32 db ++ prepare_bytes tx 0xFFFF sql items n)

pub encoded_all-prepare_items :
    (tx stmt n : ℕ) (sql items : Bytes)
    → encoded_all (prepare_items tx stmt sql items n) ≡ prepare_bytes tx stmt sql items n
unfolding encoded_all
encoded_all-prepare_items tx stmt n sql items = refl

pub encoded_all-allocation :
    (db tx n : ℕ) (sql items : Bytes)
    → encoded_all
        (int32 op_allocate_statement ∷ int32 db ∷ prepare_items tx invalid_object sql items n)
      ≡ allocate_bytes db tx sql items n
unfolding encoded_all
encoded_all-allocation db tx n sql items = refl

pub read_reply-write_results :
    (wc : WireConnection) → (read_reply wc).wc.write_results ≡ wc.write_results
unfolding read_reply consume_deferred
read_reply-write_results wc = ground arith

read_reply-handles : (wc : WireConnection) → (read_reply wc).wc.free_handles ≡ wc.free_handles
unfolding read_reply consume_deferred
read_reply-handles wc = ground arith

pub flush_connection-handles :
    (wc : WireConnection) → (flush_connection wc).1.free_handles ≡ wc.free_handles
unfolding flush_connection
flush_connection-handles wc = ground arith

-- An operation of one request and one response leaves the pool alone.
pub request-handles :
    {A : Type 0} (is : List Item) (f : GenericResponse → A) (wc : WireConnection)
    → (request is f wc).1.free_handles ≡ wc.free_handles
unfolding request
request-handles is f wc =
    let e = flush_connection-handles (put_all is wc) in
    let k = read_reply-handles (flush_connection (put_all is wc)).1 in ground (arith, e, k)
