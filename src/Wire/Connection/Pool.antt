-- ===== src/Wire/Connection/Pool.antt =====
-- The pool of statement handles: reuse without a round trip, its bound, and its end.
use go_firebird_driver.Prelude.{
  ℕ, suc, ◌+◌, ◌≤◌, ◌<◌, ◌≡◌, refl, sym, ◌∙◌, ap, Bool, true, false, List, [], ◌∷◌, ◌++◌, ◌⊎◌, none,
  inl, inr, arith, append_assoc, append-nil, length,
}
use go_firebird_driver.Prelude.Bytes.{Bytes}
use go_firebird_driver.Wire.Protocol.{
  op_prepare_statement, op_free_statement, dsql_drop, dsql_close,
}
use go_firebird_driver.Wire.Writer.Contents.{Item, int32, uint32, buffer, string, encoded_all}
use go_firebird_driver.Wire.Connection.{
  WireConnection, OpError, put_all, flush_connection, request, prepare_items,
  prepare_statement_with_items, allocate_and_prepare_with_items, free_statement, keep_or_drop,
  recycle_statement, drain, drain_statement_pool, max_free_handles,
}
use go_firebird_driver.Wire.Response.Message.{Message, message_then, IsMessage}
use go_firebird_driver.Wire.Connection.Prepares.{
  prepare_bytes, encoded_all-prepare_items, flush_connection-handles, request-handles,
}
use go_firebird_driver.Wire.Connection.Steps.{IsFlushed, IsDue, first_refusal, still_due}
use go_firebird_driver.Wire.Connection.Requests.{
  flushed, flush_connection_lem, result_of, request_in_step,
}

recycle-pooled :
    (stmt tx n : ℕ) (sql items : Bytes) (wc : WireConnection)
    → length wc.free_handles < max_free_handles
    → ((recycle_statement stmt false wc).0 ≡ none)
      × ((recycle_statement stmt false wc).1.sent ≡ wc.sent)
      × (allocate_and_prepare_with_items tx sql n items (recycle_statement stmt false wc).1 ≡ (
        elim (request (prepare_items tx stmt sql items n) (λ r. r.payload) wc).0 [
          | inl e ↦ (0, inl e)
          | inr d ↦ (stmt, inr d)
        ],
        (request (prepare_items tx stmt sql items n) (λ r. r.payload) wc).1,
      ))
unfolding recycle_statement keep_or_drop allocate_and_prepare_with_items
    prepare_statement_with_items
recycle-pooled stmt tx n sql items wc h = ground arith

-- A preparation on the handle `stmt`, with what is due before it and its own response `m`.
pub record Reused (tx stmt n : ℕ) (sql items : Bytes) (wc : WireConnection) (ds : List Message)
    (m : Message) (rest : Bytes) (x : (ℕ × (OpError ⊎ Bytes)) × WireConnection) : Type 0 where
  pub result : x.0 ≡ (elim (result_of (first_refusal ds) m (λ r. r.payload)) [
    | inl e ↦ (0, inl e)
    | inr d ↦ (stmt, inr d)
  ])
  pub told : x.1.sent ≡ wc.sent ++ prepare_bytes tx stmt sql items n
  pub pool : x.1.free_handles ≡ wc.free_handles
  pub due : IsDue x.1 (still_due ds m) rest

-- A handle that was recycled without a cursor into a pool with room is the one that the next
-- statement is prepared on: nothing is sent for it in between, and on a connection in step whose
-- transport takes its writes the next preparation sends its own bytes with this handle and
-- nothing else, no allocation; the handle comes with the data, or none with the refusal of a
-- deferred response or of the preparation, the pool is as it was before, and the connection is in
-- step again.
pub recycle-prepare :
    (stmt tx n : ℕ) (sql items : Bytes) (wc : WireConnection) (ds : List Message) (m : Message)
    (rest : Bytes)
    → length wc.free_handles < max_free_handles
    → IsFlushed wc
    → IsMessage m
    → IsDue wc ds (message_then m rest)
    → ((recycle_statement stmt false wc).0 ≡ none)
      × ((recycle_statement stmt false wc).1.sent ≡ wc.sent)
      × Reused tx stmt n sql items wc ds m rest
          (allocate_and_prepare_with_items tx sql n items (recycle_statement stmt false wc).1)
recycle-prepare stmt tx n sql items wc ds m rest h w v d =
    let (a, b, c) = recycle-pooled stmt tx n sql items wc h in
    let (e, f, g, i) =
      request_in_step op_prepare_statement
        (int32 tx ∷ int32 stmt ∷ uint32 3 ∷ string sql ∷ buffer items ∷ int32 n ∷ [])
        (λ r. r.payload) wc ds m rest (tt, (tt, (tt, (tt, (tt, (tt, tt)))))) w v d in
    let sent = encoded_all-prepare_items tx stmt n sql items in
    let handles = request-handles (prepare_items tx stmt sql items n) (λ r. r.payload) wc in
    (
      a,
      b,
      rw c (record {
        result = rw e refl;
        told = f ∙ ap (λ x. wc.sent ++ x) sent;
        pool = handles;
        due = i;
      }),
    )

free_statement-handles :
    (stmt option : ℕ) (wc : WireConnection)
    → (free_statement stmt option wc).1.free_handles ≡ wc.free_handles
unfolding free_statement
free_statement-handles stmt option wc =
    let e =
      flush_connection-handles
        (put_all (int32 op_free_statement ∷ int32 stmt ∷ uint32 option ∷ []) wc) in
    ground (arith, e)

keep_or_drop-bound :
    (stmt : ℕ) (wc : WireConnection)
    → length wc.free_handles ≤ max_free_handles
    → length (keep_or_drop stmt wc).1.free_handles ≤ max_free_handles
unfolding keep_or_drop
keep_or_drop-bound stmt wc h =
    let e = free_statement-handles stmt dsql_drop wc in ground (arith, ap length e)

-- The pool never outgrows its eight places: whatever the server answers, recycling a statement
-- keeps it within them, if it is.
pub recycle_statement-bound :
    (stmt : ℕ) (has_cursor : Bool) (wc : WireConnection)
    → length wc.free_handles ≤ max_free_handles
    → length (recycle_statement stmt has_cursor wc).1.free_handles ≤ max_free_handles
unfolding recycle_statement
recycle_statement-bound stmt true wc h =
    let e = free_statement-handles stmt dsql_close wc in
    let b =
      keep_or_drop-bound stmt (free_statement stmt dsql_close wc).1 (omega (arith, ap length e)) in
    ground (arith, ap length e)
recycle_statement-bound stmt false wc h = keep_or_drop-bound stmt wc h

-- The request that drops a statement.
abbrev pub drop_request : ℕ → List Item
drop_request stmt = int32 op_free_statement ∷ int32 stmt ∷ uint32 dsql_drop ∷ []

pub drop_requests : List ℕ → Bytes
drop_requests [] = []
drop_requests (h ∷ hs) = encoded_all (drop_request h) ++ drop_requests hs

free_statement-lazy :
    (stmt : ℕ) (wc wc' : WireConnection)
    → flush_connection (put_all (drop_request stmt) wc) ≡ (none, wc')
    → wc'.lazy_send ≡ true
    → (free_statement stmt dsql_drop wc).1 ≡ record wc' { deferred_count = suc wc'.deferred_count }
unfolding free_statement
free_statement-lazy stmt wc wc' e l = ground arith

record Drained (wc wc' : WireConnection) (hs : List ℕ) : Type 0 where
  none_left : wc'.free_handles ≡ []
  counted : wc'.deferred_count ≡ wc.deferred_count + length hs
  told : wc'.sent ≡ wc.sent ++ drop_requests hs

drain-Drained :
    (hs : List ℕ) (wc : WireConnection)
    → IsFlushed wc
    → wc.lazy_send ≡ true
    → Drained wc (drain hs wc) hs
unfolding drain drop_requests
drain-Drained [] wc w l = record {
  none_left = refl;
  counted = omega arith;
  told = sym (append-nil wc.sent);
}
drain-Drained (h ∷ hs) wc w l =
    let wc0 = record wc { free_handles = hs } in
    let w0 : IsFlushed wc0 = record { valid = w.valid; empty = w.empty; healthy = w.healthy } in
    let (e, w1) =
      flush_connection_lem op_free_statement (int32 h ∷ uint32 dsql_drop ∷ []) wc0 (tt, (tt, tt))
        w0 in
    let wc1 = flushed (drop_request h) wc0 in
    let wc2 = record wc1 { deferred_count = suc wc1.deferred_count } in
    let w2 : IsFlushed wc2 = record { valid = w1.valid; empty = w1.empty; healthy = w1.healthy } in
    let k = drain-Drained hs wc2 w2 l in
    rw (free_statement-lazy h wc0 wc1 e l) (record {
      none_left = k.none_left;
      counted = omega (arith, k.counted);
      told = k.told ∙ append_assoc wc.sent (encoded_all (drop_request h)) (drop_requests hs);
    })

-- Closing drops every pooled handle: on a connection with lazy send whose transport takes its
-- writes the pool is empty behind it, one drop request was sent for each handle, the last one
-- kept first, and nothing else, and one response is counted as due for each.
pub drain_statement_pool-lazy :
    (wc : WireConnection)
    → IsFlushed wc
    → wc.lazy_send ≡ true
    → ((drain_statement_pool wc).free_handles ≡ [])
      × ((drain_statement_pool wc).deferred_count ≡ wc.deferred_count + length wc.free_handles)
      × ((drain_statement_pool wc).sent ≡ wc.sent ++ drop_requests wc.free_handles)
unfolding drain_statement_pool
drain_statement_pool-lazy wc w l =
    let k = drain-Drained wc.free_handles wc w l in (k.none_left, k.counted, k.told)
