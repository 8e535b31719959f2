-- ===== src/Wire/Connection/Requests.antt =====
-- Whole operations of a connection in step: what they send, what they return, what stays due.
use go_firebird_driver.Prelude.{
  ℕ, ◌≡◌, refl, ◌∙◌, ap, false, List, [], ◌∷◌, ◌++◌, Option, none, some, ◌⊎◌, inl, inr, arith,
  length, length-append, drop, All,
}
use go_firebird_driver.Prelude.Bytes.{Bytes}
use go_firebird_driver.Wire.Protocol.{invalid_object, op_allocate_statement}
use go_firebird_driver.Wire.Writer.{flush, bytes}
use go_firebird_driver.Wire.Writer.Contents.{
  Item, int32, encoded, encoded_all, write_all, IsWritable, bytes-write_all, flush_lem,
}
use go_firebird_driver.Wire.Response.{GenericResponse, ResponseError}
use go_firebird_driver.Wire.Response.Message.{
  Message, message_then, IsMessage, meant, is_refusal, read_response-message,
}
use go_firebird_driver.Wire.Connection.{
  WireConnection, OpError, response_failed, put_all, flush_connection, Reply, of_reply, read_direct,
  read_reply, request, prepare_items, read_both, allocate_fresh,
}
use go_firebird_driver.Wire.Connection.Prepares.{
  allocate_bytes, encoded_all-allocation, read_reply-write_results,
}
use go_firebird_driver.Wire.Connection.Steps.{
  messages_then, IsDue, IsFlushed, first_refusal, behind_refusal, still_due, reply_error,
  reply_response, Replied, read_reply-messages,
}

-- The connection behind a flush that the transport takes, in one write.
abbrev pub flushed : List Item → WireConnection → WireConnection
flushed is wc = record wc {
  writer = (flush (write_all is wc.writer)).1;
  write_results = drop 1 wc.write_results;
  sent = wc.sent ++ encoded_all is;
}

flush_connection-taken :
    (es : List (Option ℕ)) (wc : WireConnection) (d : Bytes)
    → wc.write_results ≡ es
    → All (λ e. e ≡ none) es
    → (flush wc.writer).0 ≡ some d
    → flush_connection wc ≡ (
      none,
      record wc { writer = (flush wc.writer).1; write_results = drop 1 es; sent = wc.sent ++ d },
    )
unfolding flush_connection
flush_connection-taken [] wc d f h e = ground (arith, e, f)
flush_connection-taken (none ∷ es) wc d f h e = ground (arith, e, f)
flush_connection-taken (some x ∷ es) wc d f h e = absurd (let k = h.0 in ground arith)

taken-All : (es : List (Option ℕ)) → All (λ e. e ≡ none) es → All (λ e. e ≡ none) (drop 1 es)
taken-All [] h = tt
taken-All (e ∷ es) h = h.1

pub flush_connection_lem :
    (op : ℕ) (is : List Item) (wc : WireConnection)
    → All IsWritable is
    → IsFlushed wc
    → (flush_connection (put_all (int32 op ∷ is) wc) ≡ (none, flushed (int32 op ∷ is) wc))
      × IsFlushed (flushed (int32 op ∷ is) wc)
unfolding encoded_all
flush_connection_lem op is wc s f =
    let w = write_all (int32 op ∷ is) wc.writer in
    let d = encoded_all (int32 op ∷ is) in
    let (v, b) = bytes-write_all (int32 op ∷ is) wc.writer f.valid (tt, s) in
    let b' : bytes w ≡ d = b ∙ ap (λ x. x ++ d) f.empty in
    let (e, v', n) =
      flush_lem w v
        (omega (arith, ap length b', length-append (encoded (int32 op)) (encoded_all is))) in
    (
      flush_connection-taken wc.write_results (record wc { writer = w }) d refl f.healthy
          (e ∙ ap some b'),
      record { valid = v'; empty = n; healthy = taken-All wc.write_results f.healthy },
    )

request-flushed :
    {A : Type 0} (is : List Item) (f : GenericResponse → A) (wc wc' : WireConnection)
    → flush_connection (put_all is wc) ≡ (none, wc')
    → request is f wc ≡ of_reply f (read_reply wc')
unfolding request
request-flushed is f wc wc' e = ground arith

-- The result of an operation whose own response is `m`, where `o` is the first refusal among those due.
abbrev pub result_of {ℓ} :
    {A : Type ℓ} → Option Message → Message → (GenericResponse → A) → OpError ⊎ A
result_of o m f = elim (reply_error o m) [
  | some e ↦ inl (response_failed e)
  | none ↦ inr (f (meant m))
]

of_reply_wc : {A : Type 0} (f : GenericResponse → A) (x : Reply) → (of_reply f x).1 ≡ x.wc
of_reply_wc f x = ground arith

of_reply_result :
    {A : Type 0} (f : GenericResponse → A) (x : Reply) (o : Option Message) (m : Message)
    → x.failure ≡ reply_error o m
    → x.response ≡ reply_response o m
    → (of_reply f x).0 ≡ result_of o m f
of_reply_result f x none m e r = ground (arith, e, r)
of_reply_result f x (some d) m e r = rw e refl

-- An operation of one request and one response, on a connection in step whose transport takes its
-- writes: it sends its request and nothing else; a deferred response that is a refusal fails it,
-- else its own response decides, and is what it returns; and the connection is in step again: the
-- responses that it counts are those that the stream still holds, where a deferred refusal was
-- found also its own.
pub request_in_step :
    {A : Type 0} (op : ℕ) (is : List Item) (f : GenericResponse → A) (wc : WireConnection)
    (ds : List Message) (m : Message) (rest : Bytes)
    → All IsWritable is
    → IsFlushed wc
    → IsMessage m
    → IsDue wc ds (message_then m rest)
    → ((request (int32 op ∷ is) f wc).0 ≡ result_of (first_refusal ds) m f)
      × ((request (int32 op ∷ is) f wc).1.sent ≡ wc.sent ++ encoded_all (int32 op ∷ is))
      × IsFlushed (request (int32 op ∷ is) f wc).1
      × IsDue (request (int32 op ∷ is) f wc).1 (still_due ds m) rest
request_in_step op is f wc ds m rest s w v h =
    let wc' = flushed (int32 op ∷ is) wc in
    let (e, w') = flush_connection_lem op is wc s w in
    let h' : IsDue wc' ds (message_then m rest) = record {
      holds = h.holds;
      due = h.due;
      sendable = h.sendable;
    } in
    let k = read_reply-messages wc' ds m rest v h' in
    let same = request-flushed (int32 op ∷ is) f wc wc' e in
    rw (same, of_reply_wc f (read_reply wc'))
      (
        of_reply_result f (read_reply wc') (first_refusal ds) m k.error k.response,
        k.sent,
        k.flushed w',
        k.due,
      )

pub allocate_flushed :
    (tx n : ℕ) (sql items : Bytes) (wc wc' : WireConnection)
    → flush_connection (
        put_all
          (int32 op_allocate_statement
            ∷ int32 wc.db_handle
            ∷ prepare_items tx invalid_object sql items n)
          wc)
      ≡ (none, wc')
    → allocate_fresh tx sql n items wc ≡ read_both wc'
unfolding allocate_fresh
allocate_flushed tx n sql items wc wc' e = ground arith

read_both-clear :
    (wc : WireConnection)
    → (read_reply wc).failure ≡ none
    → read_both wc ≡ (
      (
        (read_reply wc).response.handle,
        (of_reply (λ r. r.payload) (read_direct (read_reply wc).wc)).0,
      ),
      (read_direct (read_reply wc).wc).wc,
    )
unfolding read_both
read_both-clear wc e = ground arith

pub read_both-refused :
    (wc : WireConnection) (e : ResponseError)
    → (read_reply wc).failure ≡ some e
    → read_both wc ≡ ((0, inl (response_failed e)), (read_reply wc).wc)
unfolding read_both
read_both-refused wc e h = ground arith

-- Allocating and preparing a statement, on a connection in step of whose deferred responses none
-- is a refusal, and whose transport takes its writes: where the server grants the allocation, the
-- bytes of the allocation on the database and of the preparation, with the transaction, no
-- handle, the dialect, the text, the items and the length, are sent and nothing else, in one
-- write; the handle of the first response comes with the data or the refusal of the second, and
-- nothing is due behind them.
pub allocate_fresh-granted :
    (tx n : ℕ) (sql items : Bytes) (wc : WireConnection) (ds : List Message) (m1 m2 : Message)
    (rest : Bytes)
    → IsFlushed wc
    → IsMessage m1
    → IsMessage m2
    → first_refusal ds ≡ none
    → is_refusal m1.entries ≡ false
    → IsDue wc ds (message_then m1 (message_then m2 rest))
    → ((allocate_fresh tx sql n items wc).0 ≡ (m1.handle, result_of none m2 (λ r. r.payload)))
      × ((allocate_fresh tx sql n items wc).1.sent
          ≡ wc.sent ++ allocate_bytes wc.db_handle tx sql items n)
      × ((allocate_fresh tx sql n items wc).1.write_results ≡ drop 1 wc.write_results)
      × IsDue (allocate_fresh tx sql n items wc).1 [] rest
unfolding messages_then
allocate_fresh-granted tx n sql items wc ds m1 m2 rest w v1 v2 f g h =
    let is = int32 wc.db_handle ∷ prepare_items tx invalid_object sql items n in
    let wc' = flushed (int32 op_allocate_statement ∷ is) wc in
    let (e, w') =
      flush_connection_lem op_allocate_statement is wc
        (tt, (tt, (tt, (tt, (tt, (tt, (tt, (tt, tt)))))))) w in
    let h' : IsDue wc' ds (message_then m1 (message_then m2 rest)) = record {
      holds = h.holds;
      due = h.due;
      sendable = h.sendable;
    } in
    let k : Replied (read_reply wc') wc' none (behind_refusal ds) m1 (message_then m2 rest) =
      rw f at (read_reply-messages wc' ds m1 (message_then m2 rest) v1 h') in
    let r = (read_reply wc').wc in
    let (a, b, h'') = read_response-message m2 r.reader rest v2 k.due.holds in
    let clear : (read_reply wc').failure ≡ none = k.error ∙ rw g refl in
    rw (allocate_flushed tx n sql items wc wc' e, read_both-clear wc' clear)
      (
        ap (λ x. (x, (of_reply (λ y. y.payload) (read_direct r)).0))
              (ap (λ (x : GenericResponse). x.handle) k.response)
            ∙ ap (λ x. (m1.handle, x))
                (of_reply_result (λ y. y.payload) (read_direct r) none m2 b a),
        k.sent ∙ ap (λ x. wc.sent ++ x) (encoded_all-allocation wc.db_handle tx n sql items),
        read_reply-write_results wc',
        record { holds = h''; due = k.due.due; sendable = tt },
      )
