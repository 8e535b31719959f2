-- ===== src/Wire/Connection/Refused.antt =====
-- What a refused allocation leaves behind: the response to the prepare request that went out with it.
use mathlib.Core.Path.{subst}
use go_firebird_driver.Prelude.{ℕ, ◌≡◌, refl, sym, ◌∙◌, ap, true, List, [], ◌∷◌, none, inl, All}
use go_firebird_driver.Prelude.Bytes.{Bytes}
use go_firebird_driver.Wire.Protocol.{invalid_object, op_allocate_statement}
use go_firebird_driver.Wire.Writer.Contents.{Item, int32, IsWritable}
use go_firebird_driver.Wire.Response.{GenericResponse}
use go_firebird_driver.Wire.Response.Message.{Message, message_then, IsMessage, is_refusal}
use go_firebird_driver.Wire.Connection.{
  WireConnection, response_failed, request, prepare_items, allocate_fresh,
}
use go_firebird_driver.Wire.Connection.Steps.{
  IsDue, IsFlushed, first_refusal, refused_by, read_reply-messages,
}
use go_firebird_driver.Wire.Connection.Requests.{
  flushed, flush_connection_lem, allocate_flushed, read_both-refused, result_of, request_in_step,
}

-- The server refuses an allocation and, as it must, the prepare request behind it.
record Refused (tx n : ℕ) (sql items : Bytes) (wc : WireConnection) (m1 m2 : Message) (rest : Bytes)
    : Type 0 where
  result : (allocate_fresh tx sql n items wc).0 ≡ (0, inl (response_failed (refused_by m1)))
  flushed_again : IsFlushed (allocate_fresh tx sql n items wc).1
  due : IsDue (allocate_fresh tx sql n items wc).1 [] (message_then m2 rest)

allocate_fresh-Refused :
    (tx n : ℕ) (sql items : Bytes) (wc : WireConnection) (m1 m2 : Message) (rest : Bytes)
    → IsFlushed wc
    → IsMessage m1
    → is_refusal m1.entries ≡ true
    → IsDue wc [] (message_then m1 (message_then m2 rest))
    → Refused tx n sql items wc m1 m2 rest
unfolding first_refusal
allocate_fresh-Refused tx n sql items wc m1 m2 rest w v1 g h =
    let is = int32 wc.db_handle ∷ prepare_items tx invalid_object sql items n in
    let wc' = flushed (int32 op_allocate_statement ∷ is) wc in
    let (e, w') =
      flush_connection_lem op_allocate_statement is wc
        (tt, (tt, (tt, (tt, (tt, (tt, (tt, (tt, tt)))))))) w in
    let h' : IsDue wc' [] (message_then m1 (message_then m2 rest)) = record {
      holds = h.holds;
      due = h.due;
      sendable = h.sendable;
    } in
    let k = read_reply-messages wc' [] m1 (message_then m2 rest) v1 h' in
    let same =
      allocate_flushed tx n sql items wc wc' e
      ∙ read_both-refused wc' (refused_by m1) (k.error ∙ rw g refl) in
    record {
      result = ap (λ x. x.0) same;
      flushed_again = subst (λ x. IsFlushed x.1) (sym same) (k.flushed w');
      due = subst (λ x. IsDue x.1 [] (message_then m2 rest)) (sym same) k.due;
    }

-- On a connection with nothing due whose transport takes its writes, after an allocation that the
-- server refuses, the next operation of one request and one response returns what the server
-- answered to the prepare request sent along with the allocation, whatever the operation is: its
-- own response is never looked at.
pub request_after_refusal :
    {A : Type 0} (tx n : ℕ) (sql items : Bytes) (wc : WireConnection) (m1 m2 : Message)
    (rest : Bytes) (op : ℕ) (is : List Item) (f : GenericResponse → A)
    → IsFlushed wc
    → IsMessage m1
    → IsMessage m2
    → is_refusal m1.entries ≡ true
    → All IsWritable is
    → IsDue wc [] (message_then m1 (message_then m2 rest))
    → ((allocate_fresh tx sql n items wc).0 ≡ (0, inl (response_failed (refused_by m1))))
      × ((request (int32 op ∷ is) f (allocate_fresh tx sql n items wc).1).0 ≡ result_of none m2 f)
unfolding first_refusal
request_after_refusal tx n sql items wc m1 m2 rest op is f w v1 v2 g s h =
    let k = allocate_fresh-Refused tx n sql items wc m1 m2 rest w v1 g h in
    let (a, b, c, d) =
      request_in_step op is f (allocate_fresh tx sql n items wc).1 [] m2 rest s k.flushed_again v2
        k.due in
    (k.result, a)
