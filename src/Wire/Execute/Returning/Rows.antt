-- ===== src/Wire/Execute/Returning/Rows.antt =====
-- The row and the responses that a server sends for one execution, through `Execute2`.
use go_firebird_driver.Prelude.{
  ℕ, ◌^◌, ◌≤◌, ◌<◌, ◌≡◌, refl, ◌∙◌, ap, arith, true, ◌&&◌, List, [], ◌++◌, Option, none, some,
  length, replicate, length-replicate, append-nil, drop, zero, suc, ltb, if◌then◌else◌,
}
use go_firebird_driver.Prelude.Bytes.{Bytes, be32}
use go_firebird_driver.Wire.Protocol.{op_response, op_sql_response}
use go_firebird_driver.Wire.Reader.{Reader, read_opcode, read_int32}
use go_firebird_driver.Wire.Reader.Filling.{Holds}
use go_firebird_driver.Wire.Reader.Stream.{read_int32-be32}
use go_firebird_driver.Wire.Reader.Decode.{dummies, read_opcode-dummies}
use go_firebird_driver.Wire.Status.{has_error}
use go_firebird_driver.Wire.Response.{GenericResponse, read_generic_response, read_sql_response}
use go_firebird_driver.Wire.Response.Message.{
  Message, message_then, IsMessage, vector, is_refusal, has_error-vector, fields_then,
  read_generic_response-fields,
}
use go_firebird_driver.Wire.Info.{ColumnDescriptor}
use go_firebird_driver.Wire.Row.{Value, null_value, decode_row}
use go_firebird_driver.Wire.Row.Layout.{SendsRow, null_bits, bitset_size, decode_row-SendsRow}
use go_firebird_driver.Wire.Execute.Returning.{
  execute2_refused, last_response, second_response, after_row, on_sql_response, read_returned,
}

last_response-clear :
    (m : ℕ) (row : Option (List Value)) (r : Reader)
    → (read_generic_response r).1.err ≡ none
    → last_response m row r ≡ record {
      messages = m;
      row = row;
      failure =
          if has_error (read_generic_response r).0.status
          then some (execute2_refused (read_generic_response r).0.status)
          else none;
      reader = (read_generic_response r).1;
    }
unfolding last_response
last_response-clear m row r e = ground (arith, e)

second_response-clear :
    (m : ℕ) (row : Option (List Value)) (r : Reader)
    → (read_opcode r).1.err ≡ none
    → (read_opcode r).0 ≡ op_response
    → second_response m row r ≡ last_response m row (read_opcode r).1
unfolding second_response
second_response-clear m row r e o = ground (arith, e, o)

after_row-clear :
    (m : ℕ) (row : Option (List Value)) (r : Reader)
    → r.err ≡ none
    → after_row m row r ≡ second_response m row r
unfolding after_row
after_row-clear m row r e = ground (arith, e)

module _ (outputs : List ColumnDescriptor) (null_buf : Bytes) where
  abbrev empty_row : List Value
  empty_row = replicate (length outputs) null_value

  on_sql_response-row :
      (r : Reader)
      → 1 ≤ (read_int32 r).0
      → (read_int32 r).0 < 2 ^ 31
      → (decode_row (read_int32 r).1 outputs null_buf empty_row).failure ≡ none
      → on_sql_response outputs null_buf r
        ≡ after_row
            (read_int32 r).0
            (some (decode_row (read_int32 r).1 outputs null_buf empty_row).row)
            (decode_row (read_int32 r).1 outputs null_buf empty_row).reader
  unfolding on_sql_response read_sql_response
  on_sql_response-row r a b e =
      let g : (ltb 0 (read_int32 r).0 && ltb (read_int32 r).0 (2 ^ 31)) ≡ true =
        ground (arith, a, b) in
      rw (g, e) refl

  read_returned-sql :
      (r : Reader)
      → (read_opcode r).1.err ≡ none
      → (read_opcode r).0 ≡ op_sql_response
      → read_returned outputs null_buf r ≡ on_sql_response outputs null_buf (read_opcode r).1
  unfolding read_returned
  read_returned-sql r e o = ground (arith, e, o)

-- The response behind the row.
second_response-message :
    (n : ℕ) (row : Option (List Value)) (m : Message) (r : Reader) (rest : Bytes)
    → IsMessage m
    → Holds r (message_then m rest)
    → (r' : Reader) × (second_response n row r ≡ record {
      messages = n;
      row = row;
      failure = if is_refusal m.entries then some (execute2_refused (vector m.entries)) else none;
      reader = r';
    })
      × Holds r' rest
unfolding message_then
second_response-message n row m r rest w h =
    let (o, h1) =
      read_opcode-dummies m.keep_alives r op_response (fields_then m rest) (omega arith)
        (λ x. absurd (omega (arith, x))) h in
    let r1 = (read_opcode r).1 in
    let (e, h2) = read_generic_response-fields m r1 rest w h1 in
    let s = ap (λ (x : GenericResponse). x.status) e in
    let k = has_error-vector m.entries w.3 in
    (
      (read_generic_response r1).1,
      second_response-clear n row r h1.clear o
          ∙ last_response-clear n row r1 h2.clear
          ∙ rw (s, k) refl,
      h2,
    )

drop-replicate : (n : ℕ) → drop n (replicate n null_value) ≡ []
drop-replicate zero = refl
drop-replicate (suc n) = drop-replicate n

-- A row of the statement in front of the response that ends the execution.
unfoldable pub returned_then : ℕ → Bytes → Bytes → Message → Bytes → Bytes
returned_then n bitset columns m rest =
    be32 op_sql_response ++ (be32 n ++ (bitset ++ (columns ++ message_then m rest)))

-- Execute2 returns the row that the server sends in front of the last response, and the number of
-- messages sent, also where that response refuses: it then fails with the whole status vector of
-- the response, and without an error otherwise, and the reader stops right behind the response.
-- The number is positive as an int32, the row has the form of the output columns, the response
-- has integers of their width and at most 64 MiB of data, and the stream delivers all its bytes.
pub read_returned-row :
    (outputs : List ColumnDescriptor) (null_buf : Bytes) (n : ℕ) (bitset columns : Bytes)
    (vs : List Value) (m : Message) (rest : Bytes) (r : Reader)
    → 1 ≤ n
    → n < 2 ^ 31
    → length bitset ≡ bitset_size (length outputs)
    → SendsRow (null_bits bitset) 0 outputs columns vs
    → IsMessage m
    → Holds r (returned_then n bitset columns m rest)
    → (r' : Reader) × (read_returned outputs null_buf r ≡ record {
      messages = n;
      row = some vs;
      failure = if is_refusal m.entries then some (execute2_refused (vector m.entries)) else none;
      reader = r';
    })
      × Holds r' rest
unfolding returned_then dummies
read_returned-row outputs null_buf n bitset columns vs m rest r p q l s w h =
    let others = message_then m rest in
    let (o, h1) =
      read_opcode-dummies 0 r op_sql_response (be32 n ++ (bitset ++ (columns ++ others)))
        (omega arith) (λ x. absurd (omega (arith, x))) h in
    let r1 = (read_opcode r).1 in
    let (e, h2) = read_int32-be32 r1 n (bitset ++ (columns ++ others)) (omega (arith, q)) h1 in
    let r2 = (read_int32 r1).1 in
    let row = empty_row outputs null_buf in
    let k = length-replicate {A = Value} (length outputs) null_value in
    let (d, v, h3) =
      decode_row-SendsRow r2 outputs null_buf bitset columns others row vs (omega (arith, k)) l s
        h2 in
    let x = decode_row r2 outputs null_buf row in
    let v' = v ∙ ap (λ y. vs ++ y) (drop-replicate (length outputs)) ∙ append-nil vs in
    let (r', g, h4) = second_response-message n (some vs) m x.reader rest w h3 in
    (
      r',
      read_returned-sql outputs null_buf r h1.clear o
          ∙ on_sql_response-row outputs null_buf r1 (omega (arith, e, p)) (omega (arith, e, q)) d
          ∙ ap (λ y. after_row y (some x.row) x.reader) e
          ∙ ap (λ y. after_row n (some y) x.reader) v'
          ∙ after_row-clear n (some vs) x.reader h3.clear
          ∙ g,
      h4,
    )
