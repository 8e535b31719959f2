-- ===== src/Wire/Fetch/Rows.antt =====
-- The rows that a server sends for one fetch, through `FetchRowsReuse`.
use go_firebird_driver.Prelude.{
  ℕ, zero, suc, ◌^◌, ◌≤◌, ◌<◌, ◌≡◌, ◌≢◌, refl, sym, ◌∙◌, ap, arith, Bool, false, List, [], ◌∷◌,
  ◌++◌, Option, none, some, length, drop, append_assoc, append-nil, map, leb, ◌==◌, if◌then◌else◌,
  All, All-append,
}
use go_firebird_driver.Prelude.Bytes.{Bytes, be32}
use go_firebird_driver.Wire.Protocol.{op_fetch_response}
use go_firebird_driver.Wire.Reader.{Reader, read_opcode, read_int32}
use go_firebird_driver.Wire.Reader.Filling.{Holds}
use go_firebird_driver.Wire.Reader.Stream.{read_int32-be32}
use go_firebird_driver.Wire.Reader.Decode.{dummies, read_opcode-dummies}
use go_firebird_driver.Wire.Response.{FetchResponse, read_fetch_response}
use go_firebird_driver.Wire.Info.{ColumnDescriptor}
use go_firebird_driver.Wire.Row.{Value, decode_row}
use go_firebird_driver.Wire.Row.Layout.{SendsRow, null_bits, bitset_size, decode_row-SendsRow}
use go_firebird_driver.Wire.Fetch.{
  FetchResult, Batch, slices, grow_batch, next_row, stored, on_row, on_response, on_opcode,
  fetch_loop, first_batch, fetch_rows_reuse,
}
use go_firebird_driver.Wire.Fetch.Batches.{
  IsRow, Filled, slices-concat, grow_batch-Filled, stored-Filled, first_batch-Filled,
}

-- A row with the response in front of it, which says that a message follows.
pub record SentRow : Type 0 where
  pub status : ℕ
  pub messages : ℕ
  pub bitset : Bytes
  pub columns : Bytes
  pub values : List Value

abbrev pub IsSentRow : List ColumnDescriptor → SentRow → Type 0
IsSentRow descs x =
    (x.status < 2 ^ 32)
    × (x.messages < 2 ^ 32)
    × (x.messages ≢ 0)
    × (length x.bitset ≡ bitset_size (length descs))
    × SendsRow (null_bits x.bitset) 0 descs x.columns x.values

-- The rows, and the response that ends them.
unfoldable pub rows_then : List SentRow → ℕ → Bytes → Bytes
rows_then [] status rest = be32 op_fetch_response ++ (be32 status ++ (be32 0 ++ rest))
rows_then (x ∷ xs) status rest =
    be32 op_fetch_response
    ++ (be32 x.status ++ (be32 x.messages ++ (x.bitset ++ (x.columns ++ rows_then xs status rest))))

length-SendsRow :
    (null : ℕ → Bool) (i : ℕ) (ds : List ColumnDescriptor) (bs : Bytes) (vs : List Value)
    → SendsRow null i ds bs vs
    → length vs ≡ length ds
length-SendsRow null i _ _ _ SendsRow.row_end = refl
length-SendsRow null i _ _ _ (SendsRow.row_null {ds = ds} {bs = bs} {vs = vs} e row) =
    ap suc (length-SendsRow null (suc i) ds bs vs row)
length-SendsRow null i _ _ _ (SendsRow.row_value {ds = ds} {bs = bs} {vs = vs} e s row) =
    ap suc (length-SendsRow null (suc i) ds bs vs row)

-- The opcode and the two numbers of a response.
response-Holds :
    (r : Reader) (a b : ℕ) (rest : Bytes)
    → a < 2 ^ 32
    → b < 2 ^ 32
    → Holds r (be32 op_fetch_response ++ (be32 a ++ (be32 b ++ rest)))
    → ((read_opcode r).0 ≡ op_fetch_response)
      × ((read_opcode r).1.err ≡ none)
      × ((read_fetch_response (read_opcode r).1).0 ≡ record { status = a; messages = b })
      × Holds (read_fetch_response (read_opcode r).1).1 rest
unfolding read_fetch_response dummies
response-Holds r a b rest ha hb h =
    let (e, h1) =
      read_opcode-dummies 0 r op_fetch_response (be32 a ++ (be32 b ++ rest)) (omega arith)
        (λ x. absurd (omega (arith, x))) h in
    let (f, h2) = read_int32-be32 (read_opcode r).1 a (be32 b ++ rest) ha h1 in
    let (g, h3) = read_int32-be32 (read_int32 (read_opcode r).1).1 b rest hb h2 in
    (e, h1.clear, cc, h3)

module _ (descs : List ColumnDescriptor) (max_rows : ℕ) (null_buf : Bytes) where
  fetch_loop-response :
      (fuel : ℕ) (b : Batch) (r : Reader)
      → (read_opcode r).0 ≡ op_fetch_response
      → (read_opcode r).1.err ≡ none
      → fetch_loop descs max_rows null_buf (suc fuel) b r
        ≡ on_response descs max_rows null_buf
            (fetch_loop descs max_rows null_buf fuel)
            b
            (read_fetch_response (read_opcode r).1)
  unfolding fetch_loop on_opcode
  fetch_loop-response fuel b r e c = ground (arith, e, c)

  on_response-end :
      (next : Batch → Reader → Option FetchResult) (b : Batch) (x : FetchResponse × Reader)
      (status : ℕ)
      → x.1.err ≡ none
      → x.0 ≡ record { status = status; messages = 0 }
      → on_response descs max_rows null_buf next b x
        ≡ some (record {
          failure = none;
          rows = slices b.count (length descs) b.values;
          eof = status == 100;
          reader = x.1;
        })
  unfolding on_response
  on_response-end next b x status c e =
      let f : x.0.messages ≡ 0 = ap (λ (y : FetchResponse). y.messages) e in
      let g : x.0.status ≡ status = ap (λ (y : FetchResponse). y.status) e in
      ground (arith, c, f, g)

  on_response-row :
      (next : Batch → Reader → Option FetchResult) (b : Batch) (x : FetchResponse × Reader)
      → x.1.err ≡ none
      → x.0.messages ≢ 0
      → (decode_row x.1 descs null_buf
          (next_row (length descs) (grow_batch (length descs) max_rows b))).failure
        ≡ none
      → on_response descs max_rows null_buf next b x
        ≡ next
            (stored
              (length descs)
              (grow_batch (length descs) max_rows b)
              (decode_row x.1 descs null_buf
                (next_row (length descs) (grow_batch (length descs) max_rows b))).row)
            (decode_row x.1 descs null_buf
              (next_row (length descs) (grow_batch (length descs) max_rows b))).reader
  unfolding on_response on_row
  on_response-row next b x c e f =
      let g : (x.0.messages == 0) ≡ false = ground (arith, e) in ground (arith, c, g, f)

  fetch_loop-rows :
      (xs : List SentRow) (fuel : ℕ) (b : Batch) (vss : List (List Value)) (r : Reader) (status : ℕ)
      (rest : Bytes)
      → 1 ≤ length descs
      → length xs < fuel
      → All (IsSentRow descs) xs
      → status < 2 ^ 32
      → All (IsRow (length descs)) vss
      → Filled (length descs) b vss
      → Holds r (rows_then xs status rest)
      → (r' : Reader) × (fetch_loop descs max_rows null_buf fuel b r
          ≡ some (record {
            failure = none;
            rows = vss ++ map (λ x. x.values) xs;
            eof = status == 100;
            reader = r';
          }))
        × Holds r' rest
  unfolding rows_then
  fetch_loop-rows xs zero b vss r status rest p l w s a f h = absurd (omega arith)
  fetch_loop-rows [] (suc fuel) b vss r status rest p l w s a f h =
      let (e, c, g, h') = response-Holds r status 0 rest s (omega arith) h in
      let x = read_fetch_response (read_opcode r).1 in
      let next = fetch_loop descs max_rows null_buf fuel in
      let rows =
        ap (λ k. slices k (length descs) b.values) f.counted
        ∙ ap (slices (length vss) (length descs)) f.split
        ∙ slices-concat (length descs) vss f.tail a
        ∙ sym (append-nil vss) in
      (
        x.1,
        fetch_loop-response fuel b r e c
            ∙ on_response-end next b x status h'.clear g
            ∙ ap
                (λ y. some (record { failure = none; rows = y; eof = status == 100; reader = x.1 }))
                rows,
        h',
      )
  fetch_loop-rows (y ∷ xs) (suc fuel) b vss r status rest p l ((ws, wm, w0, wb, wr), w) s a f h =
      let n = length descs in
      let others = rows_then xs status rest in
      let (e, c, g, h1) =
        response-Holds r y.status y.messages (y.bitset ++ (y.columns ++ others)) ws wm h in
      let x = read_fetch_response (read_opcode r).1 in
      let b' = grow_batch n max_rows b in
      let (f1, lt) = grow_batch-Filled n max_rows b vss p a f in
      let v : IsRow n y.values =
        length-SendsRow (null_bits y.bitset) 0 descs y.columns y.values wr in
      let (lr, f2) = stored-Filled n b' vss y.values a v lt f1 in
      let (d, q, h2) =
        decode_row-SendsRow x.1 descs null_buf y.bitset y.columns others (next_row n b') y.values lr
          wb wr h1 in
      let m : x.0.messages ≢ 0 = (λ z. w0 (sym (ap (λ (y : FetchResponse). y.messages) g) ∙ z)) in
      let res = decode_row x.1 descs null_buf (next_row n b') in
      let (r', k, h3) =
        fetch_loop-rows xs fuel (stored n b' (y.values ++ drop n (next_row n b')))
          (vss ++ y.values ∷ []) res.reader status rest p (omega arith) w s
          (All-append (IsRow n) vss (y.values ∷ []) a (v, tt)) f2 h2 in
      (
        r',
        fetch_loop-response fuel b r e c
            ∙ on_response-row (fetch_loop descs max_rows null_buf fuel) b x h1.clear m d
            ∙ ap (λ z. fetch_loop descs max_rows null_buf fuel (stored n b' z) res.reader) q
            ∙ k
            ∙ ap (λ z. some (record { failure = none; rows = z; eof = status == 100; reader = r' }))
                (append_assoc vss (y.values ∷ []) (map (λ x. x.values) xs)),
        h3,
      )

-- A fetch of at least one column returns exactly the rows that the server sent, in order, through
-- every growth of the array that they are decoded into and whatever array the caller passes in,
-- with the end of the cursor where the last status is 100, without an error, and stops right
-- behind the last response: one round for each row and one more are enough, if every row is
-- preceded by a response with a message and has the form of its columns, and the stream delivers
-- all its bytes.
pub fetch_rows_reuse-rows :
    (descs : List ColumnDescriptor) (fetch_size : ℕ) (values_buf : List Value) (null_buf : Bytes)
    (xs : List SentRow) (status : ℕ) (rest : Bytes) (fuel : ℕ) (r : Reader)
    → 1 ≤ length descs
    → length xs < fuel
    → All (IsSentRow descs) xs
    → status < 2 ^ 32
    → Holds r (rows_then xs status rest)
    → (r' : Reader) × (fetch_rows_reuse fuel descs fetch_size values_buf null_buf r
        ≡ some (record {
          failure = none;
          rows = map (λ x. x.values) xs;
          eof = status == 100;
          reader = r';
        }))
      × Holds r' rest
unfolding fetch_rows_reuse
fetch_rows_reuse-rows descs fetch_size values_buf null_buf xs status rest fuel r p l w s h =
    let max_rows = if leb (2 ^ 31) fetch_size then 0 else fetch_size in
    fetch_loop-rows descs max_rows null_buf xs fuel (first_batch (length descs) max_rows values_buf)
      [] r status rest p l w s tt (first_batch-Filled (length descs) max_rows values_buf p) h
