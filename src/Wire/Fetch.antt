-- ===== src/Wire/Fetch.antt =====
-- internal/wire/execute.go: the rows of one fetch, with the buffers that are used again.
pub mod Batches
pub mod Rows
use go_firebird_driver.Prelude.{
  ℕ, zero, suc, ◌+◌, ◌-◌, ◌*◌, ◌/◌, ◌^◌, Bool, true, false, ◌&&◌, List, [], ◌∷◌, ◌++◌, Option, none,
  some, length, take, drop, replicate, ltb, leb, ◌==◌, if◌then◌else◌,
}
use go_firebird_driver.Prelude.Bytes.{Bytes}
use go_firebird_driver.Wire.Protocol.{op_fetch_response, op_response}
use go_firebird_driver.Wire.Reader.{ReadError, Reader, read_opcode}
use go_firebird_driver.Wire.Status.{StatusVector, has_error}
use go_firebird_driver.Wire.Response.{
  GenericResponse, FetchResponse, read_fetch_response, read_generic_response,
}
use go_firebird_driver.Wire.Info.{ColumnDescriptor}
use go_firebird_driver.Wire.Row.{Value, null_value, RowError, RowResult, decode_row}

-- The errors of a fetch behind its request.
pub data FetchError : Type 0 where
  fetch_broken : ReadError → FetchError
  fetch_refused : StatusVector → FetchError
  fetch_unexpected : ℕ → FetchError
  no_error_status : FetchError
  row_failed : RowError → FetchError

-- `allValues` up to its capacity, `rowCapacity` and `rowIdx`. Row `i` is the part of `allValues` from `i*numCols` on.
pub record Batch : Type 0 where
  pub values : List Value
  pub capacity : ℕ
  pub count : ℕ

pub record FetchResult : Type 0 where
  pub failure : Option FetchError
  pub rows : List (List Value)
  pub eof : Bool
  pub reader : Reader

abbrev failed : FetchError → Reader → FetchResult
failed e r = record { failure = some e; rows = []; eof = false; reader = r }

-- `fetchServerError`
unfoldable pub fetch_server_error : GenericResponse × Reader → FetchResult
fetch_server_error (resp, r) = elim r.err [
  | some e ↦ failed (fetch_broken e) r
  | none ↦
      if has_error resp.status
      then failed (fetch_refused resp.status) r
      else failed no_error_status r
]

-- The first `k` rows of `n` values each.
unfoldable pub slices : ℕ → ℕ → List Value → List (List Value)
slices zero n values = []
slices (suc k) n values = take n values ∷ slices k n (drop n values)

-- `newCapacity`
unfoldable pub new_capacity : ℕ → ℕ → ℕ → ℕ
new_capacity max_rows capacity count =
    let doubled = if capacity == 0 then 1 else capacity * 2 in
    let bounded = if ltb 0 max_rows && ltb max_rows doubled then max_rows else doubled in
    if leb bounded count then count + 1 else bounded

-- Another array, with a copy of the rows, where there is no room for one more.
unfoldable pub grow_batch : ℕ → ℕ → Batch → Batch
grow_batch n max_rows b =
    let c = new_capacity max_rows b.capacity b.count in
    if ltb 0 n && leb b.capacity b.count
    then record b {
      values = take (b.count * n) b.values ++ replicate (c * n - b.count * n) null_value;
      capacity = c;
    }
    else b

-- The row that is decoded into, and the array behind that.
abbrev pub next_row : ℕ → Batch → List Value
next_row n b = take n (drop (b.count * n) b.values)

unfoldable pub stored : ℕ → Batch → List Value → Batch
stored n b row = record b {
  values = take (b.count * n) b.values ++ (row ++ drop ((b.count + 1) * n) b.values);
  count = b.count + 1;
}

module _ (descs : List ColumnDescriptor) (max_rows : ℕ) (null_buf : Bytes) where
  -- The end of a round, on the decoded row.
  unfoldable pub on_row :
      (Batch → Reader → Option FetchResult) → Batch → RowResult → Option FetchResult
  on_row next b res = elim res.failure [
    | some e ↦ some (failed (row_failed e) res.reader)
    | none ↦ next (stored (length descs) b res.row) res.reader
  ]

  unfoldable pub on_response :
      (Batch → Reader → Option FetchResult) → Batch → FetchResponse × Reader → Option FetchResult
  on_response next b (resp, r) =
      let b' = grow_batch (length descs) max_rows b in
      let row = on_row next b' (decode_row r descs null_buf (next_row (length descs) b')) in
      elim r.err [
        | some e ↦ some (failed (fetch_broken e) r)
        | none ↦
            if resp.messages == 0
            then some (record {
              failure = none;
              rows = slices b.count (length descs) b.values;
              eof = resp.status == 100;
              reader = r;
            })
            else row
      ]

  unfoldable pub on_opcode :
      (Batch → Reader → Option FetchResult) → Batch → ℕ × Reader → Option FetchResult
  on_opcode next b (op, r) =
      let response = on_response next b (read_fetch_response r) in
      elim r.err [
        | some e ↦ some (failed (fetch_broken e) r)
        | none ↦
            if op == op_fetch_response
            then response
            else if op == op_response
            then some (fetch_server_error (read_generic_response r))
            else some (failed (fetch_unexpected op) r)
      ]

  -- The loop of `FetchRowsReuse`, with fuel.
  unfoldable pub fetch_loop : ℕ → Batch → Reader → Option FetchResult
  fetch_loop zero b r = none
  fetch_loop (suc fuel) b r = on_opcode (fetch_loop fuel) b (read_opcode r)

-- `initialRows`, and the buffers before the first row: the caller's values where they have room.
abbrev pub initial_rows : ℕ → ℕ
initial_rows max_rows = if ltb 8 max_rows then 8 else max_rows

unfoldable pub first_batch : ℕ → ℕ → List Value → Batch
first_batch n max_rows values_buf =
    if n == 0
    then record { values = []; capacity = max_rows; count = 0 }
    else if leb (initial_rows max_rows) (length values_buf / n)
    then record { values = values_buf; capacity = length values_buf / n; count = 0 }
    else record {
      values = replicate (initial_rows max_rows * n) null_value;
      capacity = initial_rows max_rows;
      count = 0;
    }

-- `FetchRowsReuse` behind its request: a negative fetch size, as a bit pattern, counts as zero.
unfoldable pub fetch_rows_reuse :
    ℕ → List ColumnDescriptor → ℕ → List Value → Bytes → Reader → Option FetchResult
fetch_rows_reuse fuel descs fetch_size values_buf null_buf r =
    let max_rows = if leb (2 ^ 31) fetch_size then 0 else fetch_size in
    fetch_loop descs max_rows null_buf fuel (first_batch (length descs) max_rows values_buf) r
