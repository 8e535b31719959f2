-- ===== src/Wire/Reader.antt =====
-- internal/wire/reader.go: the XDR reader, a sliding window over what an io.Reader delivers.
-- The io.Reader is a script of the answers that its `Read` calls can draw on.
pub mod Filling
pub mod Window
pub mod Stream
pub mod Decode
pub mod Faults
use go_firebird_driver.Prelude.{
  ℕ, zero, suc, ◌+◌, ◌-◌, ◌*◌, ◌/◌, ◌%◌, ◌^◌, Bool, true, false, List, [], ◌∷◌, ◌++◌, Option, none,
  some, length, take, drop, replicate, ltb, leb, ◌==◌, if◌then◌else◌, ◌&&◌,
}
use go_firebird_driver.Prelude.Bytes.{Bytes, at}
use go_firebird_driver.Wire.Protocol.{op_dummy}
use go_firebird_driver.Wire.Writer.{copy_at, padding, double_until}

-- What the reader reports. `out_of_fuel` is no Go value: a loop of the model ran out of fuel.
pub data ReadError : Type 0 where
  unexpected_eof no_progress out_of_fuel : ReadError
  transport : ℕ → ReadError
  too_long : ℕ → ReadError

-- One answer of the io.Reader: bytes, and the error that comes with the last of them, if any.
-- `none` in `failure` stands for a nil error, `some none` for io.EOF.
pub record Event : Type 0 where
  pub sent : Bytes
  pub failure : Option (Option ℕ)

abbrev pub Source : Type 0
Source = List Event

-- The outcome of one `rd.Read(p)`.
pub record Read : Type 0 where
  pub got : Bytes
  pub failure : Option (Option ℕ)
  pub rest : Source

-- `rd.Read(p)` with `len(p) = k`. An answer longer than `p` is handed out in parts, its error with the
-- last; behind the script there is io.EOF.
pub read : Source → ℕ → Read
read [] k = record { got = []; failure = some none; rest = [] }
read (e ∷ es) k =
    if leb (length e.sent) k
    then record { got = e.sent; failure = e.failure; rest = es }
    else record {
      got = take k e.sent;
      failure = none;
      rest = record e { sent = drop k e.sent } ∷ es;
    }

abbrev pub default_read_buf_size : ℕ
default_read_buf_size = 16 * 1024

abbrev pub max_wire_buffer_len : ℕ
max_wire_buffer_len = 64 * 1024 * 1024

-- `Reader`, without `auxBuf` (a reused copy of response data).
pub record Reader : Type 0 where
  pub rd : Source
  pub err : Option ReadError
  pub buf : Bytes
  pub start : ℕ
  pub end : ℕ

-- `NewReader`
pub new_reader : Source → Reader
new_reader rd = record {
  rd = rd;
  err = none;
  buf = replicate default_read_buf_size 0;
  start = 0;
  end = 0;
}

-- `ResetErr`
pub reset_err : Reader → Reader
reset_err r = record r { err = none }

-- `Reset`
pub reset : Reader → Source → Reader
reset r rd = record r { rd = rd; err = none; start = 0; end = 0 }

-- `buf[a:b]`
abbrev pub slice : Bytes → ℕ → ℕ → Bytes
slice bs a b = take (b - a) (drop a bs)

-- The part of `ensure` before its loop: grow, compact or restart the window for `n` bytes.
pub make_room : Reader → ℕ → Reader
make_room r n =
    let unread = r.end - r.start in
    if ltb (length r.buf) n
    then (let first = if length r.buf == 0 then default_read_buf_size else length r.buf in
        let size = double_until n first n in
        record r {
          buf = copy_at (replicate size 0) 0 (slice r.buf r.start r.end);
          start = 0;
          end = unread;
        })
    else if ltb 0 unread && ltb 0 r.start
    then record r { buf = copy_at r.buf 0 (slice r.buf r.start r.end); start = 0; end = unread }
    else if unread == 0
    then record r { start = 0; end = 0 }
    else r

-- `if err == io.EOF { err = io.ErrUnexpectedEOF }`
abbrev pub as_error : Option ℕ → ReadError
as_error none = unexpected_eof
as_error (some e) = transport e

-- The state after one `Read` into `buf[end:]`, with its error or the lack of progress recorded.
pub after_read : Reader → Read → Reader
after_read r x = record r {
  rd = x.rest;
  buf = copy_at r.buf r.end x.got;
  end = r.end + length x.got;
  err = elim x.failure [
    | some e ↦ some (as_error e)
    | none ↦ if length x.got == 0 then some no_progress else none
  ];
}

-- The loop of `ensure`, with fuel.
pub fill : ℕ → Reader → ℕ → Bool × Reader
fill zero r n =
    if ltb (r.end - r.start) n then (false, record r { err = some out_of_fuel }) else (true, r)
fill (suc fuel) r n =
    let r' = after_read r (read r.rd (length r.buf - r.end)) in
    let later = fill fuel r' n in
    if ltb (r.end - r.start) n
    then elim r'.err [ some e ↦ (false, r') | none ↦ later ]
    else (true, r)

-- `ensure`: each round of the loop reads a byte at least, so `n` rounds are enough.
pub ensure : Reader → ℕ → Bool × Reader
ensure r n = elim r.err [
  | some e ↦ (false, r)
  | none ↦ if leb n (r.end - r.start) then (true, r) else fill n (make_room r n) n
]

-- `readView`: a nil slice is the empty list.
pub read_view : Reader → ℕ → Bytes × Reader
read_view r n =
    if n == 0
    then ([], r)
    else (let (ok, r') = ensure r n in
        if ok
        then (slice r'.buf r'.start (r'.start + n), record r' { start = r'.start + n })
        else ([], r'))

-- `readFull`, as the bytes that are copied to the front of the caller's buffer of `n` bytes.
unfoldable pub read_full : Reader → ℕ → Bytes × Reader
read_full r n = if n == 0 then ([], r) else elim r.err [ some e ↦ ([], r) | none ↦ read_view r n ]

-- `peekBytes` and `advance`
pub peek_bytes : Reader → ℕ → Bytes × Reader
peek_bytes r n =
    let (ok, r') = ensure r n in if ok then (slice r'.buf r'.start (r'.start + n), r') else ([], r')

pub advance : Reader → ℕ → Reader
advance r n = record r { start = r.start + n }

-- The big-endian number in the first `k` bytes of a view.
abbrev pub uint32_be : Bytes → ℕ
uint32_be b = at b 0 * 2 ^ 24 + at b 1 * 2 ^ 16 + at b 2 * 2 ^ 8 + at b 3

abbrev pub uint64_be : Bytes → ℕ
uint64_be b =
    at b 0 * 2 ^ 56
    + at b 1 * 2 ^ 48
    + at b 2 * 2 ^ 40
    + at b 3 * 2 ^ 32
    + at b 4 * 2 ^ 24
    + at b 5 * 2 ^ 16
    + at b 6 * 2 ^ 8
    + at b 7

-- `ReadInt32` and `ReadUInt32`: the result is the bit pattern.
pub read_int32 : Reader → ℕ × Reader
read_int32 r =
    let (b, r') = read_view r 4 in elim r'.err [ some e ↦ (0, r') | none ↦ (uint32_be b, r') ]

pub read_uint32 : Reader → ℕ × Reader
read_uint32 r =
    let (b, r') = read_view r 4 in elim r'.err [ some e ↦ (0, r') | none ↦ (uint32_be b, r') ]

-- `ReadInt64`
pub read_int64 : Reader → ℕ × Reader
read_int64 r =
    let (b, r') = read_view r 8 in elim r'.err [ some e ↦ (0, r') | none ↦ (uint64_be b, r') ]

-- `if ulen>>16 == 0xFFFF { ulen &= 0xFFFF }`
abbrev pub unsigned_length : ℕ → ℕ
unsigned_length u = if u / 2 ^ 16 == 0xffff then u % 2 ^ 16 else u

-- `ReadBuffer` behind its length; `length < 0` cannot hold of a 64-bit int made from a uint32.
pub read_sized : Reader → ℕ → Bytes × Reader
read_sized r l =
    if ltb max_wire_buffer_len l
    then ([], record r { err = some (too_long l) })
    else (let (d, r') = read_view r (l + padding l) in
        elim r'.err [ some e ↦ ([], r') | none ↦ (take l d, r') ])

-- `ReadBuffer`
pub read_buffer : Reader → Bytes × Reader
read_buffer r =
    let (raw, r') = read_int32 r in
    elim r'.err [ some e ↦ ([], r') | none ↦ read_sized r' (unsigned_length raw) ]

-- `ReadString`
pub read_string : Reader → Bytes × Reader
read_string r = let (b, r') = read_buffer r in elim r'.err [ some e ↦ ([], r') | none ↦ (b, r') ]

-- `ReadOpaque`, as the bytes that are copied to the caller's buffer.
pub read_opaque : Reader → ℕ → Bytes × Reader
read_opaque r n =
    let (v, r') = read_view r (n + padding n) in
    elim r'.err [ some e ↦ ([], r') | none ↦ (take n v, r') ]

-- `skipPadding` and `SkipPadding`
pub skip_padding : Reader → ℕ → Reader
skip_padding r n = if ltb 0 (padding n) then (read_view r (padding n)).1 else r

-- All bytes that a script can still deliver.
abbrev pub sent_bytes : Source → Bytes
sent_bytes [] = []
sent_bytes (e ∷ es) = e.sent ++ sent_bytes es

-- The bytes not read yet: those in the window, and those of the script.
abbrev pub pending : Reader → Bytes
pending r = slice r.buf r.start r.end ++ sent_bytes r.rd

-- The loop of `ReadOpcode`, with fuel.
pub opcode_loop : ℕ → Reader → ℕ × Reader
opcode_loop zero r = (0, record r { err = some out_of_fuel })
opcode_loop (suc fuel) r =
    let (op, r') = read_int32 r in
    let later = opcode_loop fuel r' in
    elim r'.err [ some e ↦ (op, r') | none ↦ if op == op_dummy then later else (op, r') ]

-- `ReadOpcode`: each keep-alive takes four bytes, so the bytes pending bound the rounds.
pub read_opcode : Reader → ℕ × Reader
read_opcode r = opcode_loop (suc (length (pending r))) r
