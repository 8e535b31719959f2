-- ===== src/Wire/Writer.antt =====
-- internal/wire/writer.go: the growing XDR writer.
-- A Go int is a plain number here: buffer sizes stay far below 2 ^ 63.
pub mod Buffer
pub mod Contents
use go_firebird_driver.Prelude.{
  ℕ, zero, suc, ◌+◌, ◌-◌, ◌*◌, ◌%◌, ◌/◌, ◌^◌, List, [], ◌∷◌, ◌++◌, length, take, drop, replicate,
  ltb, leb, ◌==◌, Option, none, some, if◌then◌else◌,
}
use go_firebird_driver.Prelude.Bytes.{Bytes, be32, be64}

-- `copy(dst[off:], src)`: what does not fit behind `off` is not copied.
unfoldable pub copy_at : Bytes → ℕ → Bytes → Bytes
copy_at dst off src = take off dst ++ (take (length dst - off) src ++ drop (off + length src) dst)

-- `(4 - l) & 3`
abbrev pub padding : ℕ → ℕ
padding l = (4 - l % 4) % 4

-- `zeroPad[:pad]`
abbrev pub zero_pad : ℕ → Bytes
zero_pad pad = replicate pad 0

abbrev pub default_write_buf_size : ℕ
default_write_buf_size = 32 * 1024

-- `Writer`: the buffered bytes are `buf[:n]`.
pub record Writer : Type 0 where
  pub buf : Bytes
  pub n : ℕ

-- `NewWriter`
pub new_writer : Writer
new_writer = record { buf = replicate default_write_buf_size 0; n = 0 }

-- `ResetWriter`, `Reset`, and the reset in `GetWriter`
pub reset : Writer → Writer
reset w = record w { n = 0 }

-- `for newSize < need { newSize *= 2 }`, with fuel; `need` rounds are enough from a positive size.
pub double_until : ℕ → ℕ → ℕ → ℕ
double_until zero size need = size
double_until (suc fuel) size need =
    let later = double_until fuel (size * 2) need in if ltb size need then later else size

-- `grow`
pub grow : Writer → ℕ → Writer
grow w k =
    if leb (w.n + k) (length w.buf)
    then w
    else (let size = double_until (w.n + k) (length w.buf * 2) (w.n + k) in
        record w { buf = copy_at (replicate size 0) 0 (take w.n w.buf) })

-- `copy(w.buf[w.n:], data)` and `w.n += len(data)`, after `grow` has made room.
pub put : Writer → Bytes → Writer
put w d = record { buf = copy_at w.buf w.n d; n = w.n + length d }

-- `WriteInt32` and `WriteUInt32`: the argument is the bit pattern `uint32(v)`.
pub write_int32 : Writer → ℕ → Writer
write_int32 w v = put (grow w 4) (be32 v)

pub write_uint32 : Writer → ℕ → Writer
write_uint32 w v = put (grow w 4) (be32 v)

-- `WriteInt64`
pub write_int64 : Writer → ℕ → Writer
write_int64 w v = put (grow w 8) (be64 v)

-- `WriteBuffer`
pub write_buffer : Writer → Bytes → Writer
write_buffer w d =
    let l = length d in
    let pad = padding l in put (put (put (grow w (4 + l + pad)) (be32 l)) d) (zero_pad pad)

-- `WriteString`
pub write_string : Writer → Bytes → Writer
write_string w s =
    let l = length s in
    let pad = padding l in put (put (put (grow w (4 + l + pad)) (be32 l)) s) (zero_pad pad)

-- `WriteOpaque`: the caller ensures that `data` has `k` bytes.
pub write_opaque : Writer → Bytes → ℕ → Writer
write_opaque w d k = let pad = padding k in put (put (grow w (k + pad)) (take k d)) (zero_pad pad)

-- `WriteRaw`
pub write_raw : Writer → Bytes → Writer
write_raw w d = put (grow w (length d)) d

-- `Flush`: what is handed to the underlying writer, `none` if nothing is buffered, and the new state.
-- The position is reset whether or not that write fails.
pub flush : Writer → Option Bytes × Writer
flush w = if w.n == 0 then (none, w) else (some (take w.n w.buf), record w { n = 0 })

-- `Len` and `Bytes`
pub len : Writer → ℕ
len w = w.n

pub bytes : Writer → Bytes
bytes w = take w.n w.buf
