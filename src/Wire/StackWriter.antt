-- ===== src/Wire/StackWriter.antt =====
-- internal/wire/writer.go: `StackWriter`, which encodes into an array of 1024 bytes and records in a
-- flag that a write did not fit.
pub mod Fits
use go_firebird_driver.Prelude.{
  ℕ, ◌+◌, Bool, true, false, List, [], ◌∷◌, length, take, replicate, ltb, if◌then◌else◌,
}
use go_firebird_driver.Prelude.Bytes.{Bytes, be32, be64}
use go_firebird_driver.Wire.Writer.{copy_at, padding, zero_pad}

pub record StackWriter : Type 0 where
  pub buf : Bytes
  pub n : ℕ
  pub overflow : Bool

abbrev pub stack_size : ℕ
stack_size = 1024

-- `var sw StackWriter`
pub new_stack_writer : StackWriter
new_stack_writer = record { buf = replicate stack_size 0; n = 0; overflow = false }

-- `Reset`
pub reset : StackWriter → StackWriter
reset w = record w { n = 0; overflow = false }

-- `Overflowed`
pub overflowed : StackWriter → Bool
overflowed w = w.overflow

-- `copy(w.buf[w.n:], data)` and `w.n += len(data)`, behind the check that the bytes fit.
pub put : StackWriter → Bytes → StackWriter
put w d = record w { buf = copy_at w.buf w.n d; n = w.n + length d }

-- `WriteInt32`: the argument is the bit pattern `uint32(v)`.
pub write_int32 : StackWriter → ℕ → StackWriter
write_int32 w v =
    if ltb (length w.buf) (w.n + 4) then record w { overflow = true } else put w (be32 v)

-- `WriteUInt32`
pub write_uint32 : StackWriter → ℕ → StackWriter
write_uint32 w v =
    if ltb (length w.buf) (w.n + 4) then record w { overflow = true } else put w (be32 v)

-- `WriteInt64`
pub write_int64 : StackWriter → ℕ → StackWriter
write_int64 w v =
    if ltb (length w.buf) (w.n + 8) then record w { overflow = true } else put w (be64 v)

-- `WriteBuffer`
pub write_buffer : StackWriter → Bytes → StackWriter
write_buffer w d =
    let l = length d in
    let pad = padding l in
    if ltb (length w.buf) (w.n + 4 + l + pad)
    then record w { overflow = true }
    else put (put (put w (be32 l)) d) (zero_pad pad)

-- `WriteString`
pub write_string : StackWriter → Bytes → StackWriter
write_string w s =
    let l = length s in
    let pad = padding l in
    if ltb (length w.buf) (w.n + 4 + l + pad)
    then record w { overflow = true }
    else put (put (put w (be32 l)) s) (zero_pad pad)

-- `Bytes`
pub bytes : StackWriter → Bytes
bytes w = take w.n w.buf
