-- ===== src/Wire/Reader/Faults.antt =====
-- The reader once something is wrong: an error stays, and bytes that arrive with one are lost.
use go_firebird_driver.Prelude.{
  ℕ, zero, suc, ◌+◌, ◌-◌, ◌≤◌, ◌<◌, ◌≡◌, refl, true, false, [], ◌∷◌, none, some, arith, length,
  length-replicate, ltb, leb, ◌==◌,
}
use go_firebird_driver.Wire.Writer.{padding}
use go_firebird_driver.Wire.Reader.Window.{ensure-clear}
use go_firebird_driver.Prelude.Bytes.{Bytes}
use go_firebird_driver.Wire.Reader.{
  ReadError, unexpected_eof, Event, Source, read, default_read_buf_size, Reader, new_reader,
  make_room, after_read, fill, ensure, read_view, read_full, read_int32, read_uint32, read_int64,
  read_buffer, read_string, read_opaque, read_opcode, opcode_loop,
}

view_after_error :
    (r : Reader) (e : ReadError) (n : ℕ) → r.err ≡ some e → 0 < n → read_view r n ≡ ([], r)
unfolding read_view ensure
view_after_error r e n h p = ground arith

-- Once an error is recorded, every read, of at least one byte where it has a size, answers zero
-- or nothing and leaves the reader as it is.
pub reads_after_error :
    (r : Reader) (e : ReadError) (n : ℕ)
    → r.err ≡ some e
    → 0 < n
    → (read_view r n ≡ ([], r))
      × (read_full r n ≡ ([], r))
      × (read_int32 r ≡ (0, r))
      × (read_uint32 r ≡ (0, r))
      × (read_int64 r ≡ (0, r))
      × (read_buffer r ≡ ([], r))
      × (read_string r ≡ ([], r))
      × (read_opaque r n ≡ ([], r))
      × (read_opcode r ≡ (0, r))
unfolding read_full read_int32 read_uint32 read_int64 read_buffer read_string read_opaque
    read_opcode opcode_loop
reads_after_error r e n h p =
    let v4 = view_after_error r e 4 h (omega arith) in
    let v8 = view_after_error r e 8 h (omega arith) in
    let vn = view_after_error r e n h p in
    let vp = view_after_error r e (n + padding n) h (omega arith) in
    (
      vn,
      ground (arith, vn),
      ground (arith, v4),
      ground (arith, v4),
      ground (arith, v8),
      ground (arith, v4),
      ground (arith, v4),
      ground (arith, vp),
      ground (arith, v4),
    )

-- The answer that carries `d` and io.EOF at once.
abbrev pub with_eof : Bytes → Event
with_eof d = record { sent = d; failure = some none }

read-with_eof :
    (s : Source) (d : Bytes) (k : ℕ)
    → s ≡ with_eof d ∷ []
    → length d ≤ k
    → (read s k).failure ≡ some none
unfolding read
read-with_eof s d k e h = rw e (ground arith)

fill-with_eof :
    (n : ℕ) (r : Reader) (d : Bytes)
    → r.rd ≡ with_eof d ∷ []
    → length d ≤ length r.buf - r.end
    → r.end - r.start < n
    → ((fill n r n).0 ≡ false) × ((fill n r n).1.err ≡ some unexpected_eof)
unfolding fill after_read
fill-with_eof zero r d e h p = absurd (omega arith)
fill-with_eof (suc n) r d e h p =
    let short : ltb (r.end - r.start) (suc n) ≡ true = ground arith in
    let failed = read-with_eof r.rd d (length r.buf - r.end) e h in
    rw (short, failed) (refl, rw failed refl)

make_room_fresh :
    (r : Reader) (n : ℕ)
    → r.start ≡ 0
    → r.end ≡ 0
    → n ≤ length r.buf
    → make_room r n ≡ record r { start = 0; end = 0 }
unfolding make_room
make_room_fresh r n s e h = ground arith

view_with_eof :
    (r : Reader) (d : Bytes)
    → r.err ≡ none
    → r.start ≡ 0
    → r.end ≡ 0
    → r.rd ≡ with_eof d ∷ []
    → 0 < length d
    → length d ≤ length r.buf
    → ((read_view r (length d)).0 ≡ []) × ((read_view r (length d)).1.err ≡ some unexpected_eof)
unfolding read_view
view_with_eof r d c s e w p h =
    let n = length d in
    let asked : (n == 0) ≡ false = ground arith in
    let away : leb n (r.end - r.start) ≡ false = ground arith in
    let (f, x) =
      fill-with_eof n (record r { start = 0; end = 0 }) d w (omega arith) (omega arith) in
    rw (asked, ensure-clear r n c, away, make_room_fresh r n s e h, f) (refl, x)

-- Bytes, at least one and no more than a new reader's window has room for, that come together
-- with io.EOF in its first answer are not delivered: a view of exactly these bytes fails with
-- io.ErrUnexpectedEOF, although the stream held all of them.
pub read_view-with_eof :
    (d : Bytes)
    → 0 < length d
    → length d ≤ default_read_buf_size
    → ((read_view (new_reader (with_eof d ∷ [])) (length d)).0 ≡ [])
      × ((read_view (new_reader (with_eof d ∷ [])) (length d)).1.err ≡ some unexpected_eof)
unfolding new_reader
read_view-with_eof d p h =
    view_with_eof (new_reader (with_eof d ∷ [])) d refl refl refl refl p
      (omega (arith, length-replicate {A = ℕ} default_read_buf_size 0))
