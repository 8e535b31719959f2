-- ===== src/Wire/Reader/Window.antt =====
-- `ensure`: whatever way the stream is cut into answers, the window moves over it with no byte lost.
use go_firebird_driver.Prelude.{
  ℕ, zero, suc, ◌+◌, ◌-◌, ◌≤◌, ◌<◌, ◌≡◌, refl, ◌∙◌, ap, true, false, [], ◌∷◌, ◌++◌, none, some,
  arith, append_assoc, length, length-append, take, length-take, All, ltb, leb, if◌then◌else◌,
  Bool-cases, inl, inr, ltb→lt, leb→le,
}
use go_firebird_driver.Prelude.Bytes.{Bytes}
use go_firebird_driver.Wire.Writer.Buffer.{length-copy_at, take-copy_at}
use go_firebird_driver.Wire.Reader.{
  unexpected_eof, Source, read, Reader, slice, make_room, after_read, fill, ensure, sent_bytes,
}
use go_firebird_driver.Wire.Reader.Filling.{
  IsHealthy, Holds, read-Takes, length-slice, slice_zero, make_room-Roomy,
}

-- The state inside the loop: the window starts at index 0 and there is room for `n` bytes.
record Filling (r : Reader) (bs : Bytes) (n : ℕ) : Type 0 where
  at_zero : r.start ≡ 0
  within : r.end ≤ length r.buf
  room : n ≤ length r.buf
  clear : r.err ≡ none
  healthy : All IsHealthy r.rd
  left : take r.end r.buf ++ sent_bytes r.rd ≡ bs

Filling-Holds : (r : Reader) (bs : Bytes) (n : ℕ) → Filling r bs n → Holds r bs
Filling-Holds r bs n f = record {
  valid = record { ordered = omega (arith, f.at_zero); within = f.within };
  clear = f.clear;
  healthy = f.healthy;
  left = rw (← slice_zero r.buf r.start r.end f.at_zero) f.left;
}

after_read-Filling :
    (r : Reader) (bs : Bytes) (n : ℕ)
    → Filling r bs n
    → r.end < n
    → 0 < length (sent_bytes r.rd)
    → Filling (after_read r (read r.rd (length r.buf - r.end))) bs n
      × (r.end < (after_read r (read r.rd (length r.buf - r.end))).end)
unfolding after_read
after_read-Filling r bs n f h k =
    let x = read r.rd (length r.buf - r.end) in
    let t = read-Takes r.rd (length r.buf - r.end) f.healthy (omega (arith, f.room)) k in
    let fit : r.end + length x.got ≤ length r.buf = omega (arith, t.fits, f.room) in
    let got = t.some_got in
    let old = take r.end r.buf in
    (
      record {
        at_zero = f.at_zero;
        within = omega (arith, length-copy_at r.buf r.end x.got fit);
        room = omega (arith, length-copy_at r.buf r.end x.got fit, f.room);
        clear = rw t.no_failure (ground arith);
        healthy = t.healthy;
        left =
            ap (λ y. y ++ sent_bytes x.rest) (take-copy_at r.buf r.end x.got fit)
            ∙ append_assoc old x.got (sent_bytes x.rest)
            ∙ ap (λ y. old ++ y) t.whole
            ∙ f.left;
      },
      omega arith,
    )

-- The loop reaches `n` unread bytes if the stream has them.
fill_enough :
    (fuel : ℕ) (r : Reader) (bs : Bytes) (n : ℕ)
    → Filling r bs n
    → n ≤ r.end + fuel
    → n ≤ length bs
    → ((fill fuel r n).0 ≡ true) × Filling (fill fuel r n).1 bs n × (n ≤ (fill fuel r n).1.end)
unfolding fill
fill_enough zero r bs n f h k =
    let full : ltb (r.end - r.start) n ≡ false = ground (arith, f.at_zero) in
    rw full (refl, f, omega arith)
fill_enough (suc fuel) r bs n f h k = elim (Bool-cases (ltb (r.end - r.start) n)) [
  | inl short ↦
      let low : r.end < n = ground (arith, f.at_zero) in
      let l1 = length-append (take r.end r.buf) (sent_bytes r.rd) in
      let l2 = length-take r.end r.buf in
      let l3 : length (take r.end r.buf ++ sent_bytes r.rd) ≡ length bs = ap length f.left in
      let (f', m) = after_read-Filling r bs n f low (omega arith) in
      let r' = after_read r (read r.rd (length r.buf - r.end)) in
      rw (short, f'.clear) (fill_enough fuel r' bs n f' (omega arith) k)
  | inr full ↦ rw full (refl, f, ground (arith, f.at_zero))
]

sent_bytes-nil : (s : Source) → All IsHealthy s → length (sent_bytes s) ≡ 0 → s ≡ []
sent_bytes-nil [] h e = refl
sent_bytes-nil (x ∷ s) h e = absurd (omega (arith, h.0.0, length-append x.sent (sent_bytes s)))

-- At the end of the stream a read reports it.
after_read_end :
    (r : Reader) (k : ℕ) → r.rd ≡ [] → (after_read r (read r.rd k)).err ≡ some unexpected_eof
unfolding after_read read
after_read_end r k e = rw e refl

-- The loop ends with io.ErrUnexpectedEOF if the stream has fewer than `n` bytes.
fill_short :
    (fuel : ℕ) (r : Reader) (bs : Bytes) (n : ℕ)
    → Filling r bs n
    → n ≤ r.end + fuel
    → length bs < n
    → ((fill fuel r n).0 ≡ false) × ((fill fuel r n).1.err ≡ some unexpected_eof)
unfolding fill
fill_short zero r bs n f h k = absurd (
    omega (
      arith,
      length-append (take r.end r.buf) (sent_bytes r.rd),
      length-take r.end r.buf,
      ap length f.left,
      f.within,
    ))
fill_short (suc fuel) r bs n f h k =
    let low : r.end < n = omega (
      arith,
      length-append (take r.end r.buf) (sent_bytes r.rd),
      length-take r.end r.buf,
      ap length f.left,
      f.within,
    ) in
    let short : ltb (r.end - r.start) n ≡ true = ground (arith, f.at_zero) in
    let r' = after_read r (read r.rd (length r.buf - r.end)) in
    elim (Bool-cases (ltb 0 (length (sent_bytes r.rd)))) [
      | inl more ↦
          let (f', m) = after_read-Filling r bs n f low (ltb→lt _ _ more) in
          rw (short, f'.clear) (fill_short fuel r' bs n f' (omega arith) k)
      | inr done ↦
          let e =
            after_read_end r (length r.buf - r.end)
              (sent_bytes-nil r.rd f.healthy (ground arith)) in
          rw (short, e) (refl, e)
    ]

make_room-Filling :
    (r : Reader) (bs : Bytes) (n : ℕ)
    → Holds r bs
    → r.end - r.start < n
    → Filling (make_room r n) bs n
make_room-Filling r bs n h k =
    let m = make_room-Roomy r n h.valid k in
    record {
      at_zero = m.at_zero;
      within = m.within;
      room = m.room;
      clear = m.same_err ∙ h.clear;
      healthy = rw m.same_rd h.healthy;
      left = rw (m.same_window, m.same_rd) h.left;
    }

pub ensure-clear :
    (r : Reader) (n : ℕ)
    → r.err ≡ none
    → ensure r n ≡ (if leb n (r.end - r.start) then (true, r) else fill n (make_room r n) n)
unfolding ensure
ensure-clear r n e = ground arith

-- `ensure` succeeds if the stream, whose answers have bytes and no error, still has `n` bytes:
-- the window then holds `n` bytes at least, and what the reader will deliver is unchanged.
pub ensure_enough :
    (r : Reader) (bs : Bytes) (n : ℕ)
    → Holds r bs
    → n ≤ length bs
    → ((ensure r n).0 ≡ true)
      × Holds (ensure r n).1 bs
      × (n ≤ (ensure r n).1.end - (ensure r n).1.start)
ensure_enough r bs n h k =
    rw (ensure-clear r n h.clear) (elim (Bool-cases (leb n (r.end - r.start))) [
      | inl here ↦ rw here (refl, h, leb→le _ _ here)
      | inr away ↦
          let f = make_room-Filling r bs n h (ground arith) in
          let (t, f', m) = fill_enough n (make_room r n) bs n f (omega arith) k in
          rw away (t, Filling-Holds _ bs n f', omega (arith, f'.at_zero))
    ])

-- `ensure` fails with io.ErrUnexpectedEOF if the stream, whose answers have bytes and no error,
-- ends before `n` bytes.
pub ensure_short :
    (r : Reader) (bs : Bytes) (n : ℕ)
    → Holds r bs
    → length bs < n
    → ((ensure r n).0 ≡ false) × ((ensure r n).1.err ≡ some unexpected_eof)
ensure_short r bs n h k =
    let w : r.end - r.start < n = omega (
      arith,
      length-append (slice r.buf r.start r.end) (sent_bytes r.rd),
      length-slice r.buf r.start r.end h.valid.ordered h.valid.within,
      ap length h.left,
    ) in
    let away : leb n (r.end - r.start) ≡ false = ground arith in
    rw (ensure-clear r n h.clear, away)
      (fill_short n (make_room r n) bs n (make_room-Filling r bs n h w) (omega arith) k)
