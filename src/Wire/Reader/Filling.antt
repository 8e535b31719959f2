-- ===== src/Wire/Reader/Filling.antt =====
-- Single steps of `ensure`: one answer of the io.Reader, and room for bytes in the window.
use go_firebird_driver.Prelude.{
  ℕ, ◌+◌, ◌-◌, ◌≤◌, ◌<◌, ◌≡◌, refl, sym, ◌∙◌, ap, [], ◌∷◌, ◌++◌, none, arith, append_assoc, length,
  take, drop, length-take, length-drop, length-replicate, replicate, All, ltb, leb, ◌==◌,
  if◌then◌else◌, Bool-cases, inl, inr, leb→le, take-append-drop, ◌&&◌,
}
use go_firebird_driver.Prelude.Bytes.{Bytes}
use go_firebird_driver.Wire.Writer.{copy_at, double_until}
use go_firebird_driver.Wire.Writer.Buffer.{length-copy_at, take-copy_at, double_until-ge}
use go_firebird_driver.Wire.Reader.{
  Event, Source, read, default_read_buf_size, Reader, slice, make_room, sent_bytes, pending,
}

-- An answer with bytes and no error.
abbrev pub IsHealthy : Event → Type 0
IsHealthy e = (0 < length e.sent) × (e.failure ≡ none)

pub record IsValid (r : Reader) : Type 0 where
  pub ordered : r.start ≤ r.end
  pub within : r.end ≤ length r.buf

-- The reader has no error, and `bs` is what it will still deliver before the stream ends.
pub record Holds (r : Reader) (bs : Bytes) : Type 0 where
  pub valid : IsValid r
  pub clear : r.err ≡ none
  pub healthy : All IsHealthy r.rd
  pub left : pending r ≡ bs

-- A read of a healthy script takes at least a byte, and no byte is lost.
pub record Takes (s : Source) (k : ℕ) : Type 0 where
  pub healthy : All IsHealthy (read s k).rest
  pub some_got : 0 < length (read s k).got
  pub fits : length (read s k).got ≤ k
  pub no_failure : (read s k).failure ≡ none
  pub whole : (read s k).got ++ sent_bytes (read s k).rest ≡ sent_bytes s

pub read-Takes :
    (s : Source) (k : ℕ) → All IsHealthy s → 0 < k → 0 < length (sent_bytes s) → Takes s k
unfolding read
read-Takes [] k h p q = absurd (omega arith)
read-Takes (e ∷ es) k h p q = elim (Bool-cases (leb (length e.sent) k)) [
  | inl all ↦ record {
    healthy = rw all h.1;
    some_got = rw all h.0.0;
    fits = rw all (leb→le _ _ all);
    no_failure = rw all h.0.1;
    whole = rw all refl;
  }
  | inr part ↦
      let l = length-take k e.sent in
      let d = length-drop k e.sent in
      let more : k < length e.sent = ground arith in
      record {
        healthy = rw part ((omega arith, h.0.1), h.1);
        some_got = rw part (omega arith);
        fits = rw part (omega arith);
        no_failure = rw part refl;
        whole = rw part (
            sym (append_assoc (take k e.sent) (drop k e.sent) (sent_bytes es))
            ∙ ap (λ x. x ++ sent_bytes es) (take-append-drop k e.sent));
      }
]

pub length-slice : (bs : Bytes) (a b : ℕ) → a ≤ b → b ≤ length bs → length (slice bs a b) ≡ b - a
length-slice bs a b h k = omega (arith, length-take (b - a) (drop a bs), length-drop a bs)

-- What `make_room` sets up: room for `n` bytes from index 0, with the same unread bytes.
pub record Roomy (r r' : Reader) (n : ℕ) : Type 0 where
  pub at_zero : r'.start ≡ 0
  pub within : r'.end ≤ length r'.buf
  pub room : n ≤ length r'.buf
  pub same_window : take r'.end r'.buf ≡ slice r.buf r.start r.end
  pub same_rd : r'.rd ≡ r.rd
  pub same_err : r'.err ≡ r.err

-- The unread bytes copied to the front of a buffer that can take them.
pub moved_front :
    (dst src : Bytes) (k : ℕ)
    → length src ≡ k
    → k ≤ length dst
    → (length (copy_at dst 0 src) ≡ length dst) × (take k (copy_at dst 0 src) ≡ src)
moved_front dst src k e h =
    let e' : 0 + length src ≡ k = omega arith in
    (length-copy_at dst 0 src (omega arith), rw e' at (take-copy_at dst 0 src (omega arith)))

pub slice_zero : (bs : Bytes) (a b : ℕ) → a ≡ 0 → take b bs ≡ slice bs a b
slice_zero bs a b e = let d : b ≡ b - 0 = omega arith in rw e (ap (λ (k : ℕ). take k bs) d)

pub make_room-Roomy :
    (r : Reader) (n : ℕ) → IsValid r → r.end - r.start < n → Roomy r (make_room r n) n
unfolding make_room
make_room-Roomy r n v h =
    let unread = r.end - r.start in
    let seen = slice r.buf r.start r.end in
    let l = length-slice r.buf r.start r.end v.ordered v.within in
    let o = v.ordered in
    let i = v.within in
    elim (Bool-cases (ltb (length r.buf) n)) [
      | inl small ↦
          let first = if length r.buf == 0 then default_read_buf_size else length r.buf in
          let pos : 0 < first = ground arith in
          let size = double_until n first n in
          let big = double_until-ge n first n pos (omega arith) in
          let z = length-replicate {A = ℕ} size 0 in
          let (len, same) = moved_front (replicate size 0) seen unread l (omega arith) in
          rw small (record {
            at_zero = refl;
            within = omega arith;
            room = omega arith;
            same_window = same;
            same_rd = refl;
            same_err = refl;
          })
      | inr large ↦ elim (Bool-cases (ltb 0 unread && ltb 0 r.start)) [
        | inl gap ↦
            let (len, same) = moved_front r.buf seen unread l (omega arith) in
            rw (large, gap)
              (record {
                at_zero = refl;
                within = omega arith;
                room = ground arith;
                same_window = same;
                same_rd = refl;
                same_err = refl;
              })
        | inr tight ↦ elim (Bool-cases (unread == 0)) [
          | inl none_left ↦
              let e : unread ≡ 0 = ground arith in
              rw (large, tight, none_left)
                (record {
                  at_zero = refl;
                  within = omega arith;
                  room = ground arith;
                  same_window = rw e refl;
                  same_rd = refl;
                  same_err = refl;
                })
          | inr some_left ↦
              let e : r.start ≡ 0 = ground arith in
              rw (large, tight, some_left)
                (record {
                  at_zero = e;
                  within = i;
                  room = ground arith;
                  same_window = slice_zero r.buf r.start r.end e;
                  same_rd = refl;
                  same_err = refl;
                })
        ]
      ]
    ]
