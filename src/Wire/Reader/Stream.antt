-- ===== src/Wire/Reader/Stream.antt =====
-- The reads that the rest of the package makes, against the plain list of bytes still to come: how the
-- stream is cut into answers, and how the window moves, cannot be seen.
use go_firebird_driver.Prelude.{
  ℕ, zero, suc, ◌+◌, ◌-◌, ◌^◌, ◌≤◌, ◌<◌, ◌≡◌, refl, sym, ◌∙◌, ap, true, false, [], ◌∷◌, ◌++◌, none,
  some, arith, length, length-append, take, drop, take_left, drop_left, length-replicate, ltb, ◌==◌,
  Bool-cases, inl, inr, take-append_le, drop-append_le, drop-drop,
}
use go_firebird_driver.Prelude.Bytes.{Bytes, be32, be64}
use go_firebird_driver.Wire.Writer.{padding, zero_pad}
use go_firebird_driver.Wire.Writer.Contents.{padded}
use go_firebird_driver.Wire.Reader.{
  unexpected_eof, Reader, slice, ensure, read_view, peek_bytes, advance, pending, sent_bytes,
  unsigned_length, uint32_be, uint64_be, read_int32, read_uint32, read_int64, read_buffer,
  read_sized, read_string, max_wire_buffer_len, too_long,
}
use go_firebird_driver.Wire.Reader.Filling.{Holds, length-slice}
use go_firebird_driver.Wire.Reader.Window.{ensure_enough, ensure_short}

take-take : (n m : ℕ) (bs : Bytes) → n ≤ m → take n bs ≡ take n (take m bs)
take-take zero m bs h = refl
take-take (suc n) zero bs h = absurd (omega arith)
take-take (suc n) (suc m) [] h = refl
take-take (suc n) (suc m) (b ∷ bs) h = ap (◌∷◌ b) (take-take n m bs (omega arith))

drop-take : (n m : ℕ) (bs : Bytes) → drop n (take m bs) ≡ take (m - n) (drop n bs)
drop-take zero m bs = let e : m ≡ m - 0 = omega arith in ap (λ (k : ℕ). take k bs) e
drop-take (suc n) zero bs = let e : 0 ≡ 0 - suc n = omega arith in rw (← e)
drop-take (suc n) (suc m) [] = sym (take_nil (suc m - suc n))
  where
    take_nil : (k : ℕ) → take {A = ℕ} k [] ≡ []
    take_nil zero = refl
    take_nil (suc k) = refl
drop-take (suc n) (suc m) (b ∷ bs) =
    let e : m - n ≡ suc m - suc n = omega arith in
    drop-take n m bs ∙ ap (λ (k : ℕ). take k (drop n bs)) e

slice-drop : (bs : Bytes) (a b n : ℕ) → slice bs (a + n) b ≡ drop n (slice bs a b)
slice-drop bs a b n =
    let e : b - (a + n) ≡ b - a - n = omega arith in
    ap (λ (k : ℕ). take k (drop (a + n) bs)) e
    ∙ ap (take (b - a - n)) (sym (drop-drop n a bs))
    ∙ sym (drop-take n (b - a) (drop a bs))

-- With `n` bytes in the window, they are the next `n` bytes, and skipping them leaves the others.
window_lem :
    (r : Reader) (bs : Bytes) (n : ℕ)
    → Holds r bs
    → n ≤ r.end - r.start
    → (slice r.buf r.start (r.start + n) ≡ take n bs)
      × Holds (record r { start = r.start + n }) (drop n bs)
window_lem r bs n h k =
    let seen = slice r.buf r.start r.end in
    let n' : r.start + n - r.start ≡ n = omega arith in
    let l = length-slice r.buf r.start r.end h.valid.ordered h.valid.within in
    let front = sym (take-append_le n seen (sent_bytes r.rd) (omega arith)) in
    let back = sym (drop-append_le n seen (sent_bytes r.rd) (omega arith)) in
    (
      ap (λ (k : ℕ). take k (drop r.start r.buf)) n'
          ∙ take-take n (r.end - r.start) (drop r.start r.buf) k
          ∙ front
          ∙ ap (take n) h.left,
      record {
        valid = record { ordered = omega (arith, h.valid.ordered); within = h.valid.within };
        clear = h.clear;
        healthy = h.healthy;
        left =
            ap (λ x. x ++ sent_bytes r.rd) (slice-drop r.buf r.start r.end n)
            ∙ back
            ∙ ap (drop n) h.left;
      },
    )

-- A view of `n` bytes is the next `n` bytes of the stream, and the reader then holds the others.
pub read_view-Holds :
    (r : Reader) (bs : Bytes) (n : ℕ)
    → Holds r bs
    → n ≤ length bs
    → ((read_view r n).0 ≡ take n bs) × Holds (read_view r n).1 (drop n bs)
unfolding read_view
read_view-Holds r bs n h k = elim (Bool-cases (n == 0)) [
  | inl none_asked ↦ let e : n ≡ 0 = ground arith in rw e (refl, h)
  | inr some_asked ↦
      let (t, h', m) = ensure_enough r bs n h k in
      rw (some_asked, t) (window_lem (ensure r n).1 bs n h' m)
]

-- A view of more bytes than the stream has is io.ErrUnexpectedEOF.
pub read_view_short :
    (r : Reader) (bs : Bytes) (n : ℕ)
    → Holds r bs
    → length bs < n
    → ((read_view r n).0 ≡ []) × ((read_view r n).1.err ≡ some unexpected_eof)
unfolding read_view
read_view_short r bs n h k =
    let (f, e) = ensure_short r bs n h k in
    let some_asked : (n == 0) ≡ false = ground arith in rw (some_asked, f) (refl, e)

take-be32 : (v : ℕ) (rest : Bytes) → take 4 (be32 v ++ rest) ≡ be32 v
take-be32 v rest = refl

uint32_be-be32 : (v : ℕ) → v < 2 ^ 32 → uint32_be (be32 v) ≡ v
uint32_be-be32 v h = omega arith

uint64_be-be64 : (v : ℕ) → v < 2 ^ 64 → uint64_be (be64 v) ≡ v
uint64_be-be64 v h = omega arith

-- Each read that finds no error answers by its view.
read_int32-clear :
    (r : Reader)
    → (read_view r 4).1.err ≡ none
    → read_int32 r ≡ (uint32_be (read_view r 4).0, (read_view r 4).1)
unfolding read_int32
read_int32-clear r e = ground arith

read_uint32-clear :
    (r : Reader)
    → (read_view r 4).1.err ≡ none
    → read_uint32 r ≡ (uint32_be (read_view r 4).0, (read_view r 4).1)
unfolding read_uint32
read_uint32-clear r e = ground arith

read_int64-clear :
    (r : Reader)
    → (read_view r 8).1.err ≡ none
    → read_int64 r ≡ (uint64_be (read_view r 8).0, (read_view r 8).1)
unfolding read_int64
read_int64-clear r e = ground arith

read_sized-clear :
    (r : Reader) (l : ℕ)
    → l ≤ max_wire_buffer_len
    → (read_view r (l + padding l)).1.err ≡ none
    → read_sized r l ≡ (take l (read_view r (l + padding l)).0, (read_view r (l + padding l)).1)
unfolding read_sized
read_sized-clear r l h e = ground arith

read_buffer-clear :
    (r : Reader)
    → (read_int32 r).1.err ≡ none
    → read_buffer r ≡ read_sized (read_int32 r).1 (unsigned_length (read_int32 r).0)
unfolding read_buffer
read_buffer-clear r e = ground arith

read_string-clear : (r : Reader) → (read_buffer r).1.err ≡ none → read_string r ≡ read_buffer r
unfolding read_string
read_string-clear r e = ground arith

-- Four bytes of the stream are read as the number that they encode.
pub read_int32-be32 :
    (r : Reader) (v : ℕ) (rest : Bytes)
    → v < 2 ^ 32
    → Holds r (be32 v ++ rest)
    → ((read_int32 r).0 ≡ v) × Holds (read_int32 r).1 rest
read_int32-be32 r v rest b h =
    let (e, h') = read_view-Holds r (be32 v ++ rest) 4 h (omega arith) in
    rw (read_int32-clear r h'.clear) (ap (λ (x : Bytes). uint32_be x) e ∙ uint32_be-be32 v b, h')

pub read_uint32-be32 :
    (r : Reader) (v : ℕ) (rest : Bytes)
    → v < 2 ^ 32
    → Holds r (be32 v ++ rest)
    → ((read_uint32 r).0 ≡ v) × Holds (read_uint32 r).1 rest
read_uint32-be32 r v rest b h =
    let (e, h') = read_view-Holds r (be32 v ++ rest) 4 h (omega arith) in
    rw (read_uint32-clear r h'.clear) (ap (λ (x : Bytes). uint32_be x) e ∙ uint32_be-be32 v b, h')

pub read_int64-be64 :
    (r : Reader) (v : ℕ) (rest : Bytes)
    → v < 2 ^ 64
    → Holds r (be64 v ++ rest)
    → ((read_int64 r).0 ≡ v) × Holds (read_int64 r).1 rest
read_int64-be64 r v rest b h =
    let (e, h') = read_view-Holds r (be64 v ++ rest) 8 h (omega arith) in
    rw (read_int64-clear r h'.clear) (ap (λ (x : Bytes). uint64_be x) e ∙ uint64_be-be64 v b, h')

-- A counted buffer of at most 64 MiB is read back without its padding, which is skipped.
pub read_buffer-padded :
    (r : Reader) (d rest : Bytes)
    → length d ≤ max_wire_buffer_len
    → Holds r (be32 (length d) ++ (padded d ++ rest))
    → ((read_buffer r).0 ≡ d) × Holds (read_buffer r).1 rest
read_buffer-padded r d rest b h =
    let n = length d in
    let (e, h') = read_int32-be32 r n (padded d ++ rest) (omega arith) h in
    let z = zero_pad (padding n) in
    let lz : length z ≡ padding n = length-replicate {A = ℕ} (padding n) 0 in
    let lp : length (padded d) ≡ n + padding n = omega (arith, length-append d z) in
    let fix : unsigned_length (read_int32 r).0 ≡ n =
      ap (λ (x : ℕ). unsigned_length x) e ∙ ground arith in
    let (v, h'') =
      read_view-Holds (read_int32 r).1 (padded d ++ rest) (n + padding n) h'
        (omega (arith, length-append (padded d) rest)) in
    let whole : take (n + padding n) (padded d ++ rest) ≡ padded d =
      take_left (n + padding n) (padded d) rest (sym lp) in
    let others : drop (n + padding n) (padded d ++ rest) ≡ rest =
      drop_left (n + padding n) (padded d) rest (sym lp) in
    rw (read_buffer-clear r h'.clear, fix, read_sized-clear (read_int32 r).1 n b h''.clear)
      (ap (take n) (v ∙ whole) ∙ take_left n d z refl, rw others at h'')

pub read_string-padded :
    (r : Reader) (d rest : Bytes)
    → length d ≤ max_wire_buffer_len
    → Holds r (be32 (length d) ++ (padded d ++ rest))
    → ((read_string r).0 ≡ d) × Holds (read_string r).1 rest
read_string-padded r d rest b h =
    let (e, h') = read_buffer-padded r d rest b h in rw (read_string-clear r h'.clear) (e, h')

-- A length over 64 MiB, once a sign extension is undone, is refused before anything is read for
-- it, whatever the stream holds.
read_buffer-too_long :
    (r : Reader) (v : ℕ) (rest : Bytes)
    → v < 2 ^ 32
    → max_wire_buffer_len < unsigned_length v
    → Holds r (be32 v ++ rest)
    → ((read_buffer r).0 ≡ [])
      × ((read_buffer r).1.err ≡ some (too_long (unsigned_length v)))
      × (pending (read_buffer r).1 ≡ rest)
unfolding read_sized
read_buffer-too_long r v rest b over h =
    let (e, h') = read_int32-be32 r v rest b h in
    let refused : ltb max_wire_buffer_len (unsigned_length v) ≡ true = ground arith in
    rw (read_buffer-clear r h'.clear, e, refused) (refl, refl, h'.left)

-- A peek that finds its bytes shows them and loses none; `advance` then skips them.
pub peek_bytes-Holds :
    (r : Reader) (bs : Bytes) (n : ℕ)
    → Holds r bs
    → n ≤ length bs
    → ((peek_bytes r n).0 ≡ take n bs)
      × Holds (peek_bytes r n).1 bs
      × Holds (advance (peek_bytes r n).1 n) (drop n bs)
unfolding peek_bytes advance
peek_bytes-Holds r bs n h k =
    let (t, h', m) = ensure_enough r bs n h k in
    let (view, skipped) = window_lem (ensure r n).1 bs n h' m in rw t (view, h', skipped)

pub peek_bytes_short :
    (r : Reader) (bs : Bytes) (n : ℕ)
    → Holds r bs
    → length bs < n
    → ((peek_bytes r n).0 ≡ []) × ((peek_bytes r n).1.err ≡ some unexpected_eof)
unfolding peek_bytes
peek_bytes_short r bs n h k = let (f, e) = ensure_short r bs n h k in rw f (refl, e)
