-- ===== src/Wire/Blob/Segments.antt =====
-- Segments as a server packs them, whole or cut short, through `unpackSegments`.
use go_firebird_driver.Prelude.{
  ℕ, zero, suc, ◌+◌, ◌^◌, ◌≤◌, ◌<◌, ◌≡◌, refl, sym, ◌∙◌, ap, List, [], ◌∷◌, ◌++◌, some, false,
  arith, append-nil, append_assoc, length, length-append, length-take, take, take_left, drop_left,
  All, ltb,
}
use go_firebird_driver.Prelude.Bytes.{Bytes, le16, uint16_le, uint16_le-le16}
use go_firebird_driver.Wire.Blob.{unpack_loop, unpack_segments}

-- Two bytes of length, then the segment.
unfoldable pub packed : List Bytes → Bytes
packed [] = []
packed (s ∷ ss) = le16 (length s) ++ (s ++ packed ss)

unfoldable pub joined : List Bytes → Bytes
joined [] = []
joined (s ∷ ss) = s ++ joined ss

abbrev pub IsSegment : Bytes → Type 0
IsSegment s = length s < 2 ^ 16

unpack_loop-segment :
    (fuel : ℕ) (dst s rest : Bytes)
    → IsSegment s
    → unpack_loop (suc fuel) dst (le16 (length s) ++ (s ++ rest)) ≡ unpack_loop fuel (dst ++ s) rest
unfolding unpack_loop
unpack_loop-segment fuel dst s rest h =
    let e : uint16_le (le16 (length s) ++ (s ++ rest)) ≡ length s =
      uint16_le-le16 (length s) (s ++ rest) h in
    let two : ltb (length (le16 (length s) ++ (s ++ rest))) 2 ≡ false = ground arith in
    let whole : ltb (length (s ++ rest)) (length s) ≡ false =
      ground (arith, length-append s rest) in
    rw (e, two, whole, take_left (length s) s rest refl, drop_left (length s) s rest refl) refl

-- The first `k` bytes of a segment, cut off inside its length or its bytes.
unpack_loop-cut :
    (fuel k : ℕ) (dst s : Bytes)
    → IsSegment s
    → k < 2 + length s
    → length (take k (le16 (length s) ++ s)) ≤ fuel
    → unpack_loop fuel dst (take k (le16 (length s) ++ s)) ≡ some dst
unfolding unpack_loop
unpack_loop-cut zero zero dst s h c f = refl
unpack_loop-cut (suc fuel) zero dst s h c f = refl
unpack_loop-cut zero (suc zero) dst s h c f = refl
unpack_loop-cut (suc fuel) (suc zero) dst s h c f = refl
unpack_loop-cut zero (suc (suc k)) dst s h c f = absurd (omega arith)
unpack_loop-cut (suc fuel) (suc (suc k)) dst s h c f =
    let e : uint16_le (le16 (length s) ++ take k s) ≡ length s =
      uint16_le-le16 (length s) (take k s) h in
    rw e (ground (arith, length-take k s))

unpack_loop-packed :
    (ss : List Bytes) (k fuel : ℕ) (dst s : Bytes)
    → All IsSegment ss
    → IsSegment s
    → k < 2 + length s
    → length (packed ss ++ take k (le16 (length s) ++ s)) ≤ fuel
    → unpack_loop fuel dst (packed ss ++ take k (le16 (length s) ++ s)) ≡ some (dst ++ joined ss)
unfolding packed joined
unpack_loop-packed [] k fuel dst s a h c f =
    unpack_loop-cut fuel k dst s h c f ∙ ap some (sym (append-nil dst))
unpack_loop-packed (x ∷ ss) k zero dst s a h c f = absurd (omega arith)
unpack_loop-packed (x ∷ ss) k (suc fuel) dst s a h c f =
    let tail = take k (le16 (length s) ++ s) in
    let same : packed (x ∷ ss) ++ tail ≡ le16 (length x) ++ (x ++ (packed ss ++ tail)) =
      append_assoc (le16 (length x)) (x ++ packed ss) tail
      ∙ ap (λ y. le16 (length x) ++ y) (append_assoc x (packed ss) tail) in
    ap (unpack_loop (suc fuel) dst) same
    ∙ unpack_loop-segment fuel dst x (packed ss ++ tail) a.0
    ∙ unpack_loop-packed ss k fuel (dst ++ x) s a.1 h c
        (omega (arith, ap length same, length-append x (packed ss ++ tail)))
    ∙ ap some (append_assoc dst x (joined ss))

-- Packed segments, each shorter than 2 ^ 16, are appended to `dst` one behind the other, and a
-- further segment that the buffer cuts short, or does not start, adds nothing.
pub unpack_segments-packed :
    (dst : Bytes) (ss : List Bytes) (k : ℕ) (s : Bytes)
    → All IsSegment ss
    → IsSegment s
    → k < 2 + length s
    → unpack_segments dst (packed ss ++ take k (le16 (length s) ++ s)) ≡ some (dst ++ joined ss)
unfolding unpack_segments
unpack_segments-packed dst ss k s a h c =
    unpack_loop-packed ss k (length (packed ss ++ take k (le16 (length s) ++ s))) dst s a h c
      (omega arith)
