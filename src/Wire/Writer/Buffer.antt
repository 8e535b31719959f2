-- ===== src/Wire/Writer/Buffer.antt =====
-- The buffer underneath the writer: what `copy` leaves, and how `grow` makes room.
use go_firebird_driver.Prelude.{
  ℕ, zero, suc, ◌+◌, ◌-◌, ◌*◌, ◌≤◌, ◌<◌, ◌≡◌, refl, ◌∙◌, ◌++◌, arith, append_assoc, length,
  length-append, take, drop, take_left, length-take, length-drop, length-replicate, take_all,
  replicate, leb, Bool-cases, inl, inr, leb→le,
}
use go_firebird_driver.Prelude.Bytes.{Bytes}
use go_firebird_driver.Wire.Writer.{copy_at, Writer, double_until, grow, put, bytes}

-- The buffer is not empty and holds all that was written.
pub record IsValid (w : Writer) : Type 0 where
  pub within : w.n ≤ length w.buf
  pub nonempty : 0 < length w.buf

copy_at_fits :
    (dst : Bytes) (off : ℕ) (src : Bytes)
    → off + length src ≤ length dst
    → copy_at dst off src ≡ take off dst ++ (src ++ drop (off + length src) dst)
unfolding copy_at
copy_at_fits dst off src h = rw (take_all (length dst - off) src (omega arith))

pub length-copy_at :
    (dst : Bytes) (off : ℕ) (src : Bytes)
    → off + length src ≤ length dst
    → length (copy_at dst off src) ≡ length dst
length-copy_at dst off src h =
    let rest = drop (off + length src) dst in
    rw (copy_at_fits dst off src h) (
      omega (
        arith,
        length-append (take off dst) (src ++ rest),
        length-append src rest,
        length-take off dst,
        length-drop (off + length src) dst,
      ))

-- After a copy that fits, the bytes up to its end are the old ones before `off` and then the copied.
pub take-copy_at :
    (dst : Bytes) (off : ℕ) (src : Bytes)
    → off + length src ≤ length dst
    → take (off + length src) (copy_at dst off src) ≡ take off dst ++ src
take-copy_at dst off src h =
    let front = take off dst in
    rw (copy_at_fits dst off src h, ← append_assoc)
      (take_left (off + length src) (front ++ src) (drop (off + length src) dst)
        (omega (arith, length-append front src, length-take off dst)))

pub double_until-ge :
    (fuel size need : ℕ) → 0 < size → need ≤ size + fuel → need ≤ double_until fuel size need
unfolding double_until
double_until-ge zero size need h k = omega arith
double_until-ge (suc fuel) size need h k = ground (arith, double_until-ge fuel (size * 2) need)

-- The larger buffer that `grow` fills with what was written.
moved : (w : Writer) (size : ℕ) → Bytes
moved w size = copy_at (replicate size 0) 0 (take w.n w.buf)

moved_lem :
    (w : Writer) (size : ℕ)
    → w.n ≤ length w.buf
    → w.n ≤ size
    → (length (moved w size) ≡ size) × (take w.n (moved w size) ≡ take w.n w.buf)
unfolding moved
moved_lem w size h k =
    let front = take w.n w.buf in
    let blank : Bytes = replicate size 0 in
    let l : length front ≡ w.n = omega (arith, length-take w.n w.buf) in
    let z : length blank ≡ size = length-replicate size 0 in
    let e : 0 + length front ≡ w.n = omega arith in
    (
      length-copy_at blank 0 front (omega arith) ∙ z,
      rw e at (take-copy_at blank 0 front (omega arith)),
    )

-- `grow` makes room for `k` more bytes and keeps what was written, on every valid writer.
pub grow_lem :
    (w : Writer) (k : ℕ)
    → IsValid w
    → IsValid (grow w k)
      × ((grow w k).n ≡ w.n)
      × (w.n + k ≤ length (grow w k).buf)
      × (bytes (grow w k) ≡ bytes w)
unfolding grow bytes moved
grow_lem w k v = elim (Bool-cases (leb (w.n + k) (length w.buf))) [
  | inl fits ↦ rw fits (v, refl, leb→le _ _ fits, refl)
  | inr full ↦
      let need = w.n + k in
      let size = double_until need (length w.buf * 2) need in
      let big =
        double_until-ge need (length w.buf * 2) need (omega (arith, v.nonempty)) (omega arith) in
      let (l, t) = moved_lem w size v.within (omega arith) in
      let pos : 0 < size = ground arith in
      rw full (record { within = omega arith; nonempty = omega arith }, refl, omega arith, t)
]

-- Once there is room, the bytes put are behind those written before.
pub put_lem :
    (w : Writer) (d : Bytes)
    → IsValid w
    → w.n + length d ≤ length w.buf
    → IsValid (put w d) × (bytes (put w d) ≡ bytes w ++ d) × (length (put w d).buf ≡ length w.buf)
unfolding put bytes
put_lem w d v h =
    let l = length-copy_at w.buf w.n d h in
    (
      record { within = omega arith; nonempty = omega (arith, v.nonempty) },
      take-copy_at w.buf w.n d h,
      l,
    )
