-- ===== src/Wire/Writer/Contents.antt =====
-- What the writer's operations append, as an encoding of abstract items, and that a sequence of them
-- yields the concatenated encodings whatever the buffer did on the way.
use go_firebird_driver.Prelude.{
  ℕ, ◌+◌, ◌≤◌, ◌<◌, ◌≡◌, refl, sym, ◌∙◌, ap, List, [], ◌∷◌, ◌++◌, some, arith, false, ◌==◌,
  append-nil, append_assoc, length, take, length-take, length-replicate, All, ◌-◌,
}
use go_firebird_driver.Prelude.Bytes.{Bytes, be32, be64}
use go_firebird_driver.Wire.Writer.{
  default_write_buf_size, padding, zero_pad, Writer, new_writer, flush, grow, put, write_int32,
  write_uint32, write_int64, write_buffer, write_string, write_opaque, write_raw, bytes,
}
use go_firebird_driver.Wire.Writer.Buffer.{IsValid, grow_lem, put_lem}

-- What a client writes.
pub data Item : Type 0 where
  int32 : ℕ → Item
  uint32 : ℕ → Item
  int64 : ℕ → Item
  buffer : Bytes → Item
  string : Bytes → Item
  opaque : Bytes → ℕ → Item
  raw : Bytes → Item

pub write : Item → Writer → Writer
write (int32 v) w = write_int32 w v
write (uint32 v) w = write_uint32 w v
write (int64 v) w = write_int64 w v
write (buffer d) w = write_buffer w d
write (string s) w = write_string w s
write (opaque d k) w = write_opaque w d k
write (raw d) w = write_raw w d

pub write_all : List Item → Writer → Writer
write_all [] w = w
write_all (i ∷ is) w = write_all is (write i w)

-- XDR: four-byte units, highest byte first; variable data behind its length, filled up with zeros.
abbrev pub padded : Bytes → Bytes
padded d = d ++ zero_pad (padding (length d))

abbrev pub encoded : Item → Bytes
encoded (int32 v) = be32 v
encoded (uint32 v) = be32 v
encoded (int64 v) = be64 v
encoded (buffer d) = be32 (length d) ++ padded d
encoded (string s) = be32 (length s) ++ padded s
encoded (opaque d k) = take k d ++ zero_pad (padding k)
encoded (raw d) = d

unfoldable pub encoded_all : List Item → Bytes
encoded_all [] = []
encoded_all (i ∷ is) = encoded i ++ encoded_all is

-- `WriteOpaque` asks for enough data.
abbrev pub IsWritable : Item → Type 0
IsWritable (opaque d k) = k ≤ length d
IsWritable _ = Unit {0}

-- A valid writer that still has room for `j` bytes, and holds `old`.
record HasRoom (w : Writer) (old : Bytes) (j : ℕ) : Type 0 where
  valid : IsValid w
  room : w.n + j ≤ length w.buf
  holds : bytes w ≡ old

grow-HasRoom : (w : Writer) (k : ℕ) → IsValid w → HasRoom (grow w k) (bytes w) k
grow-HasRoom w k v =
    let (v', n', room, same) = grow_lem w k v in
    record { valid = v'; room = omega arith; holds = same }

put-HasRoom :
    (w : Writer) (old : Bytes) (j : ℕ) (d : Bytes)
    → HasRoom w old j
    → length d ≤ j
    → HasRoom (put w d) (old ++ d) (j - length d)
put-HasRoom w old j d r h =
    let (v, b, l) = put_lem w d r.valid (omega (arith, r.room)) in
    let n' : (put w d).n ≡ w.n + length d = unfold put in refl in
    record { valid = v; room = omega (arith, r.room); holds = b ∙ ap (λ x. x ++ d) r.holds }

-- What every operation guarantees: a valid writer that holds `d` behind the bytes before.
abbrev Appends : Writer → Writer → Bytes → Type 0
Appends w w' d = IsValid w' × (bytes w' ≡ bytes w ++ d)

put_one : (w : Writer) (d : Bytes) → IsValid w → Appends w (put (grow w (length d)) d) d
put_one w d v =
    let r = put-HasRoom _ _ _ d (grow-HasRoom w (length d) v) (omega arith) in (r.valid, r.holds)

put-padded :
    (w : Writer) (d : Bytes) (k : ℕ)
    → IsValid w
    → k ≡ length d + padding (length d)
    → Appends w (put (put (grow w k) d) (zero_pad (padding (length d)))) (padded d)
put-padded w d k v e =
    let z = zero_pad (padding (length d)) in
    let lz : length z ≡ padding (length d) = length-replicate (padding (length d)) 0 in
    let r1 = put-HasRoom _ _ _ d (grow-HasRoom w k v) (omega arith) in
    let r2 = put-HasRoom _ _ _ z r1 (omega arith) in
    (r2.valid, r2.holds ∙ append_assoc (bytes w) d z)

put_counted :
    (w : Writer) (d : Bytes)
    → IsValid w
    → Appends w
        (put
          (put (put (grow w (4 + length d + padding (length d))) (be32 (length d))) d)
          (zero_pad (padding (length d))))
        (be32 (length d) ++ padded d)
put_counted w d v =
    let z = zero_pad (padding (length d)) in
    let b = be32 (length d) in
    let lz : length z ≡ padding (length d) = length-replicate (padding (length d)) 0 in
    let r0 = grow-HasRoom w (4 + length d + padding (length d)) v in
    let r1 = put-HasRoom _ _ _ b r0 (omega arith) in
    let r2 = put-HasRoom _ _ _ d r1 (omega arith) in
    let r3 = put-HasRoom _ _ _ z r2 (omega arith) in
    (r3.valid, r3.holds ∙ append_assoc (bytes w ++ b) d z ∙ append_assoc (bytes w) b (d ++ z))

write_lem : (i : Item) (w : Writer) → IsValid w → IsWritable i → Appends w (write i w) (encoded i)
unfolding write write_int32 write_uint32 write_int64 write_buffer write_string write_opaque
    write_raw
write_lem (int32 x) w v h = put_one w (be32 x) v
write_lem (uint32 x) w v h = put_one w (be32 x) v
write_lem (int64 x) w v h = put_one w (be64 x) v
write_lem (buffer d) w v h = put_counted w d v
write_lem (string d) w v h = put_counted w d v
write_lem (opaque d k) w v h =
    let e : length (take k d) ≡ k = omega (arith, length-take k d) in
    rw e at (put-padded w (take k d) (length (take k d) + padding (length (take k d))) v refl)
write_lem (raw d) w v h = put_one w d v

-- From a valid writer, any sequence of writes leaves a valid writer whose bytes are the old ones
-- and then each item's XDR encoding in order, through every growth of the buffer, if each opaque
-- write is given as much data as it asks for.
pub bytes-write_all :
    (is : List Item) (w : Writer)
    → IsValid w
    → All IsWritable is
    → IsValid (write_all is w) × (bytes (write_all is w) ≡ bytes w ++ encoded_all is)
unfolding write_all encoded_all
bytes-write_all [] w v h = (v, sym (append-nil (bytes w)))
bytes-write_all (i ∷ is) w v h =
    let (v', e) = write_lem i w v h.0 in
    let (v'', e') = bytes-write_all is (write i w) v' h.1 in
    (
      v'',
      e' ∙ ap (λ x. x ++ encoded_all is) e ∙ append_assoc (bytes w) (encoded i) (encoded_all is),
    )

pub new_writer-IsValid : IsValid new_writer × (bytes new_writer ≡ [])
unfolding new_writer bytes
new_writer-IsValid = (
  record {
    within = omega arith;
    nonempty = omega (arith, length-replicate {A = ℕ} default_write_buf_size 0);
  },
  refl,
)

-- A flush hands over all bytes that are buffered, if there are some, and leaves none.
pub flush_lem :
    (w : Writer)
    → IsValid w
    → 0 < length (bytes w)
    → ((flush w).0 ≡ some (bytes w)) × IsValid (flush w).1 × (bytes (flush w).1 ≡ [])
unfolding flush bytes
flush_lem w v h =
    let l = length-take w.n w.buf in
    let e : (w.n == 0) ≡ false = ground (arith, v.within) in
    rw e (refl, record { within = omega arith; nonempty = v.nonempty }, refl)
