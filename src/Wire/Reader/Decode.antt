-- ===== src/Wire/Reader/Decode.antt =====
-- The reader reads back what the writer wrote, and skips keep-alives in front of an opcode.
use go_firebird_driver.Prelude.{
  ℕ, zero, suc, ◌+◌, ◌*◌, ◌^◌, ◌≤◌, ◌<◌, ◌≡◌, ◌≢◌, refl, ◌∙◌, ap, List, [], ◌∷◌, ◌++◌, none, arith,
  append_assoc, length, length-append, take, take_left, drop_left, length-replicate, take_all, All,
  map, if◌then◌else◌, ◌==◌, true, false,
}
use mathlib.Core.Path.{subst, ap₂}
use go_firebird_driver.Prelude.Bytes.{Bytes, be32}
use go_firebird_driver.Wire.Protocol.{op_dummy}
use go_firebird_driver.Wire.Writer.{Writer, padding, zero_pad, bytes}
use go_firebird_driver.Wire.Writer.Buffer
use go_firebird_driver.Wire.Writer.Contents.{
  Item, encoded, encoded_all, write_all, bytes-write_all, IsWritable,
}
use go_firebird_driver.Wire.Reader.{
  Reader, read_view, read_int32, read_uint32, read_int64, read_buffer, read_string, read_opaque,
  max_wire_buffer_len, opcode_loop, read_opcode, pending,
}
use go_firebird_driver.Wire.Reader.Filling.{Holds}
use go_firebird_driver.Wire.Reader.Stream.{
  read_view-Holds, read_int32-be32, read_uint32-be32, read_int64-be64, read_buffer-padded,
  read_string-padded,
}

-- What a client asks for: the kind of the next item, with its size where it has no length prefix.
pub data Kind : Type 0 where
  int32 uint32 int64 buffer string : Kind
  opaque raw : ℕ → Kind

abbrev pub kind : Item → Kind
kind (Item.int32 v) = Kind.int32
kind (Item.uint32 v) = Kind.uint32
kind (Item.int64 v) = Kind.int64
kind (Item.buffer d) = Kind.buffer
kind (Item.string s) = Kind.string
kind (Item.opaque d k) = Kind.opaque k
kind (Item.raw d) = Kind.raw (length d)

abbrev answer {ℓ} : {A : Type ℓ} → (A → Item) → A × Reader → Item × Reader
answer f (a, r) = (f a, r)

pub ask : Kind → Reader → Item × Reader
ask Kind.int32 r = answer Item.int32 (read_int32 r)
ask Kind.uint32 r = answer Item.uint32 (read_uint32 r)
ask Kind.int64 r = answer Item.int64 (read_int64 r)
ask Kind.buffer r = answer Item.buffer (read_buffer r)
ask Kind.string r = answer Item.string (read_string r)
ask (Kind.opaque k) r = answer (λ d. Item.opaque d k) (read_opaque r k)
ask (Kind.raw k) r = answer Item.raw (read_view r k)

pub ask_all : List Kind → Reader → List Item × Reader
ask_all [] r = ([], r)
ask_all (k ∷ ks) r = let (i, r') = ask k r in let (is, r'') = ask_all ks r' in (i ∷ is, r'')

-- An item that its own encoding determines: in the range of its type, with no bytes beyond its size,
-- and no buffer over 64 MiB.
abbrev pub IsSendable : Item → Type 0
IsSendable (Item.int32 v) = v < 2 ^ 32
IsSendable (Item.uint32 v) = v < 2 ^ 32
IsSendable (Item.int64 v) = v < 2 ^ 64
IsSendable (Item.buffer d) = length d ≤ max_wire_buffer_len
IsSendable (Item.string s) = length s ≤ max_wire_buffer_len
IsSendable (Item.opaque d k) = k ≡ length d
IsSendable (Item.raw d) = Unit {0}

-- What reading one item back guarantees.
abbrev Answers : Item × Reader → Item → Bytes → Type 0
Answers a i rest = (a.0 ≡ i) × Holds a.1 rest

read_opaque-clear :
    (r : Reader) (n : ℕ)
    → (read_view r (n + padding n)).1.err ≡ none
    → read_opaque r n ≡ (take n (read_view r (n + padding n)).0, (read_view r (n + padding n)).1)
unfolding read_opaque
read_opaque-clear r n e = ground arith

read_opaque-padded :
    (r : Reader) (d rest : Bytes) (k : ℕ)
    → k ≡ length d
    → Holds r (take k d ++ zero_pad (padding k) ++ rest)
    → ((read_opaque r k).0 ≡ d) × Holds (read_opaque r k).1 rest
read_opaque-padded r d rest k e h =
    let z = zero_pad (padding k) in
    let lz : length z ≡ padding k = length-replicate {A = ℕ} (padding k) 0 in
    let whole : take k d ≡ d = take_all k d (omega arith) in
    let sent : take k d ++ z ++ rest ≡ (d ++ z) ++ rest = ap (λ x. x ++ z ++ rest) whole in
    let lp : k + padding k ≡ length (d ++ z) = omega (arith, length-append d z) in
    let (v, h') =
      read_view-Holds r ((d ++ z) ++ rest) (k + padding k) (subst (Holds r) sent h)
        (omega (arith, length-append (d ++ z) rest)) in
    rw (read_opaque-clear r k h'.clear) (
      ap (take k) (v ∙ take_left (k + padding k) (d ++ z) rest lp) ∙ take_left k d z e,
      subst (Holds (read_view r (k + padding k)).1) (drop_left (k + padding k) (d ++ z) rest lp) h',
    )

ask-encoded :
    (i : Item) (r : Reader) (rest : Bytes)
    → IsSendable i
    → Holds r (encoded i ++ rest)
    → Answers (ask (kind i) r) i rest
unfolding ask
ask-encoded (Item.int32 v) r rest s h =
    let (e, h') = read_int32-be32 r v rest s h in (ap Item.int32 e, h')
ask-encoded (Item.uint32 v) r rest s h =
    let (e, h') = read_uint32-be32 r v rest s h in (ap Item.uint32 e, h')
ask-encoded (Item.int64 v) r rest s h =
    let (e, h') = read_int64-be64 r v rest s h in (ap Item.int64 e, h')
ask-encoded (Item.buffer d) r rest s h =
    let (e, h') = read_buffer-padded r d rest s h in (ap Item.buffer e, h')
ask-encoded (Item.string d) r rest s h =
    let (e, h') = read_string-padded r d rest s h in (ap Item.string e, h')
ask-encoded (Item.opaque d k) r rest s h =
    let (e, h') = read_opaque-padded r d rest k s h in (ap (λ x. Item.opaque x k) e, h')
ask-encoded (Item.raw d) r rest s h =
    let (v, h') =
      read_view-Holds r (d ++ rest) (length d) h (omega (arith, length-append d rest)) in
    (
      ap Item.raw (v ∙ take_left (length d) d rest refl),
      subst (Holds (read_view r (length d)).1) (drop_left (length d) d rest refl) h',
    )

ask_all-encoded_all :
    (is : List Item) (r : Reader) (rest : Bytes)
    → All IsSendable is
    → Holds r (encoded_all is ++ rest)
    → ((ask_all (map kind is) r).0 ≡ is) × Holds (ask_all (map kind is) r).1 rest
unfolding ask_all encoded_all
ask_all-encoded_all [] r rest s h = (refl, h)
ask_all-encoded_all (i ∷ is) r rest s h =
    let h' : Holds r (encoded i ++ (encoded_all is ++ rest)) =
      subst (Holds r) (append_assoc (encoded i) (encoded_all is) rest) h in
    let (e, h'') = ask-encoded i r (encoded_all is ++ rest) s.0 h' in
    let (e', h''') = ask_all-encoded_all is (ask (kind i) r).1 rest s.1 h'' in (ap₂ ◌∷◌ e e', h''')

sendable_IsWritable : (is : List Item) → All IsSendable is → All IsWritable is
sendable_IsWritable [] s = tt
sendable_IsWritable (i ∷ is) s = (one i s.0, sendable_IsWritable is s.1)
  where
    one : (i : Item) → IsSendable i → IsWritable i
    one (Item.opaque d k) s = omega arith
    one (Item.int32 v) s = tt
    one (Item.uint32 v) s = tt
    one (Item.int64 v) s = tt
    one (Item.buffer d) s = tt
    one (Item.string d) s = tt
    one (Item.raw d) s = tt

-- Whatever sequence of sendable items is written to an empty writer, asking a reader that holds
-- its bytes for the same kinds in the same order yields the items, and leaves exactly what
-- follows them, however the stream is cut into answers and the buffers of both sides grow.
pub ask_all-write_all :
    (is : List Item) (w : Writer) (r : Reader) (rest : Bytes)
    → Buffer.IsValid w
    → bytes w ≡ []
    → All IsSendable is
    → Holds r (bytes (write_all is w) ++ rest)
    → ((ask_all (map kind is) r).0 ≡ is) × Holds (ask_all (map kind is) r).1 rest
ask_all-write_all is w r rest v empty s h =
    let (v', e) = bytes-write_all is w v (sendable_IsWritable is s) in
    let sent : bytes (write_all is w) ≡ encoded_all is = e ∙ ap (λ x. x ++ encoded_all is) empty in
    ask_all-encoded_all is r rest s (subst (λ x. Holds r (x ++ rest)) sent h)

opcode_loop-clear :
    (fuel : ℕ) (r : Reader)
    → (read_int32 r).1.err ≡ none
    → opcode_loop (suc fuel) r
      ≡ (if (read_int32 r).0 == op_dummy then opcode_loop fuel (read_int32 r).1 else read_int32 r)
unfolding opcode_loop
opcode_loop-clear fuel r e = ground arith

-- `n` keep-alives, as the server sends them.
unfoldable pub dummies : ℕ → Bytes
dummies zero = []
dummies (suc n) = be32 op_dummy ++ dummies n

opcode_loop-dummies :
    (n fuel : ℕ) (r : Reader) (op : ℕ) (rest : Bytes)
    → n < fuel
    → op < 2 ^ 32
    → op ≢ op_dummy
    → Holds r (dummies n ++ (be32 op ++ rest))
    → ((opcode_loop fuel r).0 ≡ op) × Holds (opcode_loop fuel r).1 rest
unfolding dummies
opcode_loop-dummies n zero r op rest f b ne h = absurd (omega arith)
opcode_loop-dummies zero (suc fuel) r op rest f b ne h =
    let (e, h') = read_int32-be32 r op rest b h in
    let other : ((read_int32 r).0 == op_dummy) ≡ false = rw e (ground arith) in
    rw (opcode_loop-clear fuel r h'.clear, other) (e, h')
opcode_loop-dummies (suc n) (suc fuel) r op rest f b ne h =
    let (e, h') = read_int32-be32 r op_dummy (dummies n ++ (be32 op ++ rest)) (omega arith) h in
    let same : ((read_int32 r).0 == op_dummy) ≡ true = rw e refl in
    rw (opcode_loop-clear fuel r h'.clear, same)
      (opcode_loop-dummies n fuel (read_int32 r).1 op rest (omega arith) b ne h')

length-dummies : (n : ℕ) → length (dummies n) ≡ 4 * n
unfolding dummies
length-dummies zero = omega arith
length-dummies (suc n) = omega (arith, length-dummies n)

-- Any number of keep-alives in front of an operation code of 32 bits that is not one itself is
-- skipped, and nothing else is.
pub read_opcode-dummies :
    (n : ℕ) (r : Reader) (op : ℕ) (rest : Bytes)
    → op < 2 ^ 32
    → op ≢ op_dummy
    → Holds r (dummies n ++ (be32 op ++ rest))
    → ((read_opcode r).0 ≡ op) × Holds (read_opcode r).1 rest
unfolding read_opcode
read_opcode-dummies n r op rest b ne h =
    let l1 = length-append (dummies n) (be32 op ++ rest) in
    let l2 : length (pending r) ≡ length (dummies n ++ (be32 op ++ rest)) = ap length h.left in
    opcode_loop-dummies n (suc (length (pending r))) r op rest (omega (arith, length-dummies n)) b
      ne h
