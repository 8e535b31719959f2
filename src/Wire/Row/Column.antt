-- ===== src/Wire/Row/Column.antt =====
-- The bytes of one column through `DecodeColumn`, by the case of its switch.
use mathlib.Core.Path.{subst}
use go_firebird_driver.Prelude.{
  ℕ, ◌+◌, ◌%◌, ◌^◌, ◌≤◌, ◌<◌, ◌≡◌, refl, sym, ◌∙◌, ap, arith, true, false, not, [], ◌++◌, none,
  length, length-append, length-replicate, take, take_left, drop_left, append_assoc, leb, ◌==◌,
  ◌||◌,
}
use go_firebird_driver.Prelude.Bytes.{Bytes, be32, be64}
use go_firebird_driver.Wire.Writer.{padding, zero_pad}
use go_firebird_driver.Wire.Writer.Contents.{padded}
use go_firebird_driver.Wire.Reader.{
  Reader, read_view, read_int32, read_uint32, read_buffer, uint64_be, max_wire_buffer_len,
}
use go_firebird_driver.Wire.Reader.Filling.{Holds}
use go_firebird_driver.Wire.Reader.Stream.{
  read_view-Holds, read_int32-be32, read_uint32-be32, read_int64-be64, read_buffer-padded,
  read_string-padded,
}
use go_firebird_driver.Wire.Info.{ColumnDescriptor}
use go_firebird_driver.Wire.Blr.{base_type}
use go_firebird_driver.Wire.Int128.{int128_text}
use go_firebird_driver.Wire.Row.{
  Value, int16, int32, int64, float32, float64, date, time, timestamp, time_tz, timestamp_tz,
  boolean, string, blob_id, dec16, dec34, signed_of, scaled_or, viewed, text_value, varying_value,
  decode_text, Kind, kind_of, decode_as, decode_column,
}

-- The bytes that each case of the switch reads, with the value that it makes of them.
pub data Carries (d : ColumnDescriptor) : Kind → Bytes → Value → Type 0 where
  carries_short :
      (v : ℕ)
      → v < 2 ^ 32
      → Carries d Kind.short
          (be32 v)
          (scaled_or (int16 (v % 2 ^ 16)) (signed_of 15 (v % 2 ^ 16)) d.scale)
  carries_long :
      (v : ℕ)
      → v < 2 ^ 32
      → Carries d Kind.long (be32 v) (scaled_or (int32 v) (signed_of 31 v) d.scale)
  carries_big :
      (v : ℕ)
      → v < 2 ^ 64
      → Carries d Kind.big (be64 v) (scaled_or (int64 v) (signed_of 63 v) d.scale)
  carries_real : (v : ℕ) → v < 2 ^ 32 → Carries d Kind.real (be32 v) (float32 v)
  carries_double : (v : ℕ) → v < 2 ^ 64 → Carries d Kind.double (be64 v) (float64 v)
  carries_bool : (v : ℕ) → v < 2 ^ 32 → Carries d Kind.bool (be32 v) (boolean (not (v == 0)))
  carries_day : (v : ℕ) → v < 2 ^ 32 → Carries d Kind.day (be32 v) (date v)
  carries_clock : (v : ℕ) → v < 2 ^ 32 → Carries d Kind.clock (be32 v) (time v)
  carries_moment :
      (a b : ℕ) → a < 2 ^ 32 → b < 2 ^ 32 → Carries d Kind.moment (be32 a ++ be32 b) (timestamp a b)
  carries_clock_tz :
      (a b c : ℕ)
      → a < 2 ^ 32
      → b < 2 ^ 32
      → c < 2 ^ 32
      → Carries d Kind.clock_tz (be32 a ++ (be32 b ++ be32 c)) (time_tz a b c)
  carries_moment_tz :
      (a b c e : ℕ)
      → a < 2 ^ 32
      → b < 2 ^ 32
      → c < 2 ^ 32
      → e < 2 ^ 32
      → Carries d Kind.moment_tz (be32 a ++ (be32 b ++ (be32 c ++ be32 e))) (timestamp_tz a b c e)
  carries_fixed :
      (bs : Bytes)
      → length bs ≡ d.size
      → 1 ≤ d.size
      → d.size < 2 ^ 31
      → Carries d Kind.fixed (padded bs) (text_value d bs)
  carries_empty : d.size ≡ 0 → Carries d Kind.fixed [] (string [])
  carries_varying :
      (bs : Bytes)
      → length bs ≤ max_wire_buffer_len
      → Carries d Kind.varying (be32 (length bs) ++ padded bs) (varying_value d bs)
  carries_blob : (v : ℕ) → v < 2 ^ 64 → Carries d Kind.blob (be64 v) (blob_id v)
  carries_decimal16 : (bs : Bytes) → length bs ≡ 8 → Carries d Kind.decimal16 bs (dec16 bs)
  carries_decimal34 : (bs : Bytes) → length bs ≡ 16 → Carries d Kind.decimal34 bs (dec34 bs)
  carries_huge :
      (bs : Bytes)
      → length bs ≡ 16
      → Carries d Kind.huge bs (string (int128_text bs (signed_of 31 d.scale)))
  carries_other :
      (bs : Bytes)
      → length bs ≤ max_wire_buffer_len
      → Carries d Kind.other (be32 (length bs) ++ padded bs) (string bs)

-- A read that answers the value and leaves the rest.
abbrev pub Yields : Value × Reader → Value → Bytes → Type 0
Yields x v rest = (x.0 ≡ v) × Holds x.1 rest

viewed-clear :
    (failed : Value) (f : Bytes → Value) (x : Bytes × Reader)
    → x.1.err ≡ none
    → viewed failed f x ≡ (f x.0, x.1)
unfolding viewed
viewed-clear failed f x e = ground arith

viewed-Holds :
    (failed : Value) (f : Bytes → Value) (x : Bytes × Reader) (bs rest : Bytes)
    → x.0 ≡ bs
    → Holds x.1 rest
    → Yields (viewed failed f x) (f bs) rest
viewed-Holds failed f x bs rest e h =
    let c = viewed-clear failed f x h.clear in
    (
      ap (λ (y : Value × Reader). y.0) c ∙ ap f e,
      subst (λ (y : Value × Reader). Holds y.1 rest) (sym c) h,
    )

-- A view of the bytes that come first.
pub read_view-plain :
    (r : Reader) (bs rest : Bytes) (n : ℕ)
    → length bs ≡ n
    → Holds r (bs ++ rest)
    → ((read_view r n).0 ≡ bs) × Holds (read_view r n).1 rest
read_view-plain r bs rest n l h =
    let (e, h') = read_view-Holds r (bs ++ rest) n h (omega (arith, l, length-append bs rest)) in
    (
      e ∙ take_left n bs rest (sym l),
      subst (λ x. Holds (read_view r n).1 x) (drop_left n bs rest (sym l)) h',
    )

length-padded : (bs : Bytes) → length (padded bs) ≡ length bs + padding (length bs)
length-padded bs = omega (
  arith,
  length-append bs (zero_pad (padding (length bs))),
  length-replicate {A = ℕ} (padding (length bs)) 0,
)

decode_text-padded :
    (d : ColumnDescriptor) (bs rest : Bytes) (r : Reader)
    → length bs ≡ d.size
    → 1 ≤ d.size
    → d.size < 2 ^ 31
    → Holds r (padded bs ++ rest)
    → Yields (decode_text d r) (text_value d bs) rest
unfolding decode_text
decode_text-padded d bs rest r l p q h =
    let n = d.size in
    let c : (n == 0 || leb (2 ^ 31) n) ≡ false = ground (arith, p, q) in
    let m : length (padded bs) ≡ n + padding n = length-padded bs ∙ ap (λ x. x + padding x) l in
    let (e, h') = read_view-plain r (padded bs) rest (n + padding n) m h in
    let front = take_left n bs (zero_pad (padding (length bs))) (sym l) in
    let (e', h'') =
      viewed-Holds (string []) (λ x. text_value d (take n x)) (read_view r (n + padding n))
        (padded bs) rest e h' in
    rw c (e' ∙ ap (text_value d) front, h'')

decode_text-empty :
    (d : ColumnDescriptor) (rest : Bytes) (r : Reader)
    → d.size ≡ 0
    → Holds r rest
    → Yields (decode_text d r) (string []) rest
unfolding decode_text
decode_text-empty d rest r l h =
    let c : (d.size == 0 || leb (2 ^ 31) d.size) ≡ true = ground (arith, l) in rw c (refl, h)

decode_as-Carries :
    (d : ColumnDescriptor) (k : Kind) (bs : Bytes) (v : Value) (r : Reader) (rest : Bytes)
    → Carries d k bs v
    → Holds r (bs ++ rest)
    → Yields (decode_as k d r) v rest
unfolding decode_as
decode_as-Carries d _ _ _ r rest (Carries.carries_short v w) h =
    let (e, h') = read_int32-be32 r v rest w h in
    (ap (λ x. scaled_or (int16 (x % 2 ^ 16)) (signed_of 15 (x % 2 ^ 16)) d.scale) e, h')
decode_as-Carries d _ _ _ r rest (Carries.carries_long v w) h =
    let (e, h') = read_int32-be32 r v rest w h in
    (ap (λ x. scaled_or (int32 x) (signed_of 31 x) d.scale) e, h')
decode_as-Carries d _ _ _ r rest (Carries.carries_big v w) h =
    let (e, h') = read_int64-be64 r v rest w h in
    (ap (λ x. scaled_or (int64 x) (signed_of 63 x) d.scale) e, h')
decode_as-Carries d _ _ _ r rest (Carries.carries_real v w) h =
    let (e, h') = read_uint32-be32 r v rest w h in (ap float32 e, h')
decode_as-Carries d _ _ _ r rest (Carries.carries_double v w) h =
    let (e, h') = read_view-plain r (be64 v) rest 8 refl h in
    let (e', h'') =
      viewed-Holds (float64 0) (λ x. float64 (uint64_be x)) (read_view r 8) (be64 v) rest e h' in
    let n : uint64_be (be64 v) ≡ v = omega (arith, w) in (e' ∙ ap float64 n, h'')
decode_as-Carries d _ _ _ r rest (Carries.carries_bool v w) h =
    let (e, h') = read_int32-be32 r v rest w h in (ap (λ x. boolean (not (x == 0))) e, h')
decode_as-Carries d _ _ _ r rest (Carries.carries_day v w) h =
    let (e, h') = read_int32-be32 r v rest w h in (ap date e, h')
decode_as-Carries d _ _ _ r rest (Carries.carries_clock v w) h =
    let (e, h') = read_uint32-be32 r v rest w h in (ap time e, h')
decode_as-Carries d _ _ _ r rest (Carries.carries_moment a b wa wb) h =
    let (e, h1) = read_int32-be32 r a (be32 b ++ rest) wa h in
    let (f, h2) = read_uint32-be32 (read_int32 r).1 b rest wb h1 in
    (ap (λ x. timestamp x (read_uint32 (read_int32 r).1).0) e ∙ ap (timestamp a) f, h2)
decode_as-Carries d _ _ _ r rest (Carries.carries_clock_tz a b c wa wb wc) h =
    let (e, h1) = read_uint32-be32 r a (be32 b ++ (be32 c ++ rest)) wa h in
    let (f, h2) = read_uint32-be32 (read_uint32 r).1 b (be32 c ++ rest) wb h1 in
    let (g, h3) = read_int32-be32 (read_uint32 (read_uint32 r).1).1 c rest wc h2 in (cc, h3)
decode_as-Carries d _ _ _ r rest (Carries.carries_moment_tz a b c o wa wb wc wo) h =
    let (e, h1) = read_int32-be32 r a (be32 b ++ (be32 c ++ (be32 o ++ rest))) wa h in
    let (f, h2) = read_uint32-be32 (read_int32 r).1 b (be32 c ++ (be32 o ++ rest)) wb h1 in
    let (g, h3) = read_uint32-be32 (read_uint32 (read_int32 r).1).1 c (be32 o ++ rest) wc h2 in
    let (i, h4) = read_int32-be32 (read_uint32 (read_uint32 (read_int32 r).1).1).1 o rest wo h3 in
    (cc, h4)
decode_as-Carries d _ _ _ r rest (Carries.carries_fixed bs l p q) h =
    decode_text-padded d bs rest r l p q h
decode_as-Carries d _ _ _ r rest (Carries.carries_empty l) h = decode_text-empty d rest r l h
decode_as-Carries d _ _ _ r rest (Carries.carries_varying bs l) h =
    let h0 = subst (Holds r) (append_assoc (be32 (length bs)) (padded bs) rest) h in
    let (e, h') = read_buffer-padded r bs rest l h0 in
    viewed-Holds (string []) (varying_value d) (read_buffer r) bs rest e h'
decode_as-Carries d _ _ _ r rest (Carries.carries_blob v w) h =
    let (e, h') = read_int64-be64 r v rest w h in (ap blob_id e, h')
decode_as-Carries d _ _ _ r rest (Carries.carries_decimal16 bs l) h =
    let (e, h') = read_view-plain r bs rest 8 l h in
    viewed-Holds (string []) dec16 (read_view r 8) bs rest e h'
decode_as-Carries d _ _ _ r rest (Carries.carries_decimal34 bs l) h =
    let (e, h') = read_view-plain r bs rest 16 l h in
    viewed-Holds (string []) dec34 (read_view r 16) bs rest e h'
decode_as-Carries d _ _ _ r rest (Carries.carries_huge bs l) h =
    let (e, h') = read_view-plain r bs rest 16 l h in
    viewed-Holds (string []) (λ x. string (int128_text x (signed_of 31 d.scale))) (read_view r 16)
      bs rest e h'
decode_as-Carries d _ _ _ r rest (Carries.carries_other bs l) h =
    let h0 = subst (Holds r) (append_assoc (be32 (length bs)) (padded bs) rest) h in
    let (e, h') = read_string-padded r bs rest l h0 in (ap string e, h')

pub decode_column-Carries :
    (d : ColumnDescriptor) (bs : Bytes) (v : Value) (r : Reader) (rest : Bytes)
    → Carries d (kind_of (base_type d.sql_type)) bs v
    → Holds r (bs ++ rest)
    → Yields (decode_column d r) v rest
unfolding decode_column
decode_column-Carries d bs v r rest s h =
    decode_as-Carries d (kind_of (base_type d.sql_type)) bs v r rest s h
