-- ===== src/Wire/Row/Types/Carried.antt =====
-- Each value that a server sends, through the case of `DecodeColumn` for its type.
use mathlib.Core.Path.{subst}
use go_firebird_driver.Prelude.{
  ℕ, suc, ◌+◌, ◌*◌, ◌/◌, ◌%◌, ◌^◌, ◌≤◌, ◌<◌, ◌≡◌, refl, sym, ◌∙◌, ap, arith, true, false, [], ◌∷◌,
  ◌++◌, length, replicate, zero, inl, inr, ltb, ◌==◌,
}
use go_firebird_driver.Prelude.Bytes.{Bytes, be32, be64}
use go_firebird_driver.Prelude.Int.{ℤ, pos, negsuc}
use go_firebird_driver.Wire.Writer.Contents.{padded}
use go_firebird_driver.Wire.Reader.{Reader}
use go_firebird_driver.Wire.Reader.Filling.{Holds}
use go_firebird_driver.Wire.Info.{ColumnDescriptor}
use go_firebird_driver.Wire.Decimal.Print.{scaled_int64}
use go_firebird_driver.Wire.Int128.{int128_text}
use go_firebird_driver.Wire.Row.{
  Value, int16, time_tz, timestamp_tz, boolean, string, bytes, decoded, signed_of,
  trim_right_spaces, scaled_or, text_value, varying_value, Kind, kind_of, decode_column,
}
use go_firebird_driver.Wire.Row.Types.{Fits, twos, is_trimmed, is_known, Sends}
use go_firebird_driver.Wire.Row.Column.{Carries, Yields, decode_column-Carries}

twos-fits : (z : ℤ) → Fits 15 z → twos 32 z < 2 ^ 32
twos-fits (pos n) h = omega arith
twos-fits (negsuc n) h = omega arith

signed_of-short : (z : ℤ) → Fits 15 z → signed_of 15 (twos 32 z % 2 ^ 16) ≡ z
signed_of-short (pos n) h = ground arith
signed_of-short (negsuc n) h = ground arith

short_bits : (z : ℤ) → Fits 15 z → twos 32 z % 2 ^ 16 ≡ twos 16 z
short_bits (pos n) h = omega arith
short_bits (negsuc n) h = omega arith

signed_of-long : (z : ℤ) → Fits 31 z → (twos 32 z < 2 ^ 32) × (signed_of 31 (twos 32 z) ≡ z)
signed_of-long (pos n) h = (omega arith, ground arith)
signed_of-long (negsuc n) h = (omega arith, ground arith)

signed_of-int64 : (z : ℤ) → Fits 63 z → (twos 64 z < 2 ^ 64) × (signed_of 63 (twos 64 z) ≡ z)
signed_of-int64 (pos n) h = (omega arith, ground arith)
signed_of-int64 (negsuc n) h = (omega arith, ground arith)

scaled_or-plain : (x : Value) (v : ℤ) (scale : ℕ) → scale < 2 ^ 31 → scaled_or x v scale ≡ x
unfolding scaled_or
scaled_or-plain x v scale h = ground arith

scaled_or-scaled :
    (x : Value) (v z : ℤ) (scale k : ℕ)
    → k < 2 ^ 31
    → scale ≡ twos 32 (negsuc k)
    → v ≡ z
    → scaled_or x v scale ≡ string (scaled_int64 z (negsuc k))
unfolding scaled_or
scaled_or-scaled x v z scale k h e f =
    let g : signed_of 31 scale ≡ negsuc k = ap (signed_of 31) e ∙ (signed_of-long (negsuc k) h).1 in
    let c : ltb 0 (0 + suc k) ≡ true = ground arith in rw (g, f, c) refl

trim_right_spaces-spaces : (k : ℕ) → trim_right_spaces (replicate k 32) ≡ []
unfolding trim_right_spaces
trim_right_spaces-spaces zero = refl
trim_right_spaces-spaces (suc k) = rw (trim_right_spaces-spaces k) refl

trim_right_spaces-trimmed :
    (bs : Bytes) (k : ℕ) → is_trimmed bs ≡ true → trim_right_spaces (bs ++ replicate k 32) ≡ bs
unfolding trim_right_spaces
trim_right_spaces-trimmed [] k h = trim_right_spaces-spaces k
trim_right_spaces-trimmed (b ∷ []) k h =
    let e = trim_right_spaces-spaces k in
    let f : (b == 32) ≡ false = ground (arith, h) in rw (e, f) refl
trim_right_spaces-trimmed (b ∷ c ∷ bs) k h =
    let e = trim_right_spaces-trimmed (c ∷ bs) k h in rw e refl

text_value-octets :
    (d : ColumnDescriptor) (bs : Bytes) → d.sub_type ≡ 1 → text_value d bs ≡ bytes bs
unfolding text_value
text_value-octets d bs e = ground (arith, e)

text_value-none :
    (d : ColumnDescriptor) (bs : Bytes)
    → d.sub_type ≡ 0
    → text_value d bs ≡ bytes (trim_right_spaces bs)
unfolding text_value
text_value-none d bs e = ground (arith, e)

text_value-text :
    (d : ColumnDescriptor) (bs : Bytes)
    → 2 ≤ d.sub_type
    → text_value d bs ≡ decoded (d.sub_type % 256) (trim_right_spaces bs)
unfolding text_value
text_value-text d bs e = ground (arith, e)

varying_value-bytes :
    (d : ColumnDescriptor) (bs : Bytes) → d.sub_type ≤ 1 → varying_value d bs ≡ bytes bs
unfolding varying_value
varying_value-bytes d bs e = ground (arith, e)

varying_value-text :
    (d : ColumnDescriptor) (bs : Bytes)
    → 2 ≤ d.sub_type
    → varying_value d bs ≡ decoded (d.sub_type % 256) bs
unfolding varying_value
varying_value-text d bs e = ground (arith, e)

kind_of-other : (t : ℕ) → is_known t ≡ false → kind_of t ≡ Kind.other
unfolding is_known kind_of
kind_of-other t h = ground (arith, h)

module _ (d : ColumnDescriptor) where
  -- What a case of the switch makes of the bytes is the value.
  by_value : (k : Kind) (bs : Bytes) (v w : Value) → v ≡ w → Carries d k bs v → Carries d k bs w
  by_value k bs v w e c = subst (Carries d k bs) e c

  Carries-Sends : (t : ℕ) (bs : Bytes) (v : Value) → Sends d t bs v → Carries d (kind_of t) bs v
  unfolding kind_of
  Carries-Sends _ _ _ (Sends.sends_short z f p) =
      by_value Kind.short (be32 (twos 32 z)) _ _
        (scaled_or-plain _ _ d.scale p ∙ ap int16 (short_bits z f))
        (Carries.carries_short (twos 32 z) (twos-fits z f))
  Carries-Sends _ _ _ (Sends.sends_short_scaled z k f l e) =
      by_value Kind.short (be32 (twos 32 z)) _ _
        (scaled_or-scaled _ _ z d.scale k l e (signed_of-short z f))
        (Carries.carries_short (twos 32 z) (twos-fits z f))
  Carries-Sends _ _ _ (Sends.sends_long z f p) =
      by_value Kind.long (be32 (twos 32 z)) _ _ (scaled_or-plain _ _ d.scale p)
        (Carries.carries_long (twos 32 z) (signed_of-long z f).0)
  Carries-Sends _ _ _ (Sends.sends_long_scaled z k f l e) =
      by_value Kind.long (be32 (twos 32 z)) _ _
        (scaled_or-scaled _ _ z d.scale k l e (signed_of-long z f).1)
        (Carries.carries_long (twos 32 z) (signed_of-long z f).0)
  Carries-Sends _ _ _ (Sends.sends_int64 z f p) =
      by_value Kind.big (be64 (twos 64 z)) _ _ (scaled_or-plain _ _ d.scale p)
        (Carries.carries_big (twos 64 z) (signed_of-int64 z f).0)
  Carries-Sends _ _ _ (Sends.sends_int64_scaled z k f l e) =
      by_value Kind.big (be64 (twos 64 z)) _ _
        (scaled_or-scaled _ _ z d.scale k l e (signed_of-int64 z f).1)
        (Carries.carries_big (twos 64 z) (signed_of-int64 z f).0)
  Carries-Sends _ _ _ (Sends.sends_int128 bs s l f e) =
      by_value Kind.huge bs _ _
        (ap (λ x. string (int128_text bs x)) (ap (signed_of 31) e ∙ (signed_of-long s f).1))
        (Carries.carries_huge bs l)
  Carries-Sends _ _ _ (Sends.sends_float v w) = Carries.carries_real v w
  Carries-Sends _ _ _ (Sends.sends_double v w) = Carries.carries_double v w
  Carries-Sends _ _ _ Sends.sends_false = Carries.carries_bool 0 (omega arith)
  Carries-Sends _ _ _ (Sends.sends_true v w p) =
      by_value Kind.bool (be32 v) _ _ (ap boolean (ground (arith, p))) (Carries.carries_bool v w)
  Carries-Sends _ _ _ (Sends.sends_date v w) = Carries.carries_day v w
  Carries-Sends _ _ _ (Sends.sends_time v w) = Carries.carries_clock v w
  Carries-Sends _ _ _ (Sends.sends_timestamp a b p q) = Carries.carries_moment a b p q
  Carries-Sends _ _ _ (Sends.sends_time_tz t a b c (inl e) p q w) =
      subst (λ x. Carries d (kind_of x) (be32 a ++ (be32 b ++ be32 c)) (time_tz a b c)) (sym e)
        (Carries.carries_clock_tz a b c p q w)
  Carries-Sends _ _ _ (Sends.sends_time_tz t a b c (inr e) p q w) =
      subst (λ x. Carries d (kind_of x) (be32 a ++ (be32 b ++ be32 c)) (time_tz a b c)) (sym e)
        (Carries.carries_clock_tz a b c p q w)
  Carries-Sends _ _ _ (Sends.sends_timestamp_tz t a b c o (inl e) p q w x) =
      subst
        (λ y.
          Carries d (kind_of y) (be32 a ++ (be32 b ++ (be32 c ++ be32 o))) (timestamp_tz a b c o))
        (sym e) (Carries.carries_moment_tz a b c o p q w x)
  Carries-Sends _ _ _ (Sends.sends_timestamp_tz t a b c o (inr e) p q w x) =
      subst
        (λ y.
          Carries d (kind_of y) (be32 a ++ (be32 b ++ (be32 c ++ be32 o))) (timestamp_tz a b c o))
        (sym e) (Carries.carries_moment_tz a b c o p q w x)
  Carries-Sends _ _ _ (Sends.sends_octets bs e l p q) =
      by_value Kind.fixed (padded bs) _ _ (text_value-octets d bs e)
        (Carries.carries_fixed bs l p q)
  Carries-Sends _ _ _ (Sends.sends_text_none bs k e m l p q) =
      by_value Kind.fixed (padded (bs ++ replicate k 32)) _ _
        (text_value-none d (bs ++ replicate k 32) e ∙ ap bytes (trim_right_spaces-trimmed bs k m))
        (Carries.carries_fixed (bs ++ replicate k 32) l p q)
  Carries-Sends _ _ _ (Sends.sends_text bs k e m l p q) =
      by_value Kind.fixed (padded (bs ++ replicate k 32)) _ _
        (text_value-text d (bs ++ replicate k 32) e
          ∙ ap (decoded (d.sub_type % 256)) (trim_right_spaces-trimmed bs k m))
        (Carries.carries_fixed (bs ++ replicate k 32) l p q)
  Carries-Sends _ _ _ (Sends.sends_text_empty e) = Carries.carries_empty e
  Carries-Sends _ _ _ (Sends.sends_varying_bytes bs e l) =
      by_value Kind.varying (be32 (length bs) ++ padded bs) _ _ (varying_value-bytes d bs e)
        (Carries.carries_varying bs l)
  Carries-Sends _ _ _ (Sends.sends_varying bs e l) =
      by_value Kind.varying (be32 (length bs) ++ padded bs) _ _ (varying_value-text d bs e)
        (Carries.carries_varying bs l)
  Carries-Sends _ _ _ (Sends.sends_blob v w) = Carries.carries_blob v w
  Carries-Sends _ _ _ (Sends.sends_dec16 bs l) = Carries.carries_decimal16 bs l
  Carries-Sends _ _ _ (Sends.sends_dec34 bs l) = Carries.carries_decimal34 bs l
  Carries-Sends _ _ _ (Sends.sends_other t bs h l) =
      rw (kind_of-other t h) (Carries.carries_other bs l)

-- A value of the type that the column has, without its last bit.
pub decode_column-Sends :
    (d : ColumnDescriptor) (bs : Bytes) (v : Value) (r : Reader) (rest : Bytes)
    → Sends d (d.sql_type / 2 * 2) bs v
    → Holds r (bs ++ rest)
    → Yields (decode_column d r) v rest
decode_column-Sends d bs v r rest s h =
    decode_column-Carries d bs v r rest (Carries-Sends d (d.sql_type / 2 * 2) bs v s) h
