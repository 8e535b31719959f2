-- ===== src/Wire/Int128/RoundTrip.antt =====
-- INT128 parameters that are sent and read back.
use go_firebird_driver.Prelude.{
  ℕ, ◌-◌, ◌%◌, ◌^◌, ◌≤◌, ◌<◌, ◌≡◌, refl, ◌∙◌, ap, arith, inr, leb, if◌then◌else◌,
}
use go_firebird_driver.Prelude.Bytes.{Bytes}
use go_firebird_driver.Prelude.Int.{ℤ, pos, negsuc, ◌+ℤ◌, ◌-ℤ◌, ◌≤ℤ◌}
use go_firebird_driver.Wire.Decimal.Print.{scaled_big_int}
use go_firebird_driver.Wire.Decimal.RoundTrip.{
  Keeps, decimal_string_to_scaled_big_int-scaled_big_int,
}
use go_firebird_driver.Wire.Int128.{
  big_bytes, last16, int128_bytes, as_int128, string_to_int128_err, number_of, decode_int128,
  int128_text,
}
use go_firebird_driver.Wire.Int128.Sixteen.{
  number_of-last16, number_of-big_bytes, big_bytes-IsBytes, first_bit, last16-IsBytes,
  length-last16,
}

-- The range of an INT128.
abbrev pub IsInt128 : ℤ → Type 0
IsInt128 v = (negsuc (2 ^ 127 - 1) ≤ℤ v) × (v ≤ℤ pos (2 ^ 127 - 1))

-- The bytes of a number that is not negative.
number_of-sixteen : (n : ℕ) → number_of 0 (last16 (big_bytes (pos n))) ≡ n % 2 ^ 128
number_of-sixteen n =
    number_of-last16 (big_bytes (pos n)) (big_bytes-IsBytes (pos n))
    ∙ ap (λ x. x % 2 ^ 128) (number_of-big_bytes (pos n))

decode-sixteen :
    (n : ℕ)
    → n < 2 ^ 128
    → decode_int128 (last16 (big_bytes (pos n)))
      ≡ (if leb (2 ^ 127) n then pos n -ℤ pos (2 ^ 128) else pos n)
unfolding decode_int128
decode-sixteen n h =
    let bs = last16 (big_bytes (pos n)) in
    let e : number_of 0 bs ≡ n = omega (arith, number_of-sixteen n) in
    let f =
      first_bit bs (last16-IsBytes (big_bytes (pos n)) (big_bytes-IsBytes (pos n)))
        (length-last16 (big_bytes (pos n))) in
    rw (f, e) refl

-- The integer that sixteen bytes with the number `n` stand for.
high_bit :
    (n : ℕ)
    → 2 ^ 127 ≤ n
    → n < 2 ^ 128
    → (if leb (2 ^ 127) n then pos n -ℤ pos (2 ^ 128) else pos n) ≡ negsuc (2 ^ 128 - 1 - n)
unfolding ◌-ℤ◌
high_bit n l u = ground arith

complement : (n : ℕ) → n < 2 ^ 128 → negsuc n +ℤ pos (2 ^ 128) ≡ pos (2 ^ 128 - 1 - n)
unfolding ◌+ℤ◌
complement n h = ground arith

pub decode_int128-int128_bytes : (v : ℤ) → IsInt128 v → decode_int128 (int128_bytes v) ≡ v
unfolding int128_bytes
decode_int128-int128_bytes (pos n) (l, u) = decode-sixteen n (omega arith) ∙ ground (arith, u)
decode_int128-int128_bytes (negsuc n) (l, u) =
    ap (λ x. decode_int128 (last16 (big_bytes x))) (complement n (omega arith))
    ∙ decode-sixteen (2 ^ 128 - 1 - n) (omega arith)
    ∙ high_bit (2 ^ 128 - 1 - n) (omega arith) (omega arith)
    ∙ ap negsuc (omega arith)

-- The text of any integer of 128 bits at a negative scale is sent as sixteen bytes that are read
-- back as the same text, if trimming keeps texts of visible characters.
pub string_to_int128_err-scaled_big_int :
    (trim_space : Bytes → Bytes) (v : ℤ) (n : ℕ)
    → Keeps trim_space
    → IsInt128 v
    → (bs : Bytes) × (string_to_int128_err trim_space (scaled_big_int v (negsuc n)) (negsuc n)
        ≡ inr bs)
      × (int128_text bs (negsuc n) ≡ scaled_big_int v (negsuc n))
unfolding string_to_int128_err as_int128 int128_text
string_to_int128_err-scaled_big_int trim_space v n keeps h = (
  int128_bytes v,
  ap as_int128 (decimal_string_to_scaled_big_int-scaled_big_int trim_space v n keeps),
  ap (λ x. scaled_big_int x (negsuc n)) (decode_int128-int128_bytes v h),
)

-- An integer from 2 ^ 127 on and below 2 ^ 128 is not refused: its text at a negative scale is
-- sent without an error as the bytes of the negative integer 2 ^ 128 below it, if trimming keeps
-- texts of visible characters.
pub string_to_int128_err-too_large :
    (trim_space : Bytes → Bytes) (v n : ℕ)
    → Keeps trim_space
    → 2 ^ 127 ≤ v
    → v < 2 ^ 128
    → (bs : Bytes) × (string_to_int128_err trim_space (scaled_big_int (pos v) (negsuc n)) (negsuc n)
        ≡ inr bs)
      × (decode_int128 bs ≡ negsuc (2 ^ 128 - 1 - v))
unfolding string_to_int128_err as_int128 int128_bytes
string_to_int128_err-too_large trim_space v n keeps l u = (
  last16 (big_bytes (pos v)),
  ap as_int128 (decimal_string_to_scaled_big_int-scaled_big_int trim_space (pos v) n keeps),
  decode-sixteen v u ∙ high_bit v l u,
)
