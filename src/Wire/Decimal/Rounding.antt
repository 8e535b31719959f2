-- ===== src/Wire/Decimal/Rounding.antt =====
-- Decimal texts with more digits than the scale keeps.
use native.Mathlib.Nat.{mod-add-div', mod-lt, pow-le-pow_right}
use go_firebird_driver.Prelude.{
  ℕ, suc, ◌+◌, ◌*◌, ◌/◌, ◌%◌, ◌^◌, ◌≤◌, ◌<◌, ◌≡◌, refl, ◌∙◌, ap, arith, false, ◌++◌, inl, inr, leb,
  Bool-cases,
}
use go_firebird_driver.Prelude.Bytes.{Bytes}
use go_firebird_driver.Prelude.Int.{ℤ, pos, negsuc, ◌-ℤ◌, ltb_ℤ}
use go_firebird_driver.Wire.Decimal.{
  Decimal, wrap64, number, signed, parse_trimmed, round_half_away, shifted, at_scale,
  decimal_string_to_scaled_big_int,
}
use go_firebird_driver.Wire.Decimal.Digits.{number-without_zeros}
use go_firebird_driver.Wire.Decimal.Parse.{
  Written, IsWritten, text, meant, is_minus, fraction_digits, parse_trimmed-text,
}

-- `q` is the nearest to `c / d`, the larger one where two are as near.
abbrev pub IsNearest : ℕ → ℕ → ℕ → Type 0
IsNearest c d q = (2 * (q * d) ≤ 2 * c + d) × (2 * c + d < 2 * (suc q * d))

round_half_away-IsNearest : (c d : ℕ) → 1 ≤ d → IsNearest c d (round_half_away c d)
unfolding round_half_away
round_half_away-IsNearest c d h =
    let m : c % d + c / d * d ≡ c = mod-add-div' c d in
    let l : c % d < d = mod-lt c (omega arith) in
    let a : suc (c / d) * d ≡ c / d * d + d = grind arith in
    let b : suc (suc (c / d)) * d ≡ c / d * d + d + d = grind arith in
    let e : c / d + 1 ≡ suc (c / d) = omega arith in
    elim (Bool-cases (leb d (c % d * 2))) [
      | inl x ↦ rw (x, e) (ground (arith, m, l, a, b, x), ground (arith, m, l, a, b, x))
      | inr x ↦ rw x (ground (arith, m, l, a, x), ground (arith, m, l, a, x))
    ]

small : (k : ℕ) → suc k < 2 ^ 63 → wrap64 (pos (suc k)) ≡ pos (suc k)
unfolding wrap64
small k l = ground arith

scaled-negsuc :
    (d : Decimal) (scale : ℤ) (k : ℕ)
    → wrap64 (d.exp -ℤ scale) ≡ negsuc k
    → suc k < 2 ^ 63
    → at_scale scale (inr d)
      ≡ inr (signed d.negative (round_half_away (number d.digits) (10 ^ suc k)))
unfolding at_scale shifted
scaled-negsuc d scale k e l =
    let f : ltb_ℤ (pos 128) (negsuc k) ≡ false = ground arith in rw (e, f, small k l) refl

-- Any written number, with a sign, a fraction and an exponent of 64 bits where it has them, that
-- has more digits than the scale keeps, fewer than 2 ^ 63 more, is converted to the nearest
-- multiple, half away from zero, if trimming leaves the text as it is.
pub decimal_string_to_scaled_big_int-IsNearest :
    (trim_space : Bytes → Bytes) (w : Written) (scale : ℤ) (k : ℕ)
    → IsWritten w
    → trim_space (text w) ≡ text w
    → wrap64 ((meant w).exp -ℤ scale) ≡ negsuc k
    → suc k < 2 ^ 63
    → (q : ℕ) × (decimal_string_to_scaled_big_int trim_space (text w) scale
        ≡ inr (signed (is_minus w.sign) q))
      × IsNearest (number (w.whole ++ fraction_digits w.fraction)) (10 ^ suc k) q
unfolding decimal_string_to_scaled_big_int
decimal_string_to_scaled_big_int-IsNearest trim_space w scale k h t e l =
    let c = number (w.whole ++ fraction_digits w.fraction) in
    (
      round_half_away c (10 ^ suc k),
      ap (λ x. at_scale scale (parse_trimmed x)) t
          ∙ ap (at_scale scale) (parse_trimmed-text w h)
          ∙ scaled-negsuc (meant w) scale k e l
          ∙ ap (λ x. inr (signed (is_minus w.sign) (round_half_away x (10 ^ suc k))))
              (number-without_zeros (w.whole ++ fraction_digits w.fraction)),
      round_half_away-IsNearest c (10 ^ suc k)
          (pow-le-pow_right {n = 10} (omega arith) {i = 0} {j = suc k} (omega arith)),
    )
