-- ===== src/Wire/Numeric/Scale.antt =====
-- Scaling is exact: the overflow test of each round against the range of an int64 at the end.
use go_firebird_driver.Prelude.{
  ℕ, zero, suc, ◌+◌, ◌-◌, ◌*◌, ◌^◌, ◌≤◌, ◌<◌, ◌≡◌, refl, sym, ◌∙◌, ap, arith, Bool, true, false,
  ◌||◌, none, some, ltb, if◌then◌else◌, Bool-cases, inl, inr,
}
use go_firebird_driver.Prelude.Int.{ℤ, pos, negsuc, ltb_ℤ}
use go_firebird_driver.Wire.Numeric.{
  max_tenth, min_tenth, times_ten, scale_loop, scale_integral_int64,
}

-- 10 to the power `n`
unfoldable pub pow10 : ℕ → ℕ
pow10 zero = 1
pow10 (suc n) = 10 * pow10 n

-- `v` times 10 to the power `n`, without bounds.
abbrev pub scaled : ℕ → ℤ → ℤ
scaled n (pos m) = pos (m * pow10 n)
scaled n (negsuc m) = negsuc (suc m * pow10 n - 1)

-- The range of an int64
abbrev pub in_int64 : ℤ → Bool
in_int64 (pos m) = ltb m (2 ^ 63)
in_int64 (negsuc m) = ltb m (2 ^ 63)

pow10_positive : (n : ℕ) → 1 ≤ pow10 n
unfolding pow10
pow10_positive zero = omega arith
pow10_positive (suc n) = let h = pow10_positive n in omega arith

le_times : (k p : ℕ) → 1 ≤ p → k ≤ k * p
le_times zero p h = omega arith
le_times (suc k) p h = let i = le_times k p h in omega arith

regroup : (m p : ℕ) → m * (10 * p) ≡ m * 10 * p
regroup zero p = omega arith
regroup (suc m) p = let i = regroup m p in omega arith

scaled_step : (n : ℕ) (v : ℤ) → scaled (suc n) v ≡ scaled n (times_ten v)
unfolding pow10
scaled_step n (pos m) = ap pos (regroup m (pow10 n))
scaled_step n (negsuc m) =
    let e : suc m * 10 ≡ suc (m * 10 + 9) = omega arith in
    ap (λ x. negsuc (x - 1)) (regroup (suc m) (pow10 n) ∙ ap (λ x. x * pow10 n) e)

-- The test of a round.
abbrev overflows : ℤ → Bool
overflows v = ltb_ℤ max_tenth v || ltb_ℤ v min_tenth

overflows-scaled : (n : ℕ) (v : ℤ) → overflows v ≡ true → in_int64 (scaled (suc n) v) ≡ false
unfolding pow10
overflows-scaled n (pos m) h =
    let a : 922337203685477580 < m = ground (arith, h) in
    let b = le_times (m * 10) (pow10 n) (pow10_positive n) in
    let c : 2 ^ 63 ≤ m * (10 * pow10 n) = omega (arith, regroup m (pow10 n)) in ground (arith, c)
overflows-scaled n (negsuc m) h =
    let a : 922337203685477580 < suc m = ground (arith, h) in
    let b = le_times (suc m * 10) (pow10 n) (pow10_positive n) in
    let c : 2 ^ 63 ≤ suc m * (10 * pow10 n) - 1 = omega (arith, regroup (suc m) (pow10 n)) in
    ground (arith, c)

times_ten-in_int64 : (v : ℤ) → overflows v ≡ false → in_int64 (times_ten v) ≡ true
times_ten-in_int64 (pos m) h = ground arith
times_ten-in_int64 (negsuc m) h = ground arith

scale_loop-scaled :
    (n : ℕ) (v : ℤ)
    → in_int64 v ≡ true
    → scale_loop n v ≡ (if in_int64 (scaled n v) then some (scaled n v) else none)
unfolding scale_loop
scale_loop-scaled zero (pos m) h =
    let e : m * pow10 zero ≡ m = unfold pow10 in omega arith in rw e (rw h refl)
scale_loop-scaled zero (negsuc m) h =
    let e : suc m * pow10 zero - 1 ≡ m = unfold pow10 in omega arith in rw e (rw h refl)
scale_loop-scaled (suc n) v h = elim (Bool-cases (overflows v)) [
  | inl y ↦ rw y (rw (overflows-scaled n v y) refl)
  | inr y ↦ rw y (
      scale_loop-scaled n (times_ten v) (times_ten-in_int64 v y)
      ∙ ap (λ x. if in_int64 x then some x else none) (sym (scaled_step n v)))
]

-- The number of decimal places that a scale asks for.
abbrev pub places : ℤ → ℕ
places (pos scale) = 0
places (negsuc n) = suc n

-- An int64 is scaled to its exact multiple by the power of ten wherever that is an int64, and to
-- an overflow everywhere else; a scale that is not negative leaves it as it is.
pub scale_integral_int64-scaled :
    (v scale : ℤ)
    → in_int64 v ≡ true
    → scale_integral_int64 v scale
      ≡ (if in_int64 (scaled (places scale) v) then some (scaled (places scale) v) else none)
unfolding scale_integral_int64
scale_integral_int64-scaled v (pos scale) h = unfold scale_loop in scale_loop-scaled 0 v h
scale_integral_int64-scaled v (negsuc n) h = scale_loop-scaled (suc n) v h
