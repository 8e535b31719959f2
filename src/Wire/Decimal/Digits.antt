-- ===== src/Wire/Decimal/Digits.antt =====
-- Decimal digits and the number that they stand for.
use go_firebird_driver.Prelude.{
  ℕ, zero, suc, ◌+◌, ◌-◌, ◌*◌, ◌/◌, ◌%◌, ◌≤◌, ◌≡◌, refl, ◌∙◌, ap, arith, false, [], ◌∷◌, ◌++◌,
  length, ◌==◌, All, Bool-cases, inl, inr,
}
use go_firebird_driver.Prelude.Bytes.{Bytes}
use go_firebird_driver.Wire.Decimal.{number_from, number, without_zeros}
use go_firebird_driver.Wire.Decimal.Print.{fill_digits, format_uint, repeat_zeros}

abbrev pub IsDigit : ℕ → Type 0
IsDigit d = (48 ≤ d) × (d ≤ 57)

pub number_from-append :
    (acc : ℕ) (xs ys : Bytes) → number_from acc (xs ++ ys) ≡ number_from (number_from acc xs) ys
unfolding number_from
number_from-append acc [] ys = refl
number_from-append acc (x ∷ xs) ys = number_from-append (acc * 10 + (x - 48)) xs ys

-- The digits put in front are read in front.
number-fill_digits :
    (fuel v : ℕ) (buf : Bytes) → v ≤ fuel → number (fill_digits fuel v buf) ≡ number_from v buf
unfolding fill_digits number_from
number-fill_digits zero v buf h = ap (λ x. number_from x buf) (omega (arith, h))
number-fill_digits (suc fuel) v buf h = elim (Bool-cases (v == 0)) [
  | inl e ↦ rw e (ap (λ x. number_from x buf) (ground (arith, e)))
  | inr e ↦ rw e (
      number-fill_digits fuel (v / 10) ((48 + v % 10) ∷ buf) (ground (arith, e, h))
      ∙ ap (λ x. number_from x buf) (omega arith))
]

pub number-format_uint : (u : ℕ) → number (format_uint u) ≡ u
unfolding format_uint number_from
number-format_uint u = elim (Bool-cases (u == 0)) [
  | inl e ↦ rw e (ground (arith, e))
  | inr e ↦ rw e (number-fill_digits u u [] (omega arith))
]

fill_digits-All :
    (fuel v : ℕ) (buf : Bytes) → All IsDigit buf → All IsDigit (fill_digits fuel v buf)
unfolding fill_digits
fill_digits-All zero v buf h = h
fill_digits-All (suc fuel) v buf h = elim (Bool-cases (v == 0)) [
  | inl e ↦ rw e h
  | inr e ↦
      rw e (fill_digits-All fuel (v / 10) ((48 + v % 10) ∷ buf) ((omega arith, omega arith), h))
]

pub format_uint-All : (u : ℕ) → All IsDigit (format_uint u)
unfolding format_uint
format_uint-All u = elim (Bool-cases (u == 0)) [
  | inl e ↦ rw e ((omega arith, omega arith), tt)
  | inr e ↦ rw e (fill_digits-All u u [] tt)
]

pub number-without_zeros : (ds : Bytes) → number (without_zeros ds) ≡ number ds
unfolding without_zeros number_from
number-without_zeros [] = refl
number-without_zeros (d ∷ []) = refl
number-without_zeros (d ∷ e ∷ ds) = elim (Bool-cases (d == 48)) [
  | inl q ↦
      let z : d ≡ 48 = ground (arith, q) in
      rw q (
        number-without_zeros (e ∷ ds) ∙ ap (λ x. number_from x (e ∷ ds)) {x = 0} (omega (arith, z)))
  | inr q ↦ rw q refl
]

pub number-repeat_zeros : (n : ℕ) (ds : Bytes) → number (repeat_zeros n ++ ds) ≡ number ds
unfolding number_from
number-repeat_zeros zero ds = refl
number-repeat_zeros (suc n) ds = number-repeat_zeros n ds

pub repeat_zeros-All : (n : ℕ) → All IsDigit (repeat_zeros n)
repeat_zeros-All zero = tt
repeat_zeros-All (suc n) = ((omega arith, omega arith), repeat_zeros-All n)

fill_digits-length : (fuel v : ℕ) (buf : Bytes) → length buf ≤ length (fill_digits fuel v buf)
unfolding fill_digits
fill_digits-length zero v buf = omega arith
fill_digits-length (suc fuel) v buf =
    let ih = fill_digits-length fuel (v / 10) ((48 + v % 10) ∷ buf) in
    elim (Bool-cases (v == 0)) [ inl e ↦ rw e (omega arith) | inr e ↦ rw e (omega (arith, ih)) ]

filled : (n : ℕ) → 1 ≤ n → 1 ≤ length (fill_digits n n [])
unfolding fill_digits
filled zero h = absurd (omega arith)
filled (suc n) h =
    let e : (suc n == 0) ≡ false = ground arith in
    rw e (omega (arith, fill_digits-length n (suc n / 10) ((48 + suc n % 10) ∷ [])))

-- A number has a digit at least.
pub length-format_uint : (u : ℕ) → 1 ≤ length (format_uint u)
unfolding format_uint
length-format_uint u = elim (Bool-cases (u == 0)) [
  | inl e ↦ rw e (omega arith)
  | inr e ↦ rw e (filled u (ground (arith, e)))
]
