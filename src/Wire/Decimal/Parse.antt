-- ===== src/Wire/Decimal/Parse.antt =====
-- Written decimal numbers through `parseDecimalStringStrict`.
use go_firebird_driver.Prelude.{
  ℕ, suc, ◌+◌, ◌≤◌, ◌≡◌, refl, sym, ◌∙◌, ap, arith, Bool, true, false, [], ◌∷◌, ◌++◌, Option, none,
  some, length, length-append, append_assoc, append-nil, ◌==◌, if◌then◌else◌, All, Bool-cases, inl,
  inr,
}
use go_firebird_driver.Prelude.Bytes.{Bytes}
use go_firebird_driver.Prelude.Int.{ℤ, pos, ◌+ℤ◌, ◌-ℤ◌}
use go_firebird_driver.Wire.Decimal.{
  Decimal, minus, plus, dot, is_digit, is_int64, wrap64, mantissa, digits_of, number, signed,
  sign_of, exponent, without_zeros, with_exponent, with_mantissa, parse_trimmed, parse_signed,
  add_exponent, after_sign,
}
use go_firebird_driver.Wire.Decimal.Digits.{IsDigit}

pub data Sign : Type 0 where
  no_sign plus_sign minus_sign : Sign

abbrev pub sign_bytes : Sign → Bytes
sign_bytes Sign.no_sign = []
sign_bytes Sign.plus_sign = plus ∷ []
sign_bytes Sign.minus_sign = minus ∷ []

abbrev pub is_minus : Sign → Bool
is_minus Sign.minus_sign = true
is_minus s = false

-- An exponent under `E` or under `e`.
pub record Exponent : Type 0 where
  pub capital : Bool
  pub sign : Sign
  pub digits : Bytes

-- A number as it is written.
pub record Written : Type 0 where
  pub sign : Sign
  pub whole : Bytes
  pub fraction : Option Bytes
  pub power : Option Exponent

unfoldable pub fraction_bytes : Option Bytes → Bytes
fraction_bytes none = []
fraction_bytes (some ds) = dot ∷ ds

unfoldable pub power_bytes : Option Exponent → Bytes
power_bytes none = []
power_bytes (some e) = (if e.capital then 69 else 101) ∷ (sign_bytes e.sign ++ e.digits)

unfoldable pub text : Written → Bytes
text w = sign_bytes w.sign ++ (w.whole ++ (fraction_bytes w.fraction ++ power_bytes w.power))

abbrev pub fraction_digits : Option Bytes → Bytes
fraction_digits none = []
fraction_digits (some ds) = ds

abbrev pub exponent_value : Exponent → ℤ
exponent_value e = signed (is_minus e.sign) (number e.digits)

abbrev pub IsPower : Option Exponent → Type 0
IsPower none = Unit
IsPower (some e) =
    All IsDigit e.digits × (1 ≤ length e.digits) × (is_int64 (exponent_value e) ≡ true)

-- At least one digit, and an exponent of 64 bits.
abbrev pub IsWritten : Written → Type 0
IsWritten w =
    All IsDigit w.whole
    × All IsDigit (fraction_digits w.fraction)
    × (1 ≤ length w.whole + length (fraction_digits w.fraction))
    × IsPower w.power

-- The exponent of the last digit.
abbrev pub total_exponent : ℕ → Option Exponent → ℤ
total_exponent n none = pos 0 -ℤ pos n
total_exponent n (some e) = wrap64 (pos 0 -ℤ pos n +ℤ exponent_value e)

abbrev pub meant : Written → Decimal
meant w = record {
  negative = is_minus w.sign;
  digits = without_zeros (w.whole ++ fraction_digits w.fraction);
  exp = total_exponent (length (fraction_digits w.fraction)) w.power;
}

mantissa-digits :
    (ds rest digits : Bytes) (n : ℕ) (seen : Bool)
    → All IsDigit ds
    → mantissa (ds ++ rest) digits n seen
      ≡ mantissa rest (digits ++ ds) (if seen then n + length ds else n) seen
unfolding mantissa
mantissa-digits [] rest digits n true h =
    ap (λ x. mantissa rest x n true) (sym (append-nil digits))
    ∙ ap (λ x. mantissa rest (digits ++ []) x true) (omega arith)
mantissa-digits [] rest digits n false h =
    ap (λ x. mantissa rest x n false) (sym (append-nil digits))
mantissa-digits (d ∷ ds) rest digits n true ((a, b), h) =
    let q : is_digit d ≡ true = ground (arith, a, b) in
    rw q (
      mantissa-digits ds rest (digits ++ d ∷ []) (suc n) true h
      ∙ ap (λ x. mantissa rest x (suc n + length ds) true) (append_assoc digits (d ∷ []) ds)
      ∙ ap (λ x. mantissa rest (digits ++ d ∷ ds) x true) (omega arith))
mantissa-digits (d ∷ ds) rest digits n false ((a, b), h) =
    let q : is_digit d ≡ true = ground (arith, a, b) in
    rw q (
      mantissa-digits ds rest (digits ++ d ∷ []) n false h
      ∙ ap (λ x. mantissa rest x n false) (append_assoc digits (d ∷ []) ds))

mantissa-power :
    (e : Option Exponent) (digits : Bytes) (n : ℕ) (seen : Bool)
    → mantissa (power_bytes e) digits n seen ≡ some (digits, n, power_bytes e)
unfolding mantissa power_bytes
mantissa-power none digits n seen = refl
mantissa-power (some e) digits n seen = elim (Bool-cases e.capital) [
  | inl q ↦ rw q refl
  | inr q ↦ rw q refl
]

digits_of-All : (ds : Bytes) → All IsDigit ds → digits_of ds ≡ (ds, [])
unfolding digits_of
digits_of-All [] h = refl
digits_of-All (d ∷ ds) ((a, b), h) =
    let q : is_digit d ≡ true = ground (arith, a, b) in rw (q, digits_of-All ds h) refl

sign_of-digits :
    (s : Sign) (ds : Bytes) → All IsDigit ds → sign_of (sign_bytes s ++ ds) ≡ (is_minus s, ds)
unfolding sign_of
sign_of-digits Sign.no_sign [] h = refl
sign_of-digits Sign.no_sign (d ∷ ds) ((a, b), h) = ground (arith, a, b)
sign_of-digits Sign.plus_sign ds h = refl
sign_of-digits Sign.minus_sign ds h = refl

sign_of-body :
    (s : Sign) (whole : Bytes) (fraction : Option Bytes) (rest : Bytes)
    → All IsDigit whole
    → 1 ≤ length whole + length (fraction_digits fraction)
    → sign_of (sign_bytes s ++ (whole ++ (fraction_bytes fraction ++ rest)))
      ≡ (is_minus s, whole ++ (fraction_bytes fraction ++ rest))
unfolding sign_of fraction_bytes
sign_of-body Sign.plus_sign whole fraction rest a h = refl
sign_of-body Sign.minus_sign whole fraction rest a h = refl
sign_of-body Sign.no_sign [] none rest a h = absurd (omega arith)
sign_of-body Sign.no_sign [] (some ds) rest a h = refl
sign_of-body Sign.no_sign (d ∷ ds) fraction rest ((a, b), c) h = ground (arith, a, b)

mantissa-fraction :
    (whole : Bytes) (fraction : Option Bytes) (power : Option Exponent)
    → All IsDigit whole
    → All IsDigit (fraction_digits fraction)
    → mantissa (whole ++ (fraction_bytes fraction ++ power_bytes power)) [] 0 false
      ≡ some
          (whole ++ fraction_digits fraction, length (fraction_digits fraction), power_bytes power)
unfolding fraction_bytes mantissa
mantissa-fraction whole none power a b =
    mantissa-digits whole (power_bytes power) [] 0 false a
    ∙ mantissa-power power whole 0 false
    ∙ ap (λ x. some (x, 0, power_bytes power)) (sym (append-nil whole))
mantissa-fraction whole (some ds) power a b =
    mantissa-digits whole (dot ∷ ds ++ power_bytes power) [] 0 false a
    ∙ mantissa-digits ds (power_bytes power) whole 0 true b
    ∙ ap (λ x. mantissa (power_bytes power) (whole ++ ds) x true) (omega arith)
    ∙ mantissa-power power (whole ++ ds) (length ds) true

add_exponent-power :
    (n : ℕ) (e : Exponent)
    → IsPower (some e)
    → add_exponent (pos 0 -ℤ pos n) (is_minus e.sign) (e.digits, [])
      ≡ inr (total_exponent n (some e))
unfolding add_exponent
add_exponent-power n e (a, l, r) =
    let q : (length e.digits == 0) ≡ false = ground (arith, l) in rw (q, r) refl

exponent-power :
    (n : ℕ) (power : Option Exponent)
    → IsPower power
    → exponent (pos 0 -ℤ pos n) (power_bytes power) ≡ inr (total_exponent n power)
unfolding exponent power_bytes after_sign
exponent-power n none h = refl
exponent-power n (some e) (a, l, r) =
    let exp = pos 0 -ℤ pos n in
    let signs =
      ap (after_sign exp) (sign_of-digits e.sign e.digits a)
      ∙ ap (add_exponent exp (is_minus e.sign)) (digits_of-All e.digits a)
      ∙ add_exponent-power n e (a, l, r) in
    elim (Bool-cases e.capital) [ inl c ↦ rw c signs | inr c ↦ rw c signs ]

with_mantissa-some :
    (negative : Bool) (digits rest : Bytes) (n : ℕ) (v : ℤ)
    → 1 ≤ length digits
    → exponent (pos 0 -ℤ pos n) rest ≡ inr v
    → with_mantissa negative (some (digits, n, rest))
      ≡ inr (record { negative = negative; digits = without_zeros digits; exp = v })
unfolding with_mantissa with_exponent
with_mantissa-some negative digits rest n v h e =
    let q : (length digits == 0) ≡ false = ground (arith, h) in
    rw q (ap (with_exponent negative digits) e)

-- comment
pub parse_trimmed-text : (w : Written) → IsWritten w → parse_trimmed (text w) ≡ inr (meant w)
unfolding parse_trimmed parse_signed text
parse_trimmed-text w (a, b, n, p) =
    let digits = w.whole ++ fraction_digits w.fraction in
    let k = length (fraction_digits w.fraction) in
    ap parse_signed (sign_of-body w.sign w.whole w.fraction (power_bytes w.power) a n)
    ∙ ap (with_mantissa (is_minus w.sign)) (mantissa-fraction w.whole w.fraction w.power a b)
    ∙ with_mantissa-some (is_minus w.sign) digits (power_bytes w.power) k (total_exponent k w.power)
        (omega (arith, n, length-append w.whole (fraction_digits w.fraction)))
        (exponent-power k w.power p)
