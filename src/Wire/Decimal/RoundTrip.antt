-- ===== src/Wire/Decimal/RoundTrip.antt =====
-- Scaled integers that are printed and parsed again.
use go_firebird_driver.Prelude.{
  ℕ, zero, suc, ◌-◌, ◌*◌, ◌^◌, ◌≤◌, ◌≡◌, refl, sym, ◌∙◌, ap, arith, Bool, true, false, List, [],
  ◌∷◌, ◌++◌, none, some, length, length-append, length-drop, length-replicate, append-nil, take,
  drop, take-append-drop, leb, All, All-append, Bool-cases, inl, inr,
}
use go_firebird_driver.Prelude.Bytes.{Bytes}
use go_firebird_driver.Prelude.Int.{ℤ, pos, negsuc, ◌-ℤ◌}
use go_firebird_driver.Wire.Decimal.{
  minus, dot, is_int64, wrap64, number, signed, without_zeros, parse_trimmed, shifted, at_scale,
  decimal_string_to_scaled_big_int, as_int64, decimal_string_to_scaled_int64,
}
use go_firebird_driver.Wire.Decimal.Print.{
  format_uint, repeat_zeros, add_neg, point, is_negative, unsigned_magnitude, scaled_int64,
  big_magnitude, scaled_big_int,
}
use go_firebird_driver.Wire.Decimal.Digits.{
  IsDigit, number-format_uint, format_uint-All, number-without_zeros, number-repeat_zeros,
  repeat_zeros-All, length-format_uint,
}
use go_firebird_driver.Wire.Decimal.Parse.{
  Sign, no_sign, minus_sign, is_minus, fraction_bytes, power_bytes, Written, text,
  parse_trimmed-text,
}

-- A visible character of ASCII.
abbrev pub IsVisible : ℕ → Type 0
IsVisible c = (33 ≤ c) × (c ≤ 126)

-- What strings.TrimSpace does with a text of visible characters.
abbrev pub Keeps : (Bytes → Bytes) → Type 0
Keeps trim_space = (s : Bytes) → All IsVisible s → trim_space s ≡ s

All-take {ℓ κ} : {A : Type ℓ} (P : A → Type κ) (n : ℕ) (xs : List A) → All P xs → All P (take n xs)
All-take P zero xs h = tt
All-take P (suc n) [] h = tt
All-take P (suc n) (x ∷ xs) h = (h.0, All-take P n xs h.1)

All-drop {ℓ κ} : {A : Type ℓ} (P : A → Type κ) (n : ℕ) (xs : List A) → All P xs → All P (drop n xs)
All-drop P zero xs h = h
All-drop P (suc n) [] h = tt
All-drop P (suc n) (x ∷ xs) h = All-drop P n xs h.1

digits-IsVisible : (ds : Bytes) → All IsDigit ds → All IsVisible ds
digits-IsVisible [] h = tt
digits-IsVisible (d ∷ ds) ((a, b), h) = ((omega arith, omega arith), digits-IsVisible ds h)

-- The two parts that the dot is put between.
point-parts :
    (n : ℕ) (s : Bytes)
    → All IsDigit s
    → 1 ≤ length s
    → (whole : Bytes) × (fraction : Bytes) × (point (suc n) s ≡ whole ++ dot ∷ fraction)
      × (number (whole ++ fraction) ≡ number s)
      × (length fraction ≡ suc n)
      × All IsDigit whole
      × All IsDigit fraction
unfolding point
point-parts n s a l = elim (Bool-cases (leb (length s) (suc n))) [
  | inl e ↦
      let zeros = suc n - length s in
      (
        48 ∷ [],
        repeat_zeros zeros ++ s,
        rw e refl,
        number-repeat_zeros (suc zeros) s,
        ground (arith, e, length-append (repeat_zeros zeros) s, length-replicate {A = ℕ} zeros 48),
        ((omega arith, omega arith), tt),
        All-append IsDigit (repeat_zeros zeros) s (repeat_zeros-All zeros) a,
      )
  | inr e ↦
      let k = length s - suc n in
      (
        take k s,
        drop k s,
        rw e refl,
        ap number (take-append-drop k s),
        ground (arith, e, length-drop k s),
        All-take IsDigit k s a,
        All-drop IsDigit k s a,
      )
]

abbrev sign_for : Bool → Sign
sign_for true = minus_sign
sign_for false = no_sign

shift_zero : (n : ℕ) → wrap64 (pos 0 -ℤ pos (suc n) -ℤ negsuc n) ≡ pos 0
unfolding wrap64 ◌-ℤ◌
shift_zero n = ground arith

signed_magnitude : (v : ℤ) → signed (is_negative v) (big_magnitude v) ≡ v
unfolding signed
signed_magnitude (pos n) = refl
signed_magnitude (negsuc n) = refl

abbrev written_as : Bool → Bytes → Bytes → Written
written_as negative whole fraction = record {
  sign = sign_for negative;
  whole = whole;
  fraction = some fraction;
  power = none;
}

text-written_as :
    (negative : Bool) (whole fraction : Bytes)
    → text (written_as negative whole fraction) ≡ add_neg (whole ++ dot ∷ fraction) negative
unfolding text add_neg fraction_bytes power_bytes
text-written_as true whole fraction = ap (λ x. minus ∷ (whole ++ dot ∷ x)) (append-nil fraction)
text-written_as false whole fraction = ap (λ x. whole ++ dot ∷ x) (append-nil fraction)

is_minus-sign_for : (b : Bool) → is_minus (sign_for b) ≡ b
is_minus-sign_for true = refl
is_minus-sign_for false = refl

add_neg-IsVisible : (s : Bytes) (b : Bool) → All IsVisible s → All IsVisible (add_neg s b)
unfolding add_neg
add_neg-IsVisible s true h = ((omega arith, omega arith), h)
add_neg-IsVisible s false h = h

-- A pointed text that is parsed at its own scale.
scaled-pointed :
    (trim_space : Bytes → Bytes) (negative : Bool) (whole fraction : Bytes) (n : ℕ)
    → Keeps trim_space
    → All IsDigit whole
    → All IsDigit fraction
    → length fraction ≡ suc n
    → decimal_string_to_scaled_big_int trim_space
        (add_neg (whole ++ dot ∷ fraction) negative)
        (negsuc n)
      ≡ inr (signed negative (number (whole ++ fraction)))
unfolding decimal_string_to_scaled_big_int at_scale shifted
scaled-pointed trim_space negative whole fraction n keeps a b l =
    let s = add_neg (whole ++ dot ∷ fraction) negative in
    let w = written_as negative whole fraction in
    let visible = add_neg-IsVisible (whole ++ dot ∷ fraction) negative (
      All-append IsVisible whole (dot ∷ fraction) (digits-IsVisible whole a)
        ((omega arith, omega arith), digits-IsVisible fraction b)) in
    let c = number (without_zeros (whole ++ fraction)) in
    let e : wrap64 (pos 0 -ℤ pos (length fraction) -ℤ negsuc n) ≡ pos 0 =
      ap (λ x. wrap64 (pos 0 -ℤ pos x -ℤ negsuc n)) l ∙ shift_zero n in
    ap (λ x. at_scale (negsuc n) (parse_trimmed x))
      (keeps s visible ∙ sym (text-written_as negative whole fraction))
    ∙ ap (at_scale (negsuc n)) (parse_trimmed-text w (a, b, omega (arith, l), tt))
    ∙ rw e refl
    ∙ ap (λ x. inr (signed x (c * 10 ^ 0))) (is_minus-sign_for negative)
    ∙ ap (λ x. inr (signed negative x)) (omega (arith, number-without_zeros (whole ++ fraction)))

-- comment
pub decimal_string_to_scaled_big_int-scaled_big_int :
    (trim_space : Bytes → Bytes) (v : ℤ) (n : ℕ)
    → Keeps trim_space
    → decimal_string_to_scaled_big_int trim_space (scaled_big_int v (negsuc n)) (negsuc n) ≡ inr v
unfolding scaled_big_int
decimal_string_to_scaled_big_int-scaled_big_int trim_space v n keeps =
    let u = big_magnitude v in
    let (whole, fraction, p, m, l, a, b) =
      point-parts n (format_uint u) (format_uint-All u) (length-format_uint u) in
    ap (λ x. decimal_string_to_scaled_big_int trim_space (add_neg x (is_negative v)) (negsuc n)) p
    ∙ scaled-pointed trim_space (is_negative v) whole fraction n keeps a b l
    ∙ ap (λ x. inr (signed (is_negative v) x)) (m ∙ number-format_uint u)
    ∙ ap inr (signed_magnitude v)

unsigned_magnitude-big_magnitude :
    (v : ℤ) → is_int64 v ≡ true → unsigned_magnitude v ≡ big_magnitude v
unfolding unsigned_magnitude
unsigned_magnitude-big_magnitude (pos n) h = ground (arith, h)
unsigned_magnitude-big_magnitude (negsuc n) h = ground (arith, h)

-- comment
pub scaled_int64-scaled_big_int :
    (v : ℤ) (n : ℕ) → is_int64 v ≡ true → scaled_int64 v (negsuc n) ≡ scaled_big_int v (negsuc n)
unfolding scaled_int64 scaled_big_int
scaled_int64-scaled_big_int v n h =
    ap (λ x. add_neg (point (suc n) (format_uint x)) (is_negative v))
      (unsigned_magnitude-big_magnitude v h)

-- The text that any int64 is printed as at a negative scale is parsed at that scale to the same
-- int64, if trimming keeps texts of visible characters: the smallest int64 too, and leading zeros
-- behind the dot.
pub decimal_string_to_scaled_int64-scaled_int64 :
    (trim_space : Bytes → Bytes) (v : ℤ) (n : ℕ)
    → Keeps trim_space
    → is_int64 v ≡ true
    → decimal_string_to_scaled_int64 trim_space (scaled_int64 v (negsuc n)) (negsuc n) ≡ inr v
unfolding decimal_string_to_scaled_int64 as_int64
decimal_string_to_scaled_int64-scaled_int64 trim_space v n keeps h =
    ap (λ x. as_int64 (decimal_string_to_scaled_big_int trim_space x (negsuc n)))
      (scaled_int64-scaled_big_int v n h)
    ∙ ap as_int64 (decimal_string_to_scaled_big_int-scaled_big_int trim_space v n keeps)
    ∙ rw h refl
