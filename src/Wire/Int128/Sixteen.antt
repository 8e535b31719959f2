-- ===== src/Wire/Int128/Sixteen.antt =====
-- The sixteen bytes of an INT128 and the integer that they stand for.
use native.Mathlib.Omega.{pow_step}
use native.Mathlib.Nat.{mul-le-mul_right}
use go_firebird_driver.Prelude.{
  ℕ, zero, suc, ◌+◌, ◌-◌, ◌*◌, ◌/◌, ◌%◌, ◌^◌, ◌≤◌, ◌<◌, ◌≡◌, refl, sym, ◌∙◌, ap, arith, List, [],
  ◌∷◌, ◌++◌, inl, inr, length, length-append, length-drop, length-replicate, take, drop,
  take-append-drop, replicate, ltb, leb, ◌==◌, All, All-append, Bool-cases,
}
use go_firebird_driver.Prelude.Bytes.{Bytes, IsByte, IsBytes, at}
use go_firebird_driver.Prelude.Int.{ℤ}
use go_firebird_driver.Wire.Decimal.Print.{big_magnitude}
use go_firebird_driver.Wire.Int128.{fill_bytes, big_bytes, last16, number_of}

number_of-acc : (acc : ℕ) (bs : Bytes) → number_of acc bs ≡ acc * 256 ^ length bs + number_of 0 bs
unfolding number_of
number_of-acc acc [] = grind arith
number_of-acc acc (b ∷ bs) =
    let p = number_of-acc (acc * 256 + b) bs in
    let q : number_of 0 (b ∷ bs) ≡ b * 256 ^ length bs + number_of 0 bs =
      number_of-acc (0 * 256 + b) bs
      ∙ ap (λ x. x * 256 ^ length bs + number_of 0 bs) (omega arith) in
    let w : 256 ^ length (b ∷ bs) ≡ 256 * 256 ^ length bs = pow_step 256 (length bs) in
    p
    ∙ step acc b (256 ^ length bs) (256 ^ length (b ∷ bs)) (number_of 0 bs) (number_of 0 (b ∷ bs)) w
        q
  where
    step : (acc b p q r s : ℕ) → q ≡ 256 * p → s ≡ b * p + r → (acc * 256 + b) * p + r ≡ acc * q + s
    step acc b p q r s h k =
        let e : (acc * 256 + b) * p + r ≡ acc * (256 * p) + (b * p + r) = grind arith in
        e ∙ ap (λ x. acc * x + (b * p + r)) (sym h) ∙ ap (λ x. acc * q + x) (sym k)

number_of-bound : (bs : Bytes) → IsBytes bs → number_of 0 bs < 256 ^ length bs
unfolding number_of
number_of-bound [] h = grind arith
number_of-bound (b ∷ bs) (h, hs) =
    let p = number_of-bound bs hs in
    let q : number_of 0 (b ∷ bs) ≡ b * 256 ^ length bs + number_of 0 bs =
      number_of-acc (0 * 256 + b) bs
      ∙ ap (λ x. x * 256 ^ length bs + number_of 0 bs) (omega arith) in
    let w : 256 ^ length (b ∷ bs) ≡ 256 * 256 ^ length bs = pow_step 256 (length bs) in
    bound b (256 ^ length bs) (256 ^ length (b ∷ bs)) (number_of 0 bs) (number_of 0 (b ∷ bs)) h w q
      p
  where
    bound : (b p q r s : ℕ) → b < 256 → q ≡ 256 * p → s ≡ b * p + r → r < p → s < q
    bound b p q r s h k l m =
        let e : suc b * p ≤ 256 * p = mul-le-mul_right p h in
        let d : suc b * p ≡ b * p + p = grind arith in omega (arith, e, d, k, l, m)

number_of-append :
    (acc : ℕ) (xs ys : Bytes) → number_of acc (xs ++ ys) ≡ number_of (number_of acc xs) ys
unfolding number_of
number_of-append acc [] ys = refl
number_of-append acc (x ∷ xs) ys = number_of-append (acc * 256 + x) xs ys

number_of-fill_bytes :
    (fuel v : ℕ) (buf : Bytes) → v ≤ fuel → number_of 0 (fill_bytes fuel v buf) ≡ number_of v buf
unfolding fill_bytes number_of
number_of-fill_bytes zero v buf h = ap (λ x. number_of x buf) (omega (arith, h))
number_of-fill_bytes (suc fuel) v buf h = elim (Bool-cases (v == 0)) [
  | inl e ↦ rw e (ap (λ x. number_of x buf) (ground (arith, e)))
  | inr e ↦ rw e (
      number_of-fill_bytes fuel (v / 256) (v % 256 ∷ buf) (ground (arith, e, h))
      ∙ ap (λ x. number_of x buf) (omega arith))
]

fill_bytes-IsBytes : (fuel v : ℕ) (buf : Bytes) → IsBytes buf → IsBytes (fill_bytes fuel v buf)
unfolding fill_bytes
fill_bytes-IsBytes zero v buf h = h
fill_bytes-IsBytes (suc fuel) v buf h = elim (Bool-cases (v == 0)) [
  | inl e ↦ rw e h
  | inr e ↦ rw e (fill_bytes-IsBytes fuel (v / 256) (v % 256 ∷ buf) (omega arith, h))
]

number_of-zeros : (n : ℕ) (bs : Bytes) → number_of 0 (replicate n 0 ++ bs) ≡ number_of 0 bs
unfolding number_of
number_of-zeros zero bs = refl
number_of-zeros (suc n) bs = number_of-zeros n bs

All-drop {ℓ κ} : {A : Type ℓ} (P : A → Type κ) (n : ℕ) (xs : List A) → All P xs → All P (drop n xs)
All-drop P zero xs h = h
All-drop P (suc n) [] h = tt
All-drop P (suc n) (x ∷ xs) h = All-drop P n xs h.1

replicate-IsBytes : (n : ℕ) → IsBytes (replicate n 0)
replicate-IsBytes zero = tt
replicate-IsBytes (suc n) = (omega arith, replicate-IsBytes n)

pub last16-IsBytes : (b : Bytes) → IsBytes b → IsBytes (last16 b)
unfolding last16
last16-IsBytes b h = elim (Bool-cases (ltb 16 (length b))) [
  | inl e ↦ rw e (All-drop IsByte (length b - 16) b h)
  | inr e ↦
      rw e (All-append IsByte (replicate (16 - length b) 0) b (replicate-IsBytes (16 - length b)) h)
]

pub length-last16 : (b : Bytes) → length (last16 b) ≡ 16
unfolding last16
length-last16 b = elim (Bool-cases (ltb 16 (length b))) [
  | inl e ↦ rw e (ground (arith, e, length-drop (length b - 16) b))
  | inr e ↦ rw e (
      ground (
        arith,
        e,
        length-append (replicate (16 - length b) 0) b,
        length-replicate {A = ℕ} (16 - length b) 0,
      ))
]

-- Sixteen bytes keep a number below 2 ^ 128.
number_of-below : (bs : Bytes) → IsBytes bs → length bs ≡ 16 → number_of 0 bs < 2 ^ 128
number_of-below bs h l = omega (arith, number_of-bound bs h, ap (λ x. 256 ^ x) l)

pub number_of-last16 : (b : Bytes) → IsBytes b → number_of 0 (last16 b) ≡ number_of 0 b % 2 ^ 128
unfolding last16
number_of-last16 b h = elim (Bool-cases (ltb 16 (length b))) [
  | inl e ↦
      let k = length b - 16 in
      let l : length (drop k b) ≡ 16 = ground (arith, e, length-drop k b) in
      let n = number_of-below (drop k b) (All-drop IsByte k b h) l in
      let split =
        ap (number_of 0) (sym (take-append-drop k b))
        ∙ number_of-append 0 (take k b) (drop k b)
        ∙ number_of-acc (number_of 0 (take k b)) (drop k b)
        ∙ ap (λ x. number_of 0 (take k b) * 256 ^ x + number_of 0 (drop k b)) l in
      rw e (omega (arith, n, split))
  | inr e ↦
      let zeros = replicate (16 - length b) 0 in
      let padded = All-append IsByte zeros b (replicate-IsBytes (16 - length b)) h in
      let l : length (zeros ++ b) ≡ 16 =
        ground (arith, e, length-append zeros b, length-replicate {A = ℕ} (16 - length b) 0) in
      let n = number_of-below (zeros ++ b) padded l in
      rw e (omega (arith, n, number_of-zeros (16 - length b) b))
]

pub number_of-big_bytes : (v : ℤ) → number_of 0 (big_bytes v) ≡ big_magnitude v
unfolding big_bytes number_of
number_of-big_bytes v = number_of-fill_bytes (big_magnitude v) (big_magnitude v) [] (omega arith)

pub big_bytes-IsBytes : (v : ℤ) → IsBytes (big_bytes v)
unfolding big_bytes
big_bytes-IsBytes v = fill_bytes-IsBytes (big_magnitude v) (big_magnitude v) [] tt

-- The first bit of sixteen bytes tells whether the number has its highest bit.
pub first_bit :
    (bs : Bytes) → IsBytes bs → length bs ≡ 16 → leb 128 (at bs 0) ≡ leb (2 ^ 127) (number_of 0 bs)
unfolding number_of
first_bit [] h l = absurd (omega arith)
first_bit (b ∷ bs) (h, hs) l =
    let k : length bs ≡ 15 = omega (arith, l) in
    let p : 256 ^ length bs ≡ 256 ^ 15 = ap (λ x. 256 ^ x) k in
    let q : number_of 0 (b ∷ bs) ≡ b * 256 ^ 15 + number_of 0 bs =
      number_of-acc (0 * 256 + b) bs
      ∙ ap (λ x. (0 * 256 + b) * x + number_of 0 bs) p
      ∙ omega arith in
    let r = number_of-bound bs hs in ground (arith, p, q, r)
