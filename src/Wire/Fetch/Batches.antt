-- ===== src/Wire/Fetch/Batches.antt =====
-- The array that the rows of a fetch are decoded into: room for one more, and a row stored behind the others.
use native.Mathlib.Nat.{div-mul-le_self}
use go_firebird_driver.Prelude.{
  ℕ, suc, ◌+◌, ◌-◌, ◌*◌, ◌/◌, ◌≤◌, ◌<◌, ◌≡◌, refl, sym, ◌∙◌, ap, arith, false, ◌&&◌, List, [], ◌∷◌,
  ◌++◌, length, length-append, length-take, length-drop, length-replicate, take, drop, take_left,
  drop_left, drop_all, drop-drop, append_assoc, append-nil, replicate, ltb, leb, ◌==◌, All,
  Bool-cases, inl, inr,
}
use go_firebird_driver.Wire.Row.{Value, null_value}
use go_firebird_driver.Wire.Fetch.{
  Batch, slices, new_capacity, grow_batch, next_row, stored, first_batch, initial_rows,
}

-- The values of rows, one row behind the other.
unfoldable pub concat : List (List Value) → List Value
concat [] = []
concat (v ∷ vs) = v ++ concat vs

concat-last : (vss : List (List Value)) (v : List Value) → concat (vss ++ v ∷ []) ≡ concat vss ++ v
unfolding concat
concat-last [] v = append-nil v
concat-last (w ∷ ws) v = ap (λ x. w ++ x) (concat-last ws v) ∙ sym (append_assoc w (concat ws) v)

abbrev pub IsRow : ℕ → List Value → Type 0
IsRow n v = length v ≡ n

length-concat :
    (n : ℕ) (vss : List (List Value)) → All (IsRow n) vss → length (concat vss) ≡ length vss * n
unfolding concat
length-concat n [] h = omega arith
length-concat n (v ∷ vs) (h, hs) =
    let e : suc (length vs) * n ≡ n + length vs * n = grind arith in
    omega (arith, h, length-concat n vs hs, length-append v (concat vs), e)

pub slices-concat :
    (n : ℕ) (vss : List (List Value)) (tail : List Value)
    → All (IsRow n) vss
    → slices (length vss) n (concat vss ++ tail) ≡ vss
unfolding slices concat
slices-concat n [] tail h = refl
slices-concat n (v ∷ vs) tail (h, hs) =
    let a = append_assoc v (concat vs) tail in
    ap (λ x. take n x ∷ slices (length vs) n (drop n x)) a
    ∙ ap (λ x. x ∷ slices (length vs) n (drop n (v ++ (concat vs ++ tail))))
        (take_left n v (concat vs ++ tail) (sym h))
    ∙ ap (λ x. v ∷ slices (length vs) n x) (drop_left n v (concat vs ++ tail) (sym h))
    ∙ ap (λ x. v ∷ x) (slices-concat n vs tail hs)

-- The batch holds these rows, and room for as many more as it counts.
pub record Filled (n : ℕ) (b : Batch) (vss : List (List Value)) : Type 0 where
  pub counted : b.count ≡ length vss
  pub tail : List Value
  pub split : b.values ≡ concat vss ++ tail
  pub spare : (b.capacity - b.count) * n ≤ length tail

-- What is in front of row `count`, and what is from there on.
front_lem :
    (n : ℕ) (b : Batch) (vss : List (List Value))
    → All (IsRow n) vss
    → (f : Filled n b vss)
    → (take (b.count * n) b.values ≡ concat vss) × (drop (b.count * n) b.values ≡ f.tail)
front_lem n b vss h f =
    let l : b.count * n ≡ length (concat vss) =
      ap (λ x. x * n) f.counted ∙ sym (length-concat n vss h) in
    (
      ap (take (b.count * n)) f.split ∙ take_left (b.count * n) (concat vss) f.tail l,
      ap (drop (b.count * n)) f.split ∙ drop_left (b.count * n) (concat vss) f.tail l,
    )

new_capacity_lem : (max_rows capacity count : ℕ) → count < new_capacity max_rows capacity count
unfolding new_capacity
new_capacity_lem max_rows capacity count = ground arith

room : (a b n : ℕ) → a ≤ b → (b - a) * n ≡ b * n - a * n
room a b n h =
    let s = b - a in
    let e : b ≡ a + s = omega arith in
    let d : (a + s) * n ≡ a * n + s * n = grind arith in omega (arith, ap (λ x. x * n) e, d)

pub grow_batch-Filled :
    (n max_rows : ℕ) (b : Batch) (vss : List (List Value))
    → 1 ≤ n
    → All (IsRow n) vss
    → Filled n b vss
    → Filled n (grow_batch n max_rows b) vss
      × ((grow_batch n max_rows b).count < (grow_batch n max_rows b).capacity)
unfolding grow_batch
grow_batch-Filled n max_rows b vss p h f =
    let c = new_capacity max_rows b.capacity b.count in
    let l = new_capacity_lem max_rows b.capacity b.count in
    let fresh = replicate (c * n - b.count * n) null_value in
    elim (Bool-cases (ltb 0 n && leb b.capacity b.count)) [
      | inl e ↦ rw e (
        record {
          counted = f.counted;
          tail = fresh;
          split = ap (λ x. x ++ fresh) (front_lem n b vss h f).0;
          spare = omega (
            arith,
            room b.count c n (omega (arith, l)),
            length-replicate {A = Value} (c * n - b.count * n) null_value,
          );
        },
        l,
      )
      | inr e ↦ rw e (f, ground (arith, e, p))
    ]

pub stored-Filled :
    (n : ℕ) (b : Batch) (vss : List (List Value)) (v : List Value)
    → All (IsRow n) vss
    → IsRow n v
    → b.count < b.capacity
    → Filled n b vss
    → (n ≤ length (next_row n b))
      × Filled n (stored n b (v ++ drop n (next_row n b))) (vss ++ v ∷ [])
unfolding stored
stored-Filled n b vss v h hv l f =
    let (e, d) = front_lem n b vss h f in
    let s = b.capacity - suc b.count in
    let q : b.capacity - b.count ≡ suc s = omega (arith, l) in
    let m : suc s * n ≡ n + s * n = grind arith in
    let t : n + s * n ≤ length f.tail = omega (arith, f.spare, ap (λ x. x * n) q, m) in
    let row = next_row n b in
    let lr : length row ≡ n =
      omega (arith, t, ap length d, length-take n (drop (b.count * n) b.values)) in
    let none_left : drop n row ≡ [] = drop_all n row (omega (arith, lr)) in
    let k : (b.count + 1) * n ≡ b.count * n + n = grind arith in
    let behind : drop ((b.count + 1) * n) b.values ≡ drop n f.tail =
      ap (λ x. drop x b.values) k ∙ sym (drop-drop n (b.count * n) b.values) ∙ ap (drop n) d in
    (
      omega (arith, lr),
      record {
        counted = omega (arith, f.counted, length-append vss (v ∷ []));
        tail = drop n f.tail;
        split =
            ap (λ x. x ++ ((v ++ drop n row) ++ drop ((b.count + 1) * n) b.values)) e
            ∙ ap (λ x. concat vss ++ ((v ++ x) ++ drop ((b.count + 1) * n) b.values)) none_left
            ∙ ap (λ x. concat vss ++ (x ++ drop ((b.count + 1) * n) b.values)) (append-nil v)
            ∙ ap (λ x. concat vss ++ (v ++ x)) behind
            ∙ sym (append_assoc (concat vss) v (drop n f.tail))
            ∙ ap (λ x. x ++ drop n f.tail) (sym (concat-last vss v));
        spare =
            omega
              (arith, t, length-drop n f.tail, ap (λ x. x * n) (spare_lem b.capacity b.count s q));
      },
    )
  where
    spare_lem : (c k s : ℕ) → c - k ≡ suc s → c - (k + 1) ≡ s
    spare_lem c k s q = omega (arith, q)

-- The buffers before the first row hold none.
pub first_batch-Filled :
    (n max_rows : ℕ) (values_buf : List Value)
    → 1 ≤ n
    → Filled n (first_batch n max_rows values_buf) []
unfolding first_batch concat
first_batch-Filled n max_rows values_buf p =
    let z : (n == 0) ≡ false = ground (arith, p) in
    elim (Bool-cases (leb (initial_rows max_rows) (length values_buf / n))) [
      | inl e ↦
          rw (z, e)
            (record {
              counted = refl;
              tail = values_buf;
              split = refl;
              spare = omega (
                arith,
                div-mul-le_self (length values_buf) n,
                ap (λ x. x * n) {x = length values_buf / n - 0} {y = length values_buf / n}
                    (omega arith),
              );
            })
      | inr e ↦
          let k = initial_rows max_rows in
          rw (z, e)
            (record {
              counted = refl;
              tail = replicate (k * n) null_value;
              split = refl;
              spare = omega (
                arith,
                length-replicate {A = Value} (k * n) null_value,
                ap (λ x. x * n) {x = k - 0} {y = k} (omega arith),
              );
            })
    ]
