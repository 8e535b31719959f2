-- ===== src/Wire/Row/Layout.antt =====
-- A row as a server sends it, its null bits and its columns, through `DecodeRow`.
use mathlib.Core.Path.{subst}
use go_firebird_driver.Prelude.{
  ℕ, zero, suc, ◌+◌, ◌/◌, ◌%◌, ◌^◌, ◌≤◌, ◌<◌, ◌≡◌, refl, sym, ◌∙◌, ap, arith, Bool, true, false,
  not, List, [], ◌∷◌, ◌++◌, none, length, length-take, length-replicate, replicate, take, drop,
  get_or, append_assoc, leb, ltb, ◌==◌, if◌then◌else◌, Bool-cases, inl, inr, ◌*◌,
}
use go_firebird_driver.Prelude.Bytes.{Bytes, is_empty}
use go_firebird_driver.Wire.Reader.{Reader, read_full, read_view}
use go_firebird_driver.Wire.Reader.Filling.{Holds}
use go_firebird_driver.Wire.Info.{ColumnDescriptor}
use go_firebird_driver.Wire.Row.{
  Value, null_value, decode_column, byte_count, padded_count, read_null_bitset_into, is_null,
  decode_columns, decode_row,
}
use go_firebird_driver.Wire.Row.Column.{read_view-plain}
use go_firebird_driver.Wire.Row.Types.{Sends}
use go_firebird_driver.Wire.Row.Types.Carried.{decode_column-Sends}

abbrev bit : ℕ → ℕ → Bool
bit b k = not (b / 2 ^ k % 2 == 0)

-- The bits of a row's null bitset, the lowest of each byte first.
abbrev pub bits : Bytes → List Bool
bits [] = []
bits (b ∷ bs) =
    bit b 0 ∷ bit b 1 ∷ bit b 2 ∷ bit b 3 ∷ bit b 4 ∷ bit b 5 ∷ bit b 6 ∷ bit b 7 ∷ bits bs

is_null-first : (b : ℕ) (bs : Bytes) (i : ℕ) → i < 8 → is_null (b ∷ bs) i ≡ bit b i
unfolding is_null
is_null-first b bs i h =
    let e : i / 8 ≡ 0 = omega arith in
    let f : i % 8 ≡ i = omega arith in
    let g : leb (length (b ∷ bs)) 0 ≡ false = ground arith in rw (e, f, g) refl

is_null-later : (b : ℕ) (bs : Bytes) (i : ℕ) → is_null (b ∷ bs) (8 + i) ≡ is_null bs i
unfolding is_null
is_null-later b bs i =
    let e : (8 + i) / 8 ≡ suc (i / 8) = omega arith in
    let f : (8 + i) % 8 ≡ i % 8 = omega arith in
    let g : leb (length (b ∷ bs)) (suc (i / 8)) ≡ leb (length bs) (i / 8) = ground arith in
    rw (e, f, g) refl

is_null-nothing : (i : ℕ) → is_null [] i ≡ false
unfolding is_null
is_null-nothing i = ground arith

is_null-bits : (bs : Bytes) (i : ℕ) → is_null bs i ≡ get_or (bits bs) i false
is_null-bits [] i = is_null-nothing i
is_null-bits (b ∷ bs) zero = is_null-first b bs 0 (omega arith)
is_null-bits (b ∷ bs) (suc zero) = is_null-first b bs 1 (omega arith)
is_null-bits (b ∷ bs) (suc (suc zero)) = is_null-first b bs 2 (omega arith)
is_null-bits (b ∷ bs) (suc (suc (suc zero))) = is_null-first b bs 3 (omega arith)
is_null-bits (b ∷ bs) (suc (suc (suc (suc zero)))) = is_null-first b bs 4 (omega arith)
is_null-bits (b ∷ bs) (suc (suc (suc (suc (suc zero))))) = is_null-first b bs 5 (omega arith)
is_null-bits (b ∷ bs) (suc (suc (suc (suc (suc (suc zero)))))) = is_null-first b bs 6 (omega arith)
is_null-bits (b ∷ bs) (suc (suc (suc (suc (suc (suc (suc zero))))))) =
    is_null-first b bs 7 (omega arith)
is_null-bits (b ∷ bs) (suc (suc (suc (suc (suc (suc (suc (suc i)))))))) =
    ap (is_null (b ∷ bs)) (omega arith) ∙ is_null-later b bs i ∙ is_null-bits bs i

-- The bytes behind the bits that the columns use do not matter.
is_null-take :
    (bs : Bytes) (n i : ℕ)
    → byte_count n ≤ length bs
    → i < n
    → is_null (take (byte_count n) bs) i ≡ is_null bs i
unfolding is_null
is_null-take bs n i h l =
    let m = byte_count n in
    let a : leb (length (take m bs)) (i / 8) ≡ false = ground (arith, length-take m bs, h, l) in
    let b : leb (length bs) (i / 8) ≡ false = ground (arith, h, l) in
    rw (a, b, get_or-take bs m (i / 8) (omega arith)) refl
  where
    get_or-take : (bs : Bytes) (m k : ℕ) → k < m → get_or (take m bs) k 0 ≡ get_or bs k 0
    get_or-take bs zero k h = absurd (omega arith)
    get_or-take [] (suc m) k h = refl
    get_or-take (b ∷ bs) (suc m) zero h = refl
    get_or-take (b ∷ bs) (suc m) (suc k) h = get_or-take bs m k (omega arith)

-- The bytes of the columns from `i` on with their values: nothing for a column whose bit is set.
pub data SendsRow (null : ℕ → Bool) : ℕ → List ColumnDescriptor → Bytes → List Value → Type 0 where
  row_end : {i : ℕ} → SendsRow null i [] [] []
  row_null :
      {i : ℕ} {d : ColumnDescriptor} {ds : List ColumnDescriptor} {bs : Bytes} {vs : List Value}
      → null i ≡ true
      → SendsRow null (suc i) ds bs vs
      → SendsRow null i (d ∷ ds) bs (null_value ∷ vs)
  row_value :
      {i : ℕ} {d : ColumnDescriptor} {ds : List ColumnDescriptor} {bs : Bytes} {vs : List Value}
      {b : Bytes} {v : Value}
      → null i ≡ false
      → Sends d (d.sql_type / 2 * 2) b v
      → SendsRow null (suc i) ds bs vs
      → SendsRow null i (d ∷ ds) (b ++ bs) (v ∷ vs)

decode_columns-SendsRow :
    (bitset : Bytes) (null : ℕ → Bool) (i : ℕ) (ds : List ColumnDescriptor) (bs : Bytes)
    (vs : List Value) (r : Reader) (rest : Bytes)
    → ((j : ℕ) → j < i + length ds → is_null bitset j ≡ null j)
    → SendsRow null i ds bs vs
    → Holds r (bs ++ rest)
    → ((decode_columns bitset i ds r).0 ≡ vs) × Holds (decode_columns bitset i ds r).1 rest
unfolding decode_columns
decode_columns-SendsRow bitset null i _ _ _ r rest agree SendsRow.row_end h = (refl, h)
decode_columns-SendsRow bitset null i _ _ _ r rest agree
      (SendsRow.row_null {ds = ds} {bs = bs} {vs = vs} e row) h =
    let n = agree i (omega arith) ∙ e in
    let (q, h') =
      decode_columns-SendsRow bitset null (suc i) ds bs vs r rest
        (λ j l. agree j (omega (arith, l))) row h in
    rw n (ap (λ x. null_value ∷ x) q, h')
decode_columns-SendsRow bitset null i _ _ _ r rest agree
      (SendsRow.row_value {d = d} {ds = ds} {bs = bs} {vs = vs} {b = b} {v = v} e s row) h =
    let n = agree i (omega arith) ∙ e in
    let (p, h1) =
      decode_column-Sends d b v r (bs ++ rest) s (subst (Holds r) (append_assoc b bs rest) h) in
    let (q, h2) =
      decode_columns-SendsRow bitset null (suc i) ds bs vs (decode_column d r).1 rest
        (λ j l. agree j (omega (arith, l))) row h1 in
    rw n (
      ap (λ x. x ∷ (decode_columns bitset (suc i) ds (decode_column d r).1).0) p
          ∙ ap (λ x. v ∷ x) q,
      h2,
    )

read_full-clear : (r : Reader) (n : ℕ) → 1 ≤ n → r.err ≡ none → read_full r n ≡ read_view r n
unfolding read_full
read_full-clear r n h e = ground (arith, h, e)

read_full_none : (r : Reader) → read_full r 0 ≡ ([], r)
unfolding read_full
read_full_none r = refl

is_empty-false : (bs : Bytes) → 1 ≤ length bs → is_empty bs ≡ false
is_empty-false [] h = absurd (omega arith)
is_empty-false (b ∷ bs) h = refl

empty : (bs : Bytes) → length bs ≡ 0 → bs ≡ []
empty [] h = refl
empty (b ∷ bs) h = absurd (omega arith)

-- The bytes that are read are the bitset, also where there are none.
read_full-bitset :
    (r : Reader) (k : ℕ) (bitset rest buf : Bytes)
    → length bitset ≡ k
    → length buf ≡ k
    → Holds r (bitset ++ rest)
    → ((if is_empty (read_full r k).0 then buf else (read_full r k).0) ≡ bitset)
      × Holds (read_full r k).1 rest
read_full-bitset r zero bitset rest buf l m h =
    let e = empty bitset l in
    rw (read_full_none r) (empty buf m ∙ sym e, subst (λ x. Holds r (x ++ rest)) e h)
read_full-bitset r (suc k) bitset rest buf l m h =
    let (e, h') = read_view-plain r bitset rest (suc k) l h in
    let c = read_full-clear r (suc k) (omega arith) h.clear in
    let f : is_empty (read_view r (suc k)).0 ≡ false =
      ap (λ x. is_empty x) e ∙ is_empty-false bitset (omega (arith, l)) in
    rw (c, f) (e, h')

read_null_bitset_into-Holds :
    (r : Reader) (n : ℕ) (bitset rest buf : Bytes)
    → length bitset ≡ padded_count n
    → length buf ≡ padded_count n
    → Holds r (bitset ++ rest)
    → ((read_null_bitset_into r n buf).0 ≡ bitset) × Holds (read_null_bitset_into r n buf).1 rest
unfolding read_null_bitset_into
read_null_bitset_into-Holds r n bitset rest buf l m h =
    read_full-bitset r (padded_count n) bitset rest buf l m h

-- The bytes of the null bitset of `n` columns: four for every 32 columns.
abbrev pub bitset_size : ℕ → ℕ
bitset_size n = (n + 31) / 32 * 4

padded_count_lem : (n : ℕ) → padded_count n ≡ bitset_size n
padded_count_lem n = omega arith

abbrev pub null_bits : Bytes → ℕ → Bool
null_bits bitset i = get_or (bits bitset) i false

length-buf :
    (null_buf : Bytes) (k : ℕ)
    → length (if ltb (length null_buf) k then replicate k 0 else take k null_buf) ≡ k
length-buf null_buf k = elim (Bool-cases (ltb (length null_buf) k)) [
  | inl e ↦ rw e (length-replicate {A = ℕ} k 0)
  | inr e ↦ rw e (ground (arith, e, length-take k null_buf))
]

decode_row-clear :
    (r : Reader) (descs : List ColumnDescriptor) (null_buf : Bytes) (row : List Value) (buf : Bytes)
    → length descs ≤ length row
    → (if ltb (length null_buf) (padded_count (length descs))
        then replicate (padded_count (length descs)) 0
        else take (padded_count (length descs)) null_buf)
      ≡ buf
    → (decode_columns
        (take (byte_count (length descs)) (read_null_bitset_into r (length descs) buf).0)
        0
        descs
        (read_null_bitset_into r (length descs) buf).1).1.err
      ≡ none
    → decode_row r descs null_buf row ≡ record {
      failure = none;
      row =
          (decode_columns
            (take (byte_count (length descs)) (read_null_bitset_into r (length descs) buf).0)
            0
            descs
            (read_null_bitset_into r (length descs) buf).1).0
          ++ drop (length descs) row;
      reader =
          (decode_columns
            (take (byte_count (length descs)) (read_null_bitset_into r (length descs) buf).0)
            0
            descs
            (read_null_bitset_into r (length descs) buf).1).1;
    }
unfolding decode_row
decode_row-clear r descs null_buf row buf h e c =
    let k : ltb (length row) (length descs) ≡ false = ground (arith, h) in rw (k, e, c) refl

pub decode_row-SendsRow :
    (r : Reader) (descs : List ColumnDescriptor) (null_buf bitset bs rest : Bytes)
    (row vs : List Value)
    → length descs ≤ length row
    → length bitset ≡ bitset_size (length descs)
    → SendsRow (null_bits bitset) 0 descs bs vs
    → Holds r (bitset ++ (bs ++ rest))
    → ((decode_row r descs null_buf row).failure ≡ none)
      × ((decode_row r descs null_buf row).row ≡ vs ++ drop (length descs) row)
      × Holds (decode_row r descs null_buf row).reader rest
decode_row-SendsRow r descs null_buf bitset bs rest row vs l m s h =
    let n = length descs in
    let buf =
      if ltb (length null_buf) (padded_count n)
      then replicate (padded_count n) 0
      else take (padded_count n) null_buf in
    let lb : length buf ≡ padded_count n = length-buf null_buf (padded_count n) in
    let m' = m ∙ sym (padded_count_lem n) in
    let (e, h1) = read_null_bitset_into-Holds r n bitset (bs ++ rest) buf m' lb h in
    let x = read_null_bitset_into r n buf in
    let agree : (j : ℕ) → j < 0 + n → is_null (take (byte_count n) x.0) j ≡ null_bits bitset j =
      (λ j k.
        ap (λ y. is_null (take (byte_count n) y) j) e
        ∙ is_null-take bitset n j (omega (arith, m')) (omega (arith, k))
        ∙ is_null-bits bitset j) in
    let (q, h2) =
      decode_columns-SendsRow (take (byte_count n) x.0) (null_bits bitset) 0 descs bs vs x.1 rest
        agree s h1 in
    rw (decode_row-clear r descs null_buf row buf l refl h2.clear)
      (refl, ap (λ y. y ++ drop n row) q, h2)
