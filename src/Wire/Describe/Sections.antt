-- ===== src/Wire/Describe/Sections.antt =====
-- The columns of one section, through the loop, whole or cut short.
use mathlib.Core.Path.{subst}
use go_firebird_driver.Prelude.{
  ℕ, zero, suc, ◌+◌, ◌-◌, ◌≤◌, ◌≡◌, refl, sym, ◌∙◌, ap, Bool, List, [], ◌∷◌, ◌++◌, arith, length,
  length-append, append_assoc, append-nil, map, take, get_or, set, All,
}
use go_firebird_driver.Prelude.Bytes.{Bytes}
use go_firebird_driver.Wire.Protocol.{isc_info_sql_sqlda_seq, isc_info_sql_describe_end}
use go_firebird_driver.Wire.Info.{InfoItem, ColumnDescriptor, blank_column}
use go_firebird_driver.Wire.Info.Items.{item_bytes, items_bytes}
use go_firebird_driver.Wire.Describe.{
  Section, DescribeState, Current, no_column, column, append_blank, extend, set_field, change,
}
use go_firebird_driver.Wire.Describe.Fields.{set_fields, described, set_fields-take}
use go_firebird_driver.Wire.Describe.Runs.{run, run-item, run-marker}
use go_firebird_driver.Wire.Describe.Server.{
  Settings, IsSetting, int_item, column_items, column_bytes, columns_bytes, part_bytes,
}
use go_firebird_driver.Wire.Describe.Columns.{
  on, on_item-seq, on_item-setting, on_marker-end, setting-plain,
}

set-last {ℓ} :
    {A : Type ℓ} (xs : List A) (a b : A) → set (xs ++ a ∷ []) (length xs) b ≡ xs ++ b ∷ []
set-last [] a b = refl
set-last (x ∷ xs) a b = ap (◌∷◌ x) (set-last xs a b)

get_or-last {ℓ} : {A : Type ℓ} (xs : List A) (a d : A) → get_or (xs ++ a ∷ []) (length xs) d ≡ a
get_or-last [] a d = refl
get_or-last (x ∷ xs) a d = get_or-last xs a d

length-map {ℓ κ} :
    {A : Type ℓ} {B : Type κ} (f : A → B) (xs : List A) → length (map f xs) ≡ length xs
length-map f [] = refl
length-map f (x ∷ xs) = ap suc (length-map f xs)

map-last {ℓ κ} :
    {A : Type ℓ} {B : Type κ} (f : A → B) (xs : List A) (a : A)
    → map f (xs ++ a ∷ []) ≡ map f xs ++ f a ∷ []
map-last f [] a = refl
map-last f (x ∷ xs) a = ap (◌∷◌ (f x)) (map-last f xs a)

pub All-take {ℓ κ} :
    {A : Type ℓ} (P : A → Type κ) (n : ℕ) (xs : List A) → All P xs → All P (take n xs)
All-take P zero xs h = tt
All-take P (suc n) [] h = tt
All-take P (suc n) (x ∷ xs) h = (h.0, All-take P n xs h.1)

-- A section whose last column is `c`.
unfoldable pub opened : Section → List ColumnDescriptor → ColumnDescriptor → Section
opened s cols c = record s { columns = cols ++ c ∷ [] }

change-opened :
    (f : ColumnDescriptor → ColumnDescriptor) (s : Section) (cols : List ColumnDescriptor)
    (c : ColumnDescriptor)
    → change (length cols) f (opened s cols c) ≡ opened s cols (f c)
unfolding opened
change-opened f s cols c =
    let all = cols ++ c ∷ [] in
    ap (λ x. record s { columns = set all (length cols) (f x) }) (get_or-last cols c blank_column)
    ∙ ap (λ x. record s { columns = x }) (set-last cols c (f c))

-- What a cut has left behind the described columns: nothing, or a part of the next one.
abbrev pub IsLeft : List Settings → List ColumnDescriptor → Type 0
IsLeft after [] = Unit
IsLeft [] (c ∷ cs) = ⊥
IsLeft (ss ∷ after) (c ∷ []) = set_fields ss c ≡ described ss
IsLeft (ss ∷ after) (c ∷ d ∷ cs) = ⊥

-- The section has the columns `before` and no other but a part of the first of `after`.
abbrev pub Knows : List Settings → List Settings → Section → Type 0
Knows before after s =
    (s.done ≡ length before)
    × ((left : List ColumnDescriptor) × (s.columns ≡ map described before ++ left)
        × IsLeft after left)

module _ (grow : ℕ → ℕ) where
  run-settings :
      (side : Bool) (s : Section) (st : DescribeState) (cols : List ColumnDescriptor)
      (is : List InfoItem) (c : ColumnDescriptor) (rest : Bytes)
      → All IsSetting is
      → run grow (items_bytes is ++ rest) (on side (opened s cols c) st (column (length cols)))
        ≡ run grow rest (on side (opened s cols (set_fields is c)) st (column (length cols)))
  unfolding items_bytes set_fields
  run-settings side s st cols [] c rest h = refl
  run-settings side s st cols (i ∷ is) c rest ((a, l), h) =
      let k = length cols in
      let q = setting-plain i.tag a in
      let p = on side (opened s cols c) st (column k) in
      ap (λ x. run grow x p) (append_assoc (item_bytes i) (items_bytes is) rest)
      ∙ run-item grow i (items_bytes is ++ rest) p q.0 q.1 q.2 l
      ∙ ap (run grow (items_bytes is ++ rest))
          (on_item-setting grow side (opened s cols c) st k i (a, l))
      ∙ ap (λ x. run grow (items_bytes is ++ rest) (on side x st (column k)))
          (change-opened (set_field i.tag i.value) s cols c)
      ∙ run-settings side s st cols is (set_field i.tag i.value c) rest h

  extend-Knows :
      (before : List Settings) (ss : Settings) (after : List Settings) (s : Section)
      → Knows before (ss ∷ after) s
      → (c : ColumnDescriptor) × (s' : Section) × (extend grow
            (suc (length before) - length s.columns)
            s
          ≡ opened s' (map described before) c)
        × (set_fields ss c ≡ described ss)
        × (s'.done ≡ s.done)
        × (s'.total ≡ s.total)
  unfolding extend append_blank opened
  extend-Knows before ss after s (d, ([], e, l)) =
      let e' = e ∙ append-nil (map described before) in
      let n : suc (length before) - length s.columns ≡ 1 =
        omega (arith, ap length e', length-map described before) in
      (
        blank_column,
        append_blank grow s,
        ap (λ x. extend grow x s) n
            ∙ ap (λ x. record (append_blank grow s) { columns = x ++ blank_column ∷ [] }) e',
        refl,
        refl,
        refl,
      )
  extend-Knows before ss after s (d, (c ∷ [], e, l)) =
      let n : suc (length before) - length s.columns ≡ 0 = omega (
        arith,
        ap length e,
        length-map described before,
        length-append (map described before) (c ∷ []),
      ) in
      (c, s, ap (λ x. extend grow x s) n ∙ ap (λ x. record s { columns = x }) e, l, refl, refl)
  extend-Knows before ss after s (d, (c ∷ (_ ∷ _), e, l)) = elim l [ ]

  -- The loop goes from the bytes to a parser in the same section of the same state.
  unfoldable pub Reads : Bool → Bytes → Section → DescribeState → Section → Current → Type 0
  Reads side bytes s st s' c =
      (rest : Bytes)
      → run grow (bytes ++ rest) (on side s st no_column) ≡ run grow rest (on side s' st c)

  -- The first items of a column.
  run-items :
      (side : Bool) (s : Section) (st : DescribeState) (before : List Settings) (ss : Settings)
      (after : List Settings) (is : List InfoItem)
      → suc (length before) ≤ 4096
      → suc (length before) ≤ s.total
      → All IsSetting is
      → Knows before (ss ∷ after) s
      → (c : ColumnDescriptor) × (s' : Section) × Reads side
          (items_bytes (column_items (suc (length before)) is))
          s
          st
          (opened s' (map described before) (set_fields is c))
          (column (length before))
        × (set_fields ss c ≡ described ss)
        × (s'.done ≡ s.done)
        × (s'.total ≡ s.total)
  unfolding Reads items_bytes column_items
  run-items side s st before ss after is h m a w =
      let (c, s', e, p, d, t) = extend-Knows before ss after s w in
      let k = length before in
      let i = int_item isc_info_sql_sqlda_seq (suc k) in
      let cols = map described before in
      let reads = λ (rest : Bytes).
        ap (λ x. run grow x (on side s st no_column))
          (append_assoc (item_bytes i) (items_bytes is) rest)
        ∙ run-item grow i (items_bytes is ++ rest) (on side s st no_column) refl refl refl
            (omega arith)
        ∙ ap (run grow (items_bytes is ++ rest)) (on_item-seq grow side s st k h m)
        ∙ ap (λ x. run grow (items_bytes is ++ rest) (on side x st (column k))) e
        ∙ ap (λ x. run grow (items_bytes is ++ rest) (on side (opened s' cols c) st (column x)))
            (sym (length-map described before))
        ∙ run-settings side s' st cols is c rest a
        ∙ ap (λ x. run grow rest (on side (opened s' cols (set_fields is c)) st (column x)))
            (length-map described before) in
      (c, s', reads, p, d, t)

  -- The next column, whole.
  run-column :
      (side : Bool) (s : Section) (st : DescribeState) (before : List Settings) (ss : Settings)
      (after : List Settings)
      → suc (length before) ≤ 4096
      → suc (length before) ≤ s.total
      → All IsSetting ss
      → Knows before (ss ∷ after) s
      → (s' : Section) × Reads side (column_bytes (suc (length before)) ss) s st s' no_column
        × (s'.total ≡ s.total)
        × Knows (before ++ ss ∷ []) after s'
  unfolding Reads column_bytes opened
  run-column side s st before ss after h m a w =
      let (c, s', reads, p, d, t) = run-items side s st before ss after ss h m a w in
      let k = length before in
      let cols = map described before in
      let whole = record s' { columns = cols ++ described ss ∷ []; done = suc s'.done } in
      let bytes = items_bytes (column_items (suc k) ss) in
      let q : opened s' cols (set_fields ss c) ≡ opened s' cols (described ss) =
        ap (opened s' cols) p in
      let ends = λ (rest : Bytes).
        ap (λ x. run grow x (on side s st no_column))
          (append_assoc bytes (isc_info_sql_describe_end ∷ []) rest)
        ∙ reads (isc_info_sql_describe_end ∷ rest)
        ∙ ap (λ x. run grow (isc_info_sql_describe_end ∷ rest) (on side x st (column k))) q
        ∙ run-marker grow isc_info_sql_describe_end rest
            (on side (opened s' cols (described ss)) st (column k)) refl refl refl
        ∙ ap (run grow rest) (on_marker-end grow side (opened s' cols (described ss)) st k) in
      (
        whole,
        ends,
        t,
        (
          omega (arith, d, w.0, length-append before (ss ∷ [])),
          (
            [],
            sym (append-nil (map described (before ++ ss ∷ [])) ∙ map-last described before ss),
            tt,
          ),
        ),
      )

  -- Columns, whole, one after the other.
  pub run-columns :
      (now : List Settings) (side : Bool) (s : Section) (st : DescribeState)
      (before later : List Settings)
      → length before + length now ≤ 4096
      → length before + length now ≤ s.total
      → All (All IsSetting) now
      → Knows before (now ++ later) s
      → (s' : Section) × Reads side (columns_bytes (length before) now) s st s' no_column
        × (s'.total ≡ s.total)
        × Knows (before ++ now) later s'
  unfolding Reads columns_bytes
  run-columns [] side s st before later h m a w =
      (s, λ rest. refl, refl, subst (λ x. Knows x later s) (sym (append-nil before)) w)
  run-columns (ss ∷ now) side s st before later h m (a, as_) w =
      let (s1, r1, t1, w1) =
        run-column side s st before ss (now ++ later) (omega arith) (omega arith) a w in
      let l = length-append before (ss ∷ []) in
      let (s2, r2, t2, w2) =
        run-columns now side s1 st (before ++ ss ∷ []) later (omega (arith, l))
          (omega (arith, l, t1)) as_ w1 in
      let k = length before in
      let l' : length (before ++ ss ∷ []) ≡ suc k = omega (arith, l) in
      let bytes = columns_bytes (suc k) now in
      let reads = λ (rest : Bytes).
        ap (λ x. run grow x (on side s st no_column))
          (append_assoc (column_bytes (suc k) ss) bytes rest)
        ∙ r1 (bytes ++ rest)
        ∙ ap (λ x. run grow (columns_bytes x now ++ rest) (on side s1 st no_column)) (sym l')
        ∙ r2 rest in
      (s2, reads, t2 ∙ t1, subst (λ x. Knows x later s2) (append_assoc before (ss ∷ []) now) w2)

  -- A part of the next column, where there is one.
  pub run-part :
      (j : ℕ) (side : Bool) (s : Section) (st : DescribeState) (before after : List Settings)
      → length before + length after ≤ 4096
      → length before + length after ≤ s.total
      → All (All IsSetting) after
      → Knows before after s
      → (c : Current) × (s' : Section) × Reads side (part_bytes (length before) j after) s st s' c
        × Knows before after s'
  unfolding Reads part_bytes opened column_items items_bytes
  run-part j side s st before [] h m a w = (no_column, s, λ rest. refl, w)
  run-part zero side s st before (ss ∷ after) h m a w = (no_column, s, λ rest. refl, w)
  run-part (suc j) side s st before (ss ∷ after) h m (a, as_) w =
      let (c, s', reads, p, d, t) =
        run-items side s st before ss after (take j ss) (omega arith) (omega arith)
          (All-take IsSetting j ss a) w in
      let part = set_fields (take j ss) c in
      (
        column (length before),
        opened s' (map described before) part,
        reads,
        (d ∙ w.0, (part ∷ [], refl, set_fields-take j ss c ∙ p)),
      )
