-- ===== src/Wire/Describe/Server.antt =====
-- How a server lays out the description of a statement, whole or cut short, from the columns that a request names on.
use mathlib.Core.Path.{subst}
use go_firebird_driver.Prelude.{
  ℕ, suc, ◌+◌, ◌-◌, ◌^◌, ◌≤◌, ◌<◌, ◌≡◌, refl, sym, ap, ◌∙◌, arith, Bool, true, false, Bool-cases,
  inl, inr, List, [], ◌∷◌, ◌++◌, length, take, drop, ◌==◌, ◌||◌, All,
}
use go_firebird_driver.Prelude.Bytes.{Bytes, le16, le32}
use go_firebird_driver.Wire.Protocol.{
  isc_info_end, isc_info_truncated, isc_info_sql_select, isc_info_sql_bind,
  isc_info_sql_describe_end, isc_info_sql_stmt_type, isc_info_sql_num_variables,
  isc_info_sql_describe_vars, isc_info_sql_sqlda_seq, isc_info_sql_type, isc_info_sql_sub_type,
  isc_info_sql_scale, isc_info_sql_length, isc_info_sql_null_ind, isc_info_sql_field,
  isc_info_sql_relation, isc_info_sql_owner, isc_info_sql_alias, isc_info_sql_sqlda_start,
}
use go_firebird_driver.Wire.Info.{InfoItem, items_with_sqlda_start}
use go_firebird_driver.Wire.Info.Items.{item_bytes, items_bytes}

-- The items of a column behind its number.
abbrev pub Settings : Type 0
Settings = List InfoItem

unfoldable pub is_setting : ℕ → Bool
is_setting t =
    t == isc_info_sql_type
    || t == isc_info_sql_sub_type
    || t == isc_info_sql_scale
    || t == isc_info_sql_length
    || t == isc_info_sql_null_ind
    || t == isc_info_sql_field
    || t == isc_info_sql_relation
    || t == isc_info_sql_owner
    || t == isc_info_sql_alias

abbrev pub IsSetting : InfoItem → Type 0
IsSetting i = (is_setting i.tag ≡ true) × (length i.value < 2 ^ 16)

-- A prepared statement: its type, its columns and its parameters.
pub record Statement : Type 0 where
  pub kind : ℕ
  pub outs : List Settings
  pub ins : List Settings

-- The bounds: an int32 for the type, `maxSQLDescribeColumns` for the columns.
abbrev pub IsStatement : Statement → Type 0
IsStatement s =
    (s.kind < 2 ^ 32)
    × (length s.outs ≤ 4096)
    × (length s.ins ≤ 4096)
    × All (All IsSetting) s.outs
    × All (All IsSetting) s.ins

abbrev pub int_item : ℕ → ℕ → InfoItem
int_item t n = record { tag = t; value = le32 n }

-- A column with its number, which counts from one.
unfoldable pub column_items : ℕ → Settings → List InfoItem
column_items seq ss = int_item isc_info_sql_sqlda_seq seq ∷ ss

unfoldable pub column_bytes : ℕ → Settings → Bytes
column_bytes seq ss = items_bytes (column_items seq ss) ++ isc_info_sql_describe_end ∷ []

-- Columns behind the first `k`.
unfoldable pub columns_bytes : ℕ → List Settings → Bytes
columns_bytes k [] = []
columns_bytes k (ss ∷ cols) = column_bytes (suc k) ss ++ columns_bytes (suc k) cols

-- The first `j` items of the next column, where there is one.
unfoldable pub part_bytes : ℕ → ℕ → List Settings → Bytes
part_bytes k j [] = []
part_bytes k j (ss ∷ cols) = items_bytes (take j (column_items (suc k) ss))

-- The start of a section of `n` columns.
unfoldable pub section_start : ℕ → ℕ → Bytes
section_start marker n =
    marker
    ∷ (item_bytes (int_item isc_info_sql_num_variables n)
        ++ item_bytes (int_item isc_info_sql_describe_vars n))

-- A section with the columns behind the first `k`.
unfoldable pub section_bytes : ℕ → ℕ → List Settings → Bytes
section_bytes marker k cols = section_start marker (length cols) ++ columns_bytes k (drop k cols)

-- A section that is cut behind `m` more columns and `j` items.
unfoldable pub cut_section : ℕ → ℕ → ℕ → ℕ → List Settings → Bytes
cut_section marker k m j cols =
    section_start marker (length cols)
    ++ (columns_bytes k (take m (drop k cols))
        ++ (part_bytes (k + m) j (drop m (drop k cols)) ++ isc_info_truncated ∷ []))

-- Where the buffer of a reply ends: nowhere, or in one of the sections.
pub data Cut : Type 0 where
  in_outputs in_inputs : ℕ → ℕ → Cut

-- The reply from the outputs behind the first `a` and the inputs behind the first `b` on.
unfoldable pub reply : Statement → ℕ → ℕ → Cut → Bytes
reply s a b (Cut.in_outputs m j) =
    item_bytes (int_item isc_info_sql_stmt_type s.kind)
    ++ cut_section isc_info_sql_select a m j s.outs
reply s a b (Cut.in_inputs m j) =
    item_bytes (int_item isc_info_sql_stmt_type s.kind)
    ++ (section_bytes isc_info_sql_select a s.outs ++ cut_section isc_info_sql_bind b m j s.ins)

unfoldable pub whole_reply : Statement → ℕ → ℕ → Bytes
whole_reply s a b =
    item_bytes (int_item isc_info_sql_stmt_type s.kind)
    ++ (section_bytes isc_info_sql_select a s.outs
        ++ (section_bytes isc_info_sql_bind b s.ins ++ isc_info_end ∷ []))

-- The columns and parameters that a reply completes.
abbrev pub next_out : Statement → ℕ → Cut → ℕ
next_out s a (Cut.in_outputs m j) = a + m
next_out s a (Cut.in_inputs m j) = length s.outs

abbrev pub next_in : ℕ → Cut → ℕ
next_in b (Cut.in_outputs m j) = b
next_in b (Cut.in_inputs m j) = b + m

-- The cut is inside the statement, and `n` more columns and parameters at least are complete.
abbrev pub IsCut : Statement → ℕ → ℕ → ℕ → Cut → Type 0
IsCut s n a b (Cut.in_outputs m j) = (n ≤ m) × (a + m ≤ length s.outs)
IsCut s n a b (Cut.in_inputs m j) = (n ≤ (length s.outs - a) + m) × (b + m ≤ length s.ins)

-- Each of the cuts, where all but the first complete something.
abbrev pub IsCuts : Statement → ℕ → ℕ → ℕ → List Cut → Type 0
IsCuts s n a b [] = Unit
IsCuts s n a b (c ∷ cs) = IsCut s n a b c × IsCuts s 1 (next_out s a c) (next_in b c) cs

-- The reply that the first of the cuts, if there is one, is made in.
unfoldable pub next_reply : Statement → ℕ → ℕ → List Cut → Bytes
next_reply s a b [] = whole_reply s a b
next_reply s a b (c ∷ cs) = reply s a b c

abbrev pub later : List Cut → List Cut
later [] = []
later (c ∷ cs) = cs

-- A request for the rest: the list of items, with the numbers to start from in front of its sections.
pub data Resumes (a b : ℕ) : Bytes → Bytes → Type 0 where
  resumes_end : Resumes a b [] []
  resumes_outputs :
      {is : Bytes} {r : Bytes}
      → Resumes a b is r
      → Resumes a b
          (isc_info_sql_select ∷ is)
          (isc_info_sql_sqlda_start ∷ 2 ∷ (le16 a ++ isc_info_sql_select ∷ r))
  resumes_inputs :
      {is : Bytes} {r : Bytes}
      → Resumes a b is r
      → Resumes a b
          (isc_info_sql_bind ∷ is)
          (isc_info_sql_sqlda_start ∷ 2 ∷ (le16 b ++ isc_info_sql_bind ∷ r))
  resumes_item :
      {i : ℕ} {is : Bytes} {r : Bytes}
      → (i == isc_info_sql_select) ≡ false
      → (i == isc_info_sql_bind) ≡ false
      → Resumes a b is r
      → Resumes a b (i ∷ is) (i ∷ r)

items_with-outputs :
    (is : Bytes) (a b : ℕ)
    → items_with_sqlda_start (isc_info_sql_select ∷ is) a b
      ≡ isc_info_sql_sqlda_start
        ∷ 2
        ∷ (le16 a ++ isc_info_sql_select ∷ items_with_sqlda_start is a b)
unfolding items_with_sqlda_start
items_with-outputs is a b = refl

items_with-inputs :
    (is : Bytes) (a b : ℕ)
    → items_with_sqlda_start (isc_info_sql_bind ∷ is) a b
      ≡ isc_info_sql_sqlda_start ∷ 2 ∷ (le16 b ++ isc_info_sql_bind ∷ items_with_sqlda_start is a b)
unfolding items_with_sqlda_start
items_with-inputs is a b = refl

items_with-item :
    (i : ℕ) (is : Bytes) (a b : ℕ)
    → (i == isc_info_sql_select) ≡ false
    → (i == isc_info_sql_bind) ≡ false
    → items_with_sqlda_start (i ∷ is) a b ≡ i ∷ items_with_sqlda_start is a b
unfolding items_with_sqlda_start
items_with-item i is a b e f = ground (arith, e, f)

pub items_with_sqlda_start-Resumes :
    (is : Bytes) (a b : ℕ) → Resumes a b is (items_with_sqlda_start is a b)
unfolding items_with_sqlda_start
items_with_sqlda_start-Resumes [] a b = Resumes.resumes_end
items_with_sqlda_start-Resumes (i ∷ is) a b =
    let k = items_with_sqlda_start-Resumes is a b in
    elim (Bool-cases (i == isc_info_sql_select)) [
      | inl e ↦
          let q : isc_info_sql_select ≡ i = ground (arith, e) in
          subst (λ x. Resumes a b (x ∷ is) (items_with_sqlda_start (x ∷ is) a b)) q
            (rw (items_with-outputs is a b) (Resumes.resumes_outputs k))
      | inr e ↦ elim (Bool-cases (i == isc_info_sql_bind)) [
        | inl f ↦
            let q : isc_info_sql_bind ≡ i = ground (arith, f) in
            subst (λ x. Resumes a b (x ∷ is) (items_with_sqlda_start (x ∷ is) a b)) q
              (rw (items_with-inputs is a b) (Resumes.resumes_inputs k))
        | inr f ↦ rw (items_with-item i is a b e f) (Resumes.resumes_item e f k)
      ]
    ]

pub Resumes-unique : (a b : ℕ) (is r : Bytes) → Resumes a b is r → r ≡ items_with_sqlda_start is a b
unfolding items_with_sqlda_start
Resumes-unique a b _ _ Resumes.resumes_end = refl
Resumes-unique a b _ _ (Resumes.resumes_outputs {is = is} {r = r} k) =
    ap (λ x. isc_info_sql_sqlda_start ∷ 2 ∷ (le16 a ++ isc_info_sql_select ∷ x))
      (Resumes-unique a b is r k)
Resumes-unique a b _ _ (Resumes.resumes_inputs {is = is} {r = r} k) =
    ap (λ x. isc_info_sql_sqlda_start ∷ 2 ∷ (le16 b ++ isc_info_sql_bind ∷ x))
      (Resumes-unique a b is r k)
Resumes-unique a b _ _ (Resumes.resumes_item {i = i} {is = is} {r = r} e f k) =
    ap (λ x. i ∷ x) (Resumes-unique a b is r k) ∙ sym (items_with-item i is a b e f)
