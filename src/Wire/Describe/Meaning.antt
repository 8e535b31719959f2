-- ===== src/Wire/Describe/Meaning.antt =====
-- What the items of a column say, whatever their order, and that setting them one by one comes to it.
use go_firebird_driver.Prelude.{
  ℕ, ◌≤◌, ◌≡◌, refl, sym, ◌∙◌, ap, arith, Bool, true, false, not, List, [], ◌∷◌, Option, none, some,
  map, ◌==◌, ◌&&◌, ◌||◌, if◌then◌else◌, Bool-cases, Option-cases, ◌⊎◌, inl, inr, length,
}
use go_firebird_driver.Prelude.Bytes.{Bytes}
use go_firebird_driver.Wire.Protocol.{
  isc_info_sql_type, isc_info_sql_sub_type, isc_info_sql_scale, isc_info_sql_length,
  isc_info_sql_null_ind, isc_info_sql_field, isc_info_sql_relation, isc_info_sql_owner,
  isc_info_sql_alias,
}
use go_firebird_driver.Wire.Info.{InfoItem, ColumnDescriptor, blank_column, read_info_int32_le}
use go_firebird_driver.Wire.Describe.{set_field}
use go_firebird_driver.Wire.Describe.Fields.{set_fields, described}
use go_firebird_driver.Wire.Describe.Server.{
  Settings, Statement, IsStatement, Cut, IsCuts, next_reply, later,
}
use go_firebird_driver.Wire.Describe.Complete.{
  reinterpret, apply_none_charset, Serves, complete_sql_describe, complete_sql_describe-described,
}

-- The value of the last item with the tag.
unfoldable pub last_of : ℕ → List InfoItem → Option Bytes
last_of t [] = none
last_of t (i ∷ is) = elim (last_of t is) [
  | some v ↦ some v
  | none ↦ if i.tag == t then some i.value else none
]

-- What an item says, or what holds without it.
abbrev pub said {ℓ} : {A : Type ℓ} → (Bytes → A) → A → Option Bytes → A
said f x none = x
said f x (some v) = f v

abbrev pub is_nonzero : Bytes → Bool
is_nonzero v = not (read_info_int32_le v == 0)

-- A column with what the items say about it.
abbrev told : List InfoItem → ColumnDescriptor → ColumnDescriptor
told is c = record {
  field_name = said (λ v. v) c.field_name (last_of isc_info_sql_field is);
  relation_name = said (λ v. v) c.relation_name (last_of isc_info_sql_relation is);
  owner_name = said (λ v. v) c.owner_name (last_of isc_info_sql_owner is);
  alias_name = said (λ v. v) c.alias_name (last_of isc_info_sql_alias is);
  sql_type = said read_info_int32_le c.sql_type (last_of isc_info_sql_type is);
  sub_type = said read_info_int32_le c.sub_type (last_of isc_info_sql_sub_type is);
  scale = said read_info_int32_le c.scale (last_of isc_info_sql_scale is);
  size = said read_info_int32_le c.size (last_of isc_info_sql_length is);
  nullable = said is_nonzero c.nullable (last_of isc_info_sql_null_ind is);
  sub_type_from_none = c.sub_type_from_none;
}

-- The column of which the server says nothing but the items.
abbrev pub column_of : List InfoItem → ColumnDescriptor
column_of is = record {
  field_name = said (λ v. v) [] (last_of isc_info_sql_field is);
  relation_name = said (λ v. v) [] (last_of isc_info_sql_relation is);
  owner_name = said (λ v. v) [] (last_of isc_info_sql_owner is);
  alias_name = said (λ v. v) [] (last_of isc_info_sql_alias is);
  sql_type = said read_info_int32_le 0 (last_of isc_info_sql_type is);
  sub_type = said read_info_int32_le 0 (last_of isc_info_sql_sub_type is);
  scale = said read_info_int32_le 0 (last_of isc_info_sql_scale is);
  size = said read_info_int32_le 0 (last_of isc_info_sql_length is);
  nullable = said is_nonzero false (last_of isc_info_sql_null_ind is);
  sub_type_from_none = false;
}

said-cons :
    {A : Type 0} (f : Bytes → A) (x : A) (t : ℕ) (i : InfoItem) (is : List InfoItem)
    → said f x (last_of t (i ∷ is)) ≡ said f (if i.tag == t then f i.value else x) (last_of t is)
unfolding last_of
said-cons f x t i is = elim (Option-cases (last_of t is)) [
  | inr (v, e) ↦ rw e refl
  | inl e ↦ rw e (elim (Bool-cases (i.tag == t)) [ inl y ↦ rw y refl | inr y ↦ rw y refl ])
]

-- The column that an item is set in, field by field.
set_field_lem :
    (t : ℕ) (v : Bytes) (c : ColumnDescriptor)
    → set_field t v c ≡ record {
      field_name = if t == isc_info_sql_field then v else c.field_name;
      relation_name = if t == isc_info_sql_relation then v else c.relation_name;
      owner_name = if t == isc_info_sql_owner then v else c.owner_name;
      alias_name = if t == isc_info_sql_alias then v else c.alias_name;
      sql_type = if t == isc_info_sql_type then read_info_int32_le v else c.sql_type;
      sub_type = if t == isc_info_sql_sub_type then read_info_int32_le v else c.sub_type;
      scale = if t == isc_info_sql_scale then read_info_int32_le v else c.scale;
      size = if t == isc_info_sql_length then read_info_int32_le v else c.size;
      nullable = if t == isc_info_sql_null_ind then is_nonzero v else c.nullable;
      sub_type_from_none = c.sub_type_from_none;
    }
unfolding set_field
set_field_lem t v c = ground arith

told-cons :
    (i : InfoItem) (is : List InfoItem) (c : ColumnDescriptor)
    → told is (set_field i.tag i.value c) ≡ told (i ∷ is) c
told-cons i is c =
    ap (told is) (set_field_lem i.tag i.value c)
    ∙ sym (
        rw
          (
            said-cons (λ v. v) c.field_name isc_info_sql_field i is,
            said-cons (λ v. v) c.relation_name isc_info_sql_relation i is,
            said-cons (λ v. v) c.owner_name isc_info_sql_owner i is,
            said-cons (λ v. v) c.alias_name isc_info_sql_alias i is,
            said-cons read_info_int32_le c.sql_type isc_info_sql_type i is,
            said-cons read_info_int32_le c.sub_type isc_info_sql_sub_type i is,
            said-cons read_info_int32_le c.scale isc_info_sql_scale i is,
            said-cons read_info_int32_le c.size isc_info_sql_length i is,
            said-cons is_nonzero c.nullable isc_info_sql_null_ind i is,
          )
          refl)

set_fields-told : (is : List InfoItem) (c : ColumnDescriptor) → set_fields is c ≡ told is c
unfolding set_fields last_of
set_fields-told [] c = refl
set_fields-told (i ∷ is) c = set_fields-told is (set_field i.tag i.value c) ∙ told-cons i is c

pub described-column_of : (is : List InfoItem) → described is ≡ column_of is
described-column_of is = set_fields-told is blank_column

-- CHAR and VARCHAR, each without and with NULL.
abbrev pub is_text : ℕ → Bool
is_text t = t == 452 || t == 453 || t == 448 || t == 449

-- A text column of charset NONE is taken to be of another one, where there is one.
unfoldable pub with_charset : ℕ → ColumnDescriptor → ColumnDescriptor
with_charset id d =
    if not (id == 0) && d.sub_type == 0 && is_text d.sql_type
    then record d { sub_type = id; sub_type_from_none = true }
    else d

reinterpret-with_charset :
    (id : ℕ) (ds : List ColumnDescriptor)
    → (id == 0) ≡ false
    → reinterpret id ds ≡ map (with_charset id) ds
unfolding reinterpret with_charset
reinterpret-with_charset id [] h = refl
reinterpret-with_charset id (d ∷ ds) h =
    let k = reinterpret-with_charset id ds h in ground (arith, h, k)

with_charset-none : (ds : List ColumnDescriptor) → map (with_charset 0) ds ≡ ds
unfolding with_charset
with_charset-none [] = refl
with_charset-none (d ∷ ds) = ap (λ x. d ∷ x) (with_charset-none ds)

pub apply_none_charset-with_charset :
    (id : ℕ) (ds : List ColumnDescriptor) → apply_none_charset id ds ≡ map (with_charset id) ds
unfolding apply_none_charset
apply_none_charset-with_charset id ds = elim (Bool-cases (id == 0)) [
  | inr y ↦ rw y (reinterpret-with_charset id ds y)
  | inl y ↦ let z : id ≡ 0 = ground (arith, y) in rw z (sym (with_charset-none ds))
]

meant_lem :
    (id : ℕ) (ss : List Settings)
    → map (with_charset id) (map described ss) ≡ map (λ is. with_charset id (column_of is)) ss
meant_lem id [] = refl
meant_lem id (is ∷ ss) =
    ap (λ x. with_charset id x ∷ map (with_charset id) (map described ss)) (described-column_of is)
    ∙ ap (λ x. with_charset id (column_of is) ∷ x) (meant_lem id ss)

-- However a server cuts its descriptions of a statement of at most 4096 columns and 4096
-- parameters, inside a column or between two, if every request for the rest, which is the list of
-- items with the first number wanted in front of each section, is answered from the columns that
-- it names on and every cut reply but the first completes a column or a parameter, as many rounds
-- as there are cuts are enough: `CompleteSQLDescribe` returns the type, and each column and
-- parameter with, in each of its fields, what the last item for it says, and nothing where there
-- is none; a CHAR or VARCHAR of charset NONE is taken to be of none_charset where that is not
-- NONE, and marked so.
pub complete_sql_describe-Serves {ℓ} :
    {E : Type ℓ} (grow : ℕ → ℕ) (s : Statement) (items : Bytes)
    (ask : Bytes → List Cut → (E ⊎ Bytes) × List Cut) (none_charset_id fuel : ℕ) (cuts : List Cut)
    → Serves s items ask
    → IsStatement s
    → length cuts ≤ fuel
    → IsCuts s 0 0 0 cuts
    → complete_sql_describe grow ask items none_charset_id fuel (next_reply s 0 0 cuts) (later cuts)
      ≡ some (
        inr (record {
          stmt_type = s.kind;
          outputs = map (λ is. with_charset none_charset_id (column_of is)) s.outs;
          inputs = map (λ is. with_charset none_charset_id (column_of is)) s.ins;
        }),
        [],
      )
complete_sql_describe-Serves grow s items ask none_charset_id fuel cuts serves wf h c =
    let lem = λ (ss : List Settings).
      apply_none_charset-with_charset none_charset_id (map described ss)
      ∙ meant_lem none_charset_id ss in
    complete_sql_describe-described grow s items ask serves wf none_charset_id fuel cuts h c
    ∙ rw (lem s.outs, lem s.ins) refl
