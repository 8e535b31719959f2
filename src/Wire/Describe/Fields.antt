-- ===== src/Wire/Describe/Fields.antt =====
-- The settings of one column, applied in their order: what a part of them leaves is written over by all of them.
use go_firebird_driver.Prelude.{
  ℕ, ◌≡◌, ◌∙◌, ap, Bool, true, false, List, [], ◌∷◌, zero, suc, take, arith, ◌==◌, ◌||◌, Bool-cases,
  inl, inr, refl,
}
use go_firebird_driver.Prelude.Bytes.{Bytes}
use go_firebird_driver.Wire.Info.{InfoItem, ColumnDescriptor, blank_column}
use go_firebird_driver.Wire.Describe.{set_field}

pub set_field_same :
    (t : ℕ) (v w : Bytes) (c : ColumnDescriptor) → set_field t w (set_field t v c) ≡ set_field t w c
unfolding set_field
set_field_same t v w c = ground arith

pub set_field_swap :
    (t s : ℕ) (v w : Bytes) (c : ColumnDescriptor)
    → (t == s) ≡ false
    → set_field s w (set_field t v c) ≡ set_field t v (set_field s w c)
unfolding set_field
set_field_swap t s v w c h = ground arith

-- The settings of a column, applied in order.
unfoldable pub set_fields : List InfoItem → ColumnDescriptor → ColumnDescriptor
set_fields [] c = c
set_fields (i ∷ is) c = set_fields is (set_field i.tag i.value c)

-- The column that the settings describe.
abbrev pub described : List InfoItem → ColumnDescriptor
described is = set_fields is blank_column

-- A setting of the tag is among them.
unfoldable covers : ℕ → List InfoItem → Bool
covers t [] = false
covers t (i ∷ is) = t == i.tag || covers t is

covers-take : (t j : ℕ) (is : List InfoItem) → covers t (take j is) ≡ true → covers t is ≡ true
unfolding covers
covers-take t zero [] h = ground (arith, h)
covers-take t (suc j) [] h = ground (arith, h)
covers-take t zero (i ∷ is) h = ground (arith, h)
covers-take t (suc j) (i ∷ is) h = let ih = covers-take t j is in ground (arith, h, ih)

-- What is set before the settings is lost where they set it too.
set_fields-covered :
    (t : ℕ) (v : Bytes) (is : List InfoItem) (c : ColumnDescriptor)
    → covers t is ≡ true
    → set_fields is (set_field t v c) ≡ set_fields is c
unfolding set_fields covers
set_fields-covered t v [] c h = ground (arith, h)
set_fields-covered t v (i ∷ is) c h = elim (Bool-cases (t == i.tag)) [
  | inl e ↦
      let q : t ≡ i.tag = ground (arith, e) in
      ap (λ x. set_fields is (set_field i.tag i.value (set_field x v c))) q
      ∙ ap (set_fields is) (set_field_same i.tag v i.value c)
  | inr e ↦
      ap (set_fields is) (set_field_swap t i.tag v i.value c e)
      ∙ set_fields-covered t v is (set_field i.tag i.value c) (ground (arith, h, e))
]

set_fields-all_covered :
    (xs is : List InfoItem) (c : ColumnDescriptor)
    → ((t : ℕ) → covers t xs ≡ true → covers t is ≡ true)
    → set_fields is (set_fields xs c) ≡ set_fields is c
unfolding set_fields covers
set_fields-all_covered [] is c h = refl
set_fields-all_covered (x ∷ xs) is c h =
    set_fields-all_covered xs is (set_field x.tag x.value c) (λ t e. h t (ground (arith, e)))
    ∙ set_fields-covered x.tag x.value is c (h x.tag (ground arith))

-- A column that is described again, after a part of its settings.
pub set_fields-take :
    (j : ℕ) (is : List InfoItem) (c : ColumnDescriptor)
    → set_fields is (set_fields (take j is) c) ≡ set_fields is c
set_fields-take j is c = set_fields-all_covered (take j is) is c (λ t e. covers-take t j is e)
