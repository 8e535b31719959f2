-- ===== src/Wire/Info/Items.antt =====
-- Tagged info buffers as a server lays them out, whole or cut short, through `ParseInfoBuffer`.
use go_firebird_driver.Prelude.{
  ℕ, zero, suc, ◌+◌, ◌^◌, ◌≤◌, ◌<◌, ◌≡◌, ◌≢◌, refl, sym, ◌∙◌, ap, Bool, true, false, List, [], ◌∷◌,
  ◌++◌, none, some, arith, append-nil, append_assoc, length, length-append, length-take,
  length-drop, drop, Bool-cases, inl, inr, take, take_left, drop_left, ltb, All,
}
use go_firebird_driver.Prelude.Bytes.{Bytes, le16, uint16_le, uint16_le-le16}
use go_firebird_driver.Wire.Protocol.{isc_info_end, isc_info_truncated}
use go_firebird_driver.Wire.Info.{InfoItem, item_value, info_loop, parse_info_buffer}

pub item_value-whole :
    (v rest : Bytes)
    → length v < 2 ^ 16
    → item_value (le16 (length v) ++ (v ++ rest)) ≡ some (v, rest)
unfolding item_value
item_value-whole v rest h =
    let e : uint16_le (le16 (length v) ++ (v ++ rest)) ≡ length v =
      uint16_le-le16 (length v) (v ++ rest) h in
    rw e (
      ground (
        arith,
        length-append v rest,
        take_left (length v) v rest refl,
        drop_left (length v) v rest refl,
      ))

-- A buffer that ends inside the length or the value of an item.
pub item_value-cut :
    (k : ℕ) (v : Bytes)
    → length v < 2 ^ 16
    → k < 2 + length v
    → item_value (take k (le16 (length v) ++ v)) ≡ none
unfolding item_value
item_value-cut zero v h c = refl
item_value-cut (suc zero) v h c = refl
item_value-cut (suc (suc k)) v h c =
    let e : uint16_le (le16 (length v) ++ take k v) ≡ length v =
      uint16_le-le16 (length v) (take k v) h in
    rw e (ground (arith, length-take k v))

-- What is left behind a value is no longer than what there was.
pub item_value_left : (r v r' : Bytes) → item_value r ≡ some (v, r') → length r' ≤ length r
unfolding item_value
item_value_left r v r' e =
    let a = length-drop 2 r in
    let b = length-drop (uint16_le r) (drop 2 r) in
    elim (Bool-cases (ltb (length r) 2)) [
      | inl x ↦ absurd (ground (arith, e, x))
      | inr x ↦ elim (Bool-cases (ltb (length (drop 2 r)) (uint16_le r))) [
        | inl y ↦ absurd (ground (arith, e, x, y))
        | inr y ↦
            let z : drop (uint16_le r) (drop 2 r) ≡ r' = ground (arith, e, x, y) in
            omega (arith, ap length z)
      ]
    ]

-- A tag, two bytes of length, the value.
unfoldable pub item_bytes : InfoItem → Bytes
item_bytes i = i.tag ∷ (le16 (length i.value) ++ i.value)

unfoldable pub items_bytes : List InfoItem → Bytes
items_bytes [] = []
items_bytes (i ∷ is) = item_bytes i ++ items_bytes is

-- A tag of its own, and a length that two bytes hold.
abbrev pub IsItem : InfoItem → Type 0
IsItem i = (i.tag ≢ isc_info_end) × (i.tag ≢ isc_info_truncated) × (length i.value < 2 ^ 16)

-- What follows the items: an end tag or a truncation tag with anything behind it, or the first `k`
-- bytes of one more item.
pub data Ending : Type 0 where
  finished truncated : Bytes → Ending
  cut : ℕ → InfoItem → Ending

unfoldable pub ending_bytes : Ending → Bytes
ending_bytes (Ending.finished junk) = isc_info_end ∷ junk
ending_bytes (Ending.truncated junk) = isc_info_truncated ∷ junk
ending_bytes (Ending.cut k i) = take k (item_bytes i)

abbrev pub IsEnding : Ending → Type 0
IsEnding (Ending.finished junk) = Unit
IsEnding (Ending.truncated junk) = Unit
IsEnding (Ending.cut k i) = IsItem i × (k < 3 + length i.value)

abbrev pub is_truncated : Ending → Bool
is_truncated (Ending.finished junk) = false
is_truncated (Ending.truncated junk) = true
is_truncated (Ending.cut k i) = false

info_loop-item :
    (fuel : ℕ) (i : InfoItem) (rest : Bytes) (items : List InfoItem)
    → IsItem i
    → info_loop (suc fuel) (item_bytes i ++ rest) items ≡ info_loop fuel rest (items ++ i ∷ [])
unfolding info_loop item_bytes
info_loop-item fuel i rest items (a, b, c) =
    let e = item_value-whole i.value rest c in ground (arith, e)

info_loop-ending :
    (fuel : ℕ) (e : Ending) (items : List InfoItem)
    → length (ending_bytes e) ≤ fuel
    → IsEnding e
    → info_loop fuel (ending_bytes e) items ≡ some (items, is_truncated e)
unfolding info_loop ending_bytes item_bytes
info_loop-ending zero (Ending.finished junk) items h w = absurd (omega arith)
info_loop-ending (suc fuel) (Ending.finished junk) items h w = refl
info_loop-ending zero (Ending.truncated junk) items h w = absurd (omega arith)
info_loop-ending (suc fuel) (Ending.truncated junk) items h w = refl
info_loop-ending zero (Ending.cut zero i) items h w = refl
info_loop-ending (suc fuel) (Ending.cut zero i) items h w = refl
info_loop-ending zero (Ending.cut (suc k) i) items h w = absurd (omega arith)
info_loop-ending (suc fuel) (Ending.cut (suc k) i) items h ((a, b, c), d) =
    let e = item_value-cut k i.value c (omega arith) in ground (arith, e)

info_loop-items :
    (is : List InfoItem) (e : Ending) (fuel : ℕ) (items : List InfoItem)
    → length (items_bytes is ++ ending_bytes e) ≤ fuel
    → All IsItem is
    → IsEnding e
    → info_loop fuel (items_bytes is ++ ending_bytes e) items ≡ some (items ++ is, is_truncated e)
unfolding items_bytes item_bytes
info_loop-items [] e fuel items h a w =
    info_loop-ending fuel e items h w ∙ ap (λ x. some (x, is_truncated e)) (sym (append-nil items))
info_loop-items (i ∷ is) e zero items h a w = absurd (omega arith)
info_loop-items (i ∷ is) e (suc fuel) items h (a, as_) w =
    let rest = items_bytes is ++ ending_bytes e in
    let s : (item_bytes i ++ items_bytes is) ++ ending_bytes e ≡ item_bytes i ++ rest =
      append_assoc (item_bytes i) (items_bytes is) (ending_bytes e) in
    ap (λ x. info_loop (suc fuel) x items) s
    ∙ info_loop-item fuel i rest items a
    ∙ info_loop-items is e fuel (items ++ i ∷ [])
        (omega (arith, ap length s, length-append (le16 (length i.value) ++ i.value) rest)) as_ w
    ∙ ap (λ x. some (x, is_truncated e)) (append_assoc items (i ∷ []) is)

-- A buffer of items, whose tags are not the end's or the truncation's and whose values are
-- shorter than 2 ^ 16, is read back as those items in order and is told apart as truncated
-- exactly where the truncation tag follows them: also where an end tag follows, or where the
-- buffer stops at or inside the next item.
pub parse_info_buffer-items :
    (is : List InfoItem) (e : Ending)
    → All IsItem is
    → IsEnding e
    → parse_info_buffer (items_bytes is ++ ending_bytes e) ≡ some (is, is_truncated e)
unfolding parse_info_buffer
parse_info_buffer-items is e a w =
    info_loop-items is e (length (items_bytes is ++ ending_bytes e)) [] (omega arith) a w
