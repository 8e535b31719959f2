-- ===== src/Wire/Info/Records.antt =====
-- The record counts that a server sends for a statement, through `ParseRecordCounts`, and the number of
-- affected rows that result.go takes from them.
use go_firebird_driver.Prelude.{
  ℕ, zero, suc, ◌+◌, ◌%◌, ◌^◌, ◌≤◌, ◌<◌, ◌≡◌, refl, ◌∙◌, ap, false, List, [], ◌∷◌, ◌++◌, Option,
  some, ◌>>=◌, arith, append_assoc, length, length-append, All, ◌==◌, if◌then◌else◌, ◌⊎◌, inl, inr,
}
use go_firebird_driver.Prelude.Bytes.{Bytes, le16, le32, uint32_le, uint32_le-le32}
use go_firebird_driver.Wire.Protocol.{
  isc_info_end, isc_info_sql_records, isc_info_req_select_count, isc_info_req_insert_count,
  isc_info_req_update_count, isc_info_req_delete_count, stmt_insert, stmt_update, stmt_delete,
}
use go_firebird_driver.Wire.Info.{
  InfoItem, item_value, Counts, no_counts, is_control, set_count, sign_extend, count_items,
  counts_loop, parse_record_counts, read_info_int32_le,
}
use go_firebird_driver.Wire.Info.Items.{item_bytes, items_bytes, item_value-whole}

-- `getRowsAffected` of result.go, on the answer of `InfoSQL`.
unfoldable pub get_rows_affected {ℓ} : {E : Type ℓ} → E ⊎ Bytes → ℕ → Option (E ⊎ ℕ)
get_rows_affected (inl err) stmt_type = some (inl err)
get_rows_affected (inr data_) stmt_type = do
  c ← parse_record_counts data_
  some (
      inr (
        if stmt_type == stmt_insert
        then c.inserted
        else if stmt_type == stmt_update
        then c.updated
        else if stmt_type == stmt_delete
        then c.deleted
        else (c.inserted + c.updated + c.deleted) % 2 ^ 64))

-- A count under its tag.
pub record Count : Type 0 where
  pub tag : ℕ
  pub value : ℕ

abbrev pub count_item : Count → InfoItem
count_item c = record { tag = c.tag; value = le32 c.value }

unfoldable pub count_item_bytes : List Count → Bytes
count_item_bytes [] = []
count_item_bytes (c ∷ cs) = item_bytes (count_item c) ++ count_item_bytes cs

-- A tag that ends nothing, and a number that is an int32 and not negative.
abbrev pub IsCount : Count → Type 0
IsCount c = (is_control c.tag ≡ false) × (c.value < 2 ^ 31)

-- The value under the last count with the tag, `d` where there is none.
unfoldable pub last : ℕ → ℕ → List Count → ℕ
last tag d [] = d
last tag d (c ∷ cs) = last tag (if c.tag == tag then c.value else d) cs

abbrev pub last_counts : Counts → List Count → Counts
last_counts c cs = record {
  selected = last isc_info_req_select_count c.selected cs;
  inserted = last isc_info_req_insert_count c.inserted cs;
  updated = last isc_info_req_update_count c.updated cs;
  deleted = last isc_info_req_delete_count c.deleted cs;
}

set_count-last :
    (x : Count) (c : Counts) (cs : List Count)
    → last_counts (set_count x.tag x.value c) cs ≡ last_counts c (x ∷ cs)
unfolding set_count last
set_count-last x c cs = ground arith

sign_extend-le32 : (v : ℕ) → v < 2 ^ 31 → sign_extend (read_info_int32_le (le32 v)) ≡ v
unfolding read_info_int32_le
sign_extend-le32 v h =
    let e : uint32_le (le32 v ++ []) ≡ v = uint32_le-le32 v [] (omega arith) in ground (arith, e)

count_items-step :
    (fuel : ℕ) (x : Count) (rest : Bytes) (c : Counts)
    → IsCount x
    → count_items (suc fuel) (item_bytes (count_item x) ++ rest) c
      ≡ count_items fuel rest (set_count x.tag x.value c)
unfolding count_items item_bytes
count_items-step fuel x rest c (a, b) =
    let e : item_value (le16 4 ++ (le32 x.value ++ rest)) ≡ some (le32 x.value, rest) =
      item_value-whole (le32 x.value) rest (omega arith) in
    let s = sign_extend-le32 x.value b in rw a (rw e (rw s refl))

-- The counts of a record, as the server ends them.
abbrev pub body : List Count → Bytes → Bytes
body cs junk = count_item_bytes cs ++ isc_info_end ∷ junk

count_items-body :
    (cs : List Count) (junk : Bytes) (fuel : ℕ) (c : Counts)
    → length (body cs junk) ≤ fuel
    → All IsCount cs
    → count_items fuel (body cs junk) c ≡ some (last_counts c cs)
unfolding count_item_bytes count_items item_bytes last is_control
count_items-body [] junk zero c h a = absurd (omega arith)
count_items-body [] junk (suc fuel) c h a = refl
count_items-body (x ∷ cs) junk zero c h a = absurd (omega arith)
count_items-body (x ∷ cs) junk (suc fuel) c h (a, as_) =
    let rest = body cs junk in
    let s : body (x ∷ cs) junk ≡ item_bytes (count_item x) ++ rest =
      append_assoc (item_bytes (count_item x)) (count_item_bytes cs) (isc_info_end ∷ junk) in
    ap (λ y. count_items (suc fuel) y c) s
    ∙ count_items-step fuel x rest c a
    ∙ count_items-body cs junk fuel (set_count x.tag x.value c) (omega (arith, ap length s)) as_
    ∙ ap some (set_count-last x c cs)

-- What the buffer holds before the record: any items but the record and what ends a buffer.
abbrev pub IsOther : InfoItem → Type 0
IsOther i =
    (is_control i.tag ≡ false)
    × ((i.tag == isc_info_sql_records) ≡ false)
    × (length i.value < 2 ^ 16)

abbrev pub record_item : Bytes → InfoItem
record_item v = record { tag = isc_info_sql_records; value = v }

-- The whole answer.
abbrev pub answer : List InfoItem → List Count → Bytes → Bytes → Bytes
answer is cs junk rest = items_bytes is ++ (item_bytes (record_item (body cs junk)) ++ rest)

counts_loop-answer :
    (is : List InfoItem) (cs : List Count) (junk rest : Bytes) (fuel : ℕ)
    → length (answer is cs junk rest) ≤ fuel
    → All IsOther is
    → All IsCount cs
    → length (body cs junk) < 2 ^ 16
    → counts_loop fuel (answer is cs junk rest) ≡ some (last_counts no_counts cs)
unfolding items_bytes item_bytes counts_loop is_control
counts_loop-answer [] cs junk rest zero h o a w = absurd (omega arith)
counts_loop-answer [] cs junk rest (suc fuel) h o a w =
    let v = body cs junk in
    let e : item_value (le16 (length v) ++ (v ++ rest)) ≡ some (v, rest) =
      item_value-whole v rest w in
    let s : (le16 (length v) ++ v) ++ rest ≡ le16 (length v) ++ (v ++ rest) =
      append_assoc (le16 (length v)) v rest in
    rw s (rw e (count_items-body cs junk (length v) no_counts (omega arith) a))
counts_loop-answer (i ∷ is) cs junk rest zero h o a w = absurd (omega arith)
counts_loop-answer (i ∷ is) cs junk rest (suc fuel) h ((o, p, q), os) a w =
    let more = answer is cs junk rest in
    let s : answer (i ∷ is) cs junk rest ≡ i.tag ∷ (le16 (length i.value) ++ (i.value ++ more)) =
      append_assoc (item_bytes i) (items_bytes is) (item_bytes (record_item (body cs junk)) ++ rest)
      ∙ append_assoc (i.tag ∷ le16 (length i.value)) i.value more in
    let e : item_value (le16 (length i.value) ++ (i.value ++ more)) ≡ some (i.value, more) =
      item_value-whole i.value more q in
    let k =
      counts_loop-answer is cs junk rest fuel
        (omega (arith, ap length s, length-append i.value more)) os a w in
    ap (counts_loop (suc fuel)) s ∙ rw o (rw e (rw p k))

-- An answer with a record of counts is parsed into the last count under each of the four tags, 0
-- where there is none: whatever items come before the record, if no tag of theirs is the record's
-- or ends the buffer, and whatever follows it or follows the counts' end tag; the counts are not
-- negative and no tag of theirs ends the record, whose length fits two bytes.
pub parse_record_counts-answer :
    (is : List InfoItem) (cs : List Count) (junk rest : Bytes)
    → All IsOther is
    → All IsCount cs
    → length (body cs junk) < 2 ^ 16
    → parse_record_counts (answer is cs junk rest) ≡ some (last_counts no_counts cs)
unfolding parse_record_counts
parse_record_counts-answer is cs junk rest o a w =
    counts_loop-answer is cs junk rest (length (answer is cs junk rest)) (omega arith) o a w

-- What the four statement types report.
abbrev pub reported : ℕ → List Count → ℕ
reported stmt_type cs =
    let i = last isc_info_req_insert_count 0 cs in
    let u = last isc_info_req_update_count 0 cs in
    let d = last isc_info_req_delete_count 0 cs in
    if stmt_type == stmt_insert
    then i
    else if stmt_type == stmt_update
    then u
    else if stmt_type == stmt_delete
    then d
    else (i + u + d) % 2 ^ 64

-- The rows affected by an insert, an update or a delete are the last count of its own kind in the
-- server's answer, those of any other statement the sum of the three, under the conditions on the
-- answer that `parse_record_counts-answer` has.
pub get_rows_affected-answer :
    {E : Type 0} (stmt_type : ℕ) (is : List InfoItem) (cs : List Count) (junk rest : Bytes)
    → All IsOther is
    → All IsCount cs
    → length (body cs junk) < 2 ^ 16
    → get_rows_affected {E = E} (inr (answer is cs junk rest)) stmt_type
      ≡ some (inr (reported stmt_type cs))
unfolding get_rows_affected
get_rows_affected-answer stmt_type is cs junk rest o a w =
    rw (parse_record_counts-answer is cs junk rest o a w) refl
