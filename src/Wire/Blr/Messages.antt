-- ===== src/Wire/Blr/Messages.antt =====
-- Messages of `BuildBLR` and `BuildParamBLR` through the reference reader.
use go_firebird_driver.Prelude.{
  ◌+◌, ◌*◌, ◌/◌, ◌%◌, ◌^◌, ◌<◌, ◌≡◌, refl, sym, ◌∙◌, ap, List, [], ◌∷◌, ◌++◌, map, some, arith,
  append-nil, append_assoc, length,
}
use go_firebird_driver.Prelude.Bytes.{Bytes, byte}
use go_firebird_driver.Wire.Protocol.{blr_end, blr_eoc, blr_short}
use go_firebird_driver.Wire.Info.{ColumnDescriptor}
use go_firebird_driver.Wire.Blr.{
  append_blr_type, append_varying_utf8_blr, append_param_blr_type, message_start, append_columns,
  append_blr, build_blr, append_params, build_param_blr,
}
use go_firebird_driver.Wire.Blr.Parse.{
  Field, operands, shape, field, indicator, fields, parse_message, described, described_param,
}

append_blr_type-append :
    (buf : Bytes) (d : ColumnDescriptor) → append_blr_type buf d ≡ buf ++ append_blr_type [] d
unfolding append_blr_type
append_blr_type-append buf d = ground arith

field-described :
    (d : ColumnDescriptor) (r : Bytes) → field (append_blr_type [] d ++ r) ≡ some (described d, r)
unfolding append_blr_type field described operands shape
field-described d r = ground arith

field-described_param :
    (d : ColumnDescriptor) (r : Bytes)
    → field (append_param_blr_type [] d ++ r) ≡ some (described_param d, r)
unfolding append_param_blr_type append_varying_utf8_blr field described_param operands shape
field-described_param d r = let e = field-described d r in ground (arith, e)

append_param_blr_type-append :
    (buf : Bytes) (d : ColumnDescriptor)
    → append_param_blr_type buf d ≡ buf ++ append_param_blr_type [] d
unfolding append_param_blr_type append_varying_utf8_blr
append_param_blr_type-append buf d = let e = append_blr_type-append buf d in ground (arith, e)

-- Columns laid out one behind the other, each with its null indicator.
indicated : (ColumnDescriptor → Bytes) → List ColumnDescriptor → Bytes
indicated f [] = []
indicated f (d ∷ ds) = f d ++ (blr_short ∷ 0 ∷ indicated f ds)

append_columns-indicated :
    (dst : Bytes) (ds : List ColumnDescriptor)
    → append_columns dst ds ≡ dst ++ indicated (append_blr_type []) ds
unfolding append_columns indicated
append_columns-indicated dst [] = sym (append-nil dst)
append_columns-indicated dst (d ∷ ds) =
    let x = append_blr_type [] d in
    let rest = indicated (append_blr_type []) ds in
    append_columns-indicated (append_blr_type dst d ++ blr_short ∷ 0 ∷ []) ds
    ∙ append_assoc (append_blr_type dst d) (blr_short ∷ 0 ∷ []) rest
    ∙ ap (λ y. y ++ (blr_short ∷ 0 ∷ rest)) (append_blr_type-append dst d)
    ∙ append_assoc dst x (blr_short ∷ 0 ∷ rest)

append_params-indicated :
    (dst : Bytes) (ds : List ColumnDescriptor)
    → append_params dst ds ≡ dst ++ indicated (append_param_blr_type []) ds
unfolding append_params indicated
append_params-indicated dst [] = sym (append-nil dst)
append_params-indicated dst (d ∷ ds) =
    let x = append_param_blr_type [] d in
    let rest = indicated (append_param_blr_type []) ds in
    append_params-indicated (append_param_blr_type dst d ++ blr_short ∷ 0 ∷ []) ds
    ∙ append_assoc (append_param_blr_type dst d) (blr_short ∷ 0 ∷ []) rest
    ∙ ap (λ y. y ++ (blr_short ∷ 0 ∷ rest)) (append_param_blr_type-append dst d)
    ∙ append_assoc dst x (blr_short ∷ 0 ∷ rest)

module _ (f : ColumnDescriptor → Bytes) (g : ColumnDescriptor → Field)
    (reads : (d : ColumnDescriptor) (r : Bytes) → field (f d ++ r) ≡ some (g d, r)) where
  fields-indicated :
      (ds : List ColumnDescriptor)
      → fields (length ds) (indicated f ds ++ blr_end ∷ blr_eoc ∷ []) ≡ some (map g ds)
  unfolding fields indicated indicator
  fields-indicated [] = refl
  fields-indicated (d ∷ ds) =
      let more = indicated f ds ++ blr_end ∷ blr_eoc ∷ [] in
      let s : indicated f (d ∷ ds) ++ blr_end ∷ blr_eoc ∷ [] ≡ f d ++ (blr_short ∷ 0 ∷ more) =
        append_assoc (f d) (blr_short ∷ 0 ∷ indicated f ds) (blr_end ∷ blr_eoc ∷ []) in
      let e : field (indicated f (d ∷ ds) ++ blr_end ∷ blr_eoc ∷ [])
          ≡ some (g d, blr_short ∷ 0 ∷ more) =
        ap field s ∙ reads d (blr_short ∷ 0 ∷ more) in
      let k = fields-indicated ds in ground (arith, e, k)

  parse_message-indicated :
      (ds : List ColumnDescriptor)
      → length ds * 2 < 2 ^ 16
      → parse_message (message_start (length ds) ++ (indicated f ds ++ blr_end ∷ blr_eoc ∷ []))
        ≡ some (map g ds)
  unfolding parse_message
  parse_message-indicated ds h =
      let n = length ds in
      let e : (byte (n * 2) + byte (n * 2 / 2 ^ 8) * 256) ≡ n * 2 = omega arith in
      let e' : n * 2 / 2 ≡ n = omega arith in
      let e'' : n * 2 % 2 ≡ 0 = omega arith in
      let k = fields-indicated ds in rw e (rw e' (rw e'' k))

-- The message of `BuildBLR` for fewer than 2 ^ 15 columns reads back as the fields that the
-- columns ask for, in order, each with its null indicator, and nothing else; a text column asks
-- for its own charset, and for NONE where its subtype was put in for NONE.
pub parse_message-build_blr :
    (ds : List ColumnDescriptor)
    → length ds * 2 < 2 ^ 16
    → parse_message (build_blr ds) ≡ some (map described ds)
unfolding build_blr append_blr
parse_message-build_blr ds h =
    ap parse_message (
      ap (λ x. x ++ blr_end ∷ blr_eoc ∷ [])
        (append_columns-indicated (message_start (length ds)) ds)
      ∙ append_assoc (message_start (length ds)) (indicated (append_blr_type []) ds)
          (blr_end ∷ blr_eoc ∷ []))
    ∙ parse_message-indicated (append_blr_type []) described field-described ds h

-- The message of `BuildParamBLR` for fewer than 2 ^ 15 parameters reads back as the fields that
-- the parameters are sent as, which are the columns' fields but for decimal floats: those are
-- UTF-8 texts.
pub parse_message-build_param_blr :
    (ds : List ColumnDescriptor)
    → length ds * 2 < 2 ^ 16
    → parse_message (build_param_blr ds) ≡ some (map described_param ds)
unfolding build_param_blr
parse_message-build_param_blr ds h =
    ap parse_message (
      ap (λ x. x ++ blr_end ∷ blr_eoc ∷ []) (append_params-indicated (message_start (length ds)) ds)
      ∙ append_assoc (message_start (length ds)) (indicated (append_param_blr_type []) ds)
          (blr_end ∷ blr_eoc ∷ []))
    ∙ parse_message-indicated (append_param_blr_type []) described_param field-described_param ds h
