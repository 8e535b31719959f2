-- ===== src/Wire/Dpb/Decode.antt =====
-- A reference reader of version 2 parameter buffers, and the round trip of the builder through it.
use go_firebird_driver.Prelude.{
  ℕ, zero, suc, ◌^◌, ◌≤◌, ◌<◌, ◌≡◌, refl, sym, ◌∙◌, ap, List, [], ◌∷◌, ◌++◌, ◌&&◌, Option, none,
  some, arith, append-nil, append_assoc, length, length-append, take, drop, take_left, drop_left,
  leb, ◌==◌, if◌then◌else◌, map, All,
}
use go_firebird_driver.Prelude.Bytes.{Bytes, uint32_le, le32, uint32_le-le32}
use go_firebird_driver.Wire.Protocol.{isc_dpb_version2}
use go_firebird_driver.Wire.Dpb.{
  DpbBuilder, new_dpb_builder, write_string, write_marker, write_byte_tag, write_bytes, bytes, Call,
  string, marker, byte_tag, raw, call, calls, tag_and_length,
}
use mathlib.Core.Option

-- A tag with its value.
pub record Clumplet : Type 0 where
  pub tag : ℕ
  pub value : Bytes

-- Clumplets up to the end of the input: a tag, four bytes of length (lowest first), the value.
pub clumplets : ℕ → Bytes → Option (List Clumplet)
clumplets fuel [] = some []
clumplets zero (t ∷ r) = none
clumplets (suc fuel) (t ∷ r) =
    let n = uint32_le r in
    let value = drop 4 r in
    let later = clumplets fuel (drop n value) in
    if leb 4 (length r) && leb n (length value)
    then Option.map (λ cs. record { tag = t; value = take n value } ∷ cs) later
    else none

unfoldable pub decode : Bytes → Option (List Clumplet)
decode [] = none
decode (v ∷ r) = if v == isc_dpb_version2 then clumplets (length r) r else none

-- What a call adds, told apart from how the builder lays it out.
abbrev pub meant : Call → Clumplet
meant (string t v) = record { tag = t; value = v }
meant (marker t) = record { tag = t; value = [] }
meant (byte_tag t v) = record { tag = t; value = v ∷ [] }
meant (raw t v) = record { tag = t; value = v }

-- A value fits if its length has four bytes.
abbrev pub Fits : Clumplet → Type 0
Fits c = length c.value < 2 ^ 32

laid_out : Clumplet → Bytes
laid_out c = c.tag ∷ (le32 (length c.value) ++ c.value)

laid_out_all : List Clumplet → Bytes
laid_out_all [] = []
laid_out_all (c ∷ cs) = laid_out c ++ laid_out_all cs

call-laid_out : (c : Call) (b : DpbBuilder) → (call c b).buf ≡ b.buf ++ laid_out (meant c)
unfolding write_string write_marker write_byte_tag write_bytes laid_out
call-laid_out (string t v) b = append_assoc b.buf (tag_and_length t (length v)) v
call-laid_out (marker t) b = refl
call-laid_out (byte_tag t v) b = refl
call-laid_out (raw t v) b = append_assoc b.buf (tag_and_length t (length v)) v

calls-laid_out :
    (cs : List Call) (b : DpbBuilder) → (calls cs b).buf ≡ b.buf ++ laid_out_all (map meant cs)
unfolding calls laid_out_all
calls-laid_out [] b = sym (append-nil b.buf)
calls-laid_out (c ∷ cs) b =
    calls-laid_out cs (call c b)
    ∙ rw (call-laid_out c b) (append_assoc b.buf (laid_out (meant c)) (laid_out_all (map meant cs)))

clumplets-laid_out :
    (c : Clumplet) (rest : Bytes) (fuel : ℕ)
    → Fits c
    → clumplets (suc fuel) (laid_out c ++ rest) ≡ Option.map (λ cs. c ∷ cs) (clumplets fuel rest)
unfolding clumplets laid_out
clumplets-laid_out c rest fuel fit =
    let n = length c.value in
    let e : uint32_le (le32 n ++ (c.value ++ rest)) ≡ n = uint32_le-le32 n (c.value ++ rest) fit in
    rw e (
      ground (
        arith,
        length-append c.value rest,
        take_left n c.value rest refl,
        drop_left n c.value rest refl,
      ))

clumplets-laid_out_all :
    (cs : List Clumplet) (fuel : ℕ)
    → length (laid_out_all cs) ≤ fuel
    → All Fits cs
    → clumplets fuel (laid_out_all cs) ≡ some cs
unfolding clumplets laid_out_all laid_out
clumplets-laid_out_all [] zero h fit = refl
clumplets-laid_out_all [] (suc fuel) h fit = refl
clumplets-laid_out_all (c ∷ cs) zero h fit = absurd (omega arith)
clumplets-laid_out_all (c ∷ cs) (suc fuel) h fit =
    clumplets-laid_out c (laid_out_all cs) fuel fit.0
    ∙ ap (Option.map (λ ds. c ∷ ds)) (
        clumplets-laid_out_all cs fuel (omega (arith, length-append c.value (laid_out_all cs)))
          fit.1)

-- Whatever calls are made on a new builder, its bytes read back as those calls' tags and values,
-- in order, if each value is shorter than 2 ^ 32.
pub decode-calls :
    (cs : List Call)
    → All Fits (map meant cs)
    → decode (bytes (calls cs new_dpb_builder)) ≡ some (map meant cs)
unfolding decode bytes new_dpb_builder
decode-calls cs fit =
    rw (calls-laid_out cs new_dpb_builder) (
      clumplets-laid_out_all (map meant cs) (length (laid_out_all (map meant cs))) (omega arith)
        fit)
