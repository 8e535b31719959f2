-- ===== src/Wire/Describe/Complete.antt =====
-- internal/wire/statement.go: `CompleteSQLDescribe` and `applyNoneCharset`, against a server that cuts its replies.
-- `InfoSQL` on the statement and the length at hand is `ask`.
use go_firebird_driver.Prelude.{
  ℕ, zero, suc, ◌+◌, ◌≤◌, ◌<◌, ◌≡◌, refl, ◌∙◌, ap, Bool, true, false, List, [], ◌∷◌, Option, none,
  some, arith, ◌⊎◌, inl, inr, length, length-take, map, ◌==◌, ◌&&◌, ◌||◌, if◌then◌else◌,
}
use go_firebird_driver.Prelude.Bytes.{Bytes}
use go_firebird_driver.Wire.Protocol.{sql_text, sql_varying}
use go_firebird_driver.Wire.Blr.{base_type}
use go_firebird_driver.Wire.Info.{ColumnDescriptor, items_with_sqlda_start}
use go_firebird_driver.Wire.Describe.{DescribeState, blank_state, parse_sql_describe_chunk}
use go_firebird_driver.Wire.Describe.Fields.{described}
use go_firebird_driver.Wire.Describe.Server.{
  Statement, IsStatement, Cut, reply, whole_reply, next_out, next_in, IsCut, IsCuts, next_reply,
  later, Resumes, items_with_sqlda_start-Resumes,
}
use go_firebird_driver.Wire.Describe.Chunks.{
  Tracks, IsDescribed, parse_sql_describe_chunk-reply, parse_sql_describe_chunk-whole_reply,
}

-- The loop of `applyNoneCharset`; 0 is charset.IDNone.
unfoldable pub reinterpret : ℕ → List ColumnDescriptor → List ColumnDescriptor
reinterpret id [] = []
reinterpret id (d ∷ ds) =
    let t = base_type d.sql_type in
    let rest = reinterpret id ds in
    if d.sub_type == 0 && (t == sql_text || t == sql_varying)
    then record d { sub_type = id; sub_type_from_none = true } ∷ rest
    else d ∷ rest

-- `applyNoneCharset`, on the connection's `noneCharsetID`.
unfoldable pub apply_none_charset : ℕ → List ColumnDescriptor → List ColumnDescriptor
apply_none_charset none_charset_id descs =
    if none_charset_id == 0 then descs else reinterpret none_charset_id descs

-- The errors of `CompleteSQLDescribe`.
pub data DescribeError {ℓ} (E : Type ℓ) : Type ℓ where
  continuation : E → DescribeError E
  no_progress : DescribeError E

-- What `CompleteSQLDescribe` returns.
pub record Description : Type 0 where
  pub stmt_type : ℕ
  pub outputs : List ColumnDescriptor
  pub inputs : List ColumnDescriptor

abbrev pub done_sum : DescribeState → ℕ
done_sum st = st.outputs.done + st.inputs.done

-- `contItems`
abbrev pub cont_items : Bytes → DescribeState → Bytes
cont_items items st = items_with_sqlda_start items (st.outputs.done + 1) (st.inputs.done + 1)

-- What the loop of `CompleteSQLDescribe` ends with.
abbrev pub Completed {ℓ κ} : Type ℓ → Type κ → Type (ℓ ⊔ κ)
Completed E W = Option ((DescribeError E ⊎ DescribeState) × W)

-- The last lines of `CompleteSQLDescribe`.
unfoldable pub returned {ℓ κ} :
    {E : Type ℓ} {W : Type κ} → ℕ → Completed E W → Option ((DescribeError E ⊎ Description) × W)
returned none_charset_id none = none
returned none_charset_id (some (inl e, w)) = some (inl e, w)
returned none_charset_id (some (inr st, w)) = some (
  inr (record {
    stmt_type = st.stmt_type;
    outputs = apply_none_charset none_charset_id st.outputs.columns;
    inputs = apply_none_charset none_charset_id st.inputs.columns;
  }),
  w,
)

module _ {ℓ κ} {E : Type ℓ} {W : Type κ} (grow : ℕ → ℕ) (ask : Bytes → W → (E ⊎ Bytes) × W)
    (items : Bytes) where
  -- The end of a round, on what the answer was parsed into.
  unfoldable pub resume :
      (DescribeState → Bool → W → Completed E W)
      → DescribeState
      → W
      → Option (DescribeState × Bool)
      → Completed E W
  resume more st w none = none
  resume more st w (some (st', truncated)) =
      if truncated && done_sum st' == done_sum st
      then some (inl no_progress, w)
      else more st' truncated w

  -- The rest of a round, on the answer of `InfoSQL`.
  unfoldable pub answered :
      (DescribeState → Bool → W → Completed E W) → DescribeState → (E ⊎ Bytes) × W → Completed E W
  answered more st (inl e, w) = some (inl (continuation e), w)
  answered more st (inr d, w) = resume more st w (parse_sql_describe_chunk grow d st)

  -- The loop of `CompleteSQLDescribe`, with fuel.
  unfoldable pub complete_loop : ℕ → DescribeState → Bool → W → Completed E W
  complete_loop fuel st false w = some (inr st, w)
  complete_loop zero st true w = none
  complete_loop (suc fuel) st true w =
      answered (complete_loop fuel) st (ask (cont_items items st) w)

  unfoldable pub after_first : ℕ → W → Option (DescribeState × Bool) → Completed E W
  after_first fuel w none = none
  after_first fuel w (some (st, truncated)) = complete_loop fuel st truncated w

  -- `CompleteSQLDescribe`
  unfoldable pub complete_sql_describe :
      ℕ → ℕ → Bytes → W → Option ((DescribeError E ⊎ Description) × W)
  complete_sql_describe none_charset_id fuel buf w =
      returned none_charset_id (after_first fuel w (parse_sql_describe_chunk grow buf blank_state))

  complete_loop-step :
      (fuel : ℕ) (st st' : DescribeState) (truncated : Bool) (w w' : W) (d : Bytes)
      → ask (cont_items items st) w ≡ (inr d, w')
      → parse_sql_describe_chunk grow d st ≡ some (st', truncated)
      → (truncated && done_sum st' == done_sum st) ≡ false
      → complete_loop (suc fuel) st true w ≡ complete_loop fuel st' truncated w'
  unfolding complete_loop answered resume
  complete_loop-step fuel st st' truncated w w' d a p q =
      ap (answered (complete_loop fuel) st) a ∙ ap (resume (complete_loop fuel) st w') p ∙ rw q refl

Tracks-done :
    (grow : ℕ → ℕ) (s : Statement) (a b : ℕ) (st : DescribeState)
    → Tracks grow s a b st
    → (st.outputs.done ≡ a) × (st.inputs.done ≡ b)
Tracks-done grow s a b st (wa, wb, (o, w), (i, w')) =
    (omega (arith, o, length-take a s.outs), omega (arith, i, length-take b s.ins))

-- A server that answers a request for the rest, made with the list of items, by the next of the cuts.
abbrev pub Serves {ℓ} :
    {E : Type ℓ} → Statement → Bytes → (Bytes → List Cut → (E ⊎ Bytes) × List Cut) → Type ℓ
Serves s items ask =
    (a b : ℕ) (request : Bytes) (cuts : List Cut)
    → a ≤ length s.outs
    → b ≤ length s.ins
    → Resumes (a + 1) (b + 1) items request
    → ask request cuts ≡ (inr (next_reply s a b cuts), later cuts)

module _ {ℓ} {E : Type ℓ} (grow : ℕ → ℕ) (s : Statement) (items : Bytes)
    (ask : Bytes → List Cut → (E ⊎ Bytes) × List Cut) (serves : Serves s items ask)
    (wf : IsStatement s) where
  asks :
      (a b : ℕ) (cuts : List Cut) (st : DescribeState)
      → a ≤ length s.outs
      → b ≤ length s.ins
      → (st.outputs.done ≡ a) × (st.inputs.done ≡ b)
      → ask (cont_items items st) cuts ≡ (inr (next_reply s a b cuts), later cuts)
  asks a b cuts st h h' (o, i) =
      ap (λ x. ask (items_with_sqlda_start items (x + 1) (st.inputs.done + 1)) cuts) o
      ∙ ap (λ x. ask (items_with_sqlda_start items (a + 1) (x + 1)) cuts) i
      ∙ serves a b (items_with_sqlda_start items (a + 1) (b + 1)) cuts h h'
          (items_with_sqlda_start-Resumes items (a + 1) (b + 1))

  progress_lem :
      (a b : ℕ) (c : Cut)
      → a ≤ length s.outs
      → IsCut s 1 a b c
      → a + b < next_out s a c + next_in b c
  progress_lem a b (Cut.in_outputs m j) h w = omega (arith, w.0)
  progress_lem a b (Cut.in_inputs m j) h w = omega (arith, w.0)

  start : Tracks grow s 0 0 blank_state
  start = (omega arith, omega arith, (refl, ([], refl, tt)), (refl, ([], refl, tt)))

  complete_loop-Serves :
      (fuel a b : ℕ) (cuts : List Cut) (st : DescribeState)
      → length cuts < fuel
      → Tracks grow s a b st
      → IsCuts s 1 a b cuts
      → (st' : DescribeState) × (complete_loop grow ask items fuel st true cuts
          ≡ some (inr st', []))
        × IsDescribed grow s st'
  unfolding next_reply complete_loop
  complete_loop-Serves zero a b cuts st h w c = absurd (omega arith)
  complete_loop-Serves (suc fuel) a b [] st h w c =
      let (st', e, d) = parse_sql_describe_chunk-whole_reply grow s a b st wf w in
      let (o, i) = Tracks-done grow s a b st w in
      let asked = asks a b [] st w.0 w.1 (o, i) in
      (
        st',
        complete_loop-step grow ask items fuel st st' false [] [] (whole_reply s a b) asked e refl,
        d,
      )
  complete_loop-Serves (suc fuel) a b (cut ∷ cuts) st h w (c, cs) =
      let (st', e, w') = parse_sql_describe_chunk-reply grow s 1 a b cut st wf c w in
      let (o, i) = Tracks-done grow s a b st w in
      let (o', i') = Tracks-done grow s (next_out s a cut) (next_in b cut) st' w' in
      let progress : (true && done_sum st' == done_sum st) ≡ false =
        ground (arith, progress_lem a b cut (w.0) c, o, i, o', i') in
      let asked = asks a b (cut ∷ cuts) st w.0 w.1 (o, i) in
      let (st'', e', d) =
        complete_loop-Serves fuel (next_out s a cut) (next_in b cut) cuts st' (omega arith) w' cs in
      (
        st'',
        complete_loop-step grow ask items fuel st st' true (cut ∷ cuts) cuts (reply s a b cut) asked
              e progress
            ∙ e',
        d,
      )

  -- The first reply, and the rest.
  after_first-Serves :
      (fuel : ℕ) (cuts : List Cut)
      → length cuts ≤ fuel
      → IsCuts s 0 0 0 cuts
      → (st : DescribeState) × (after_first grow ask items fuel
            (later cuts)
            (parse_sql_describe_chunk grow (next_reply s 0 0 cuts) blank_state)
          ≡ some (inr st, []))
        × IsDescribed grow s st
  unfolding after_first next_reply complete_loop
  after_first-Serves fuel [] h c =
      let (st, e, d) = parse_sql_describe_chunk-whole_reply grow s 0 0 blank_state wf start in
      (st, ap (after_first grow ask items fuel []) e, d)
  after_first-Serves fuel (cut ∷ cuts) h (c, cs) =
      let (st, e, w) = parse_sql_describe_chunk-reply grow s 0 0 0 cut blank_state wf c start in
      let (st', e', d) =
        complete_loop-Serves fuel (next_out s 0 cut) (next_in 0 cut) cuts st (omega arith) w cs in
      (st', ap (after_first grow ask items fuel cuts) e ∙ e', d)

  -- What `CompleteSQLDescribe` returns, by the settings one after the other.
  pub complete_sql_describe-described :
      (none_charset_id fuel : ℕ) (cuts : List Cut)
      → length cuts ≤ fuel
      → IsCuts s 0 0 0 cuts
      → complete_sql_describe grow ask items none_charset_id fuel
          (next_reply s 0 0 cuts)
          (later cuts)
        ≡ some (
          inr (record {
            stmt_type = s.kind;
            outputs = apply_none_charset none_charset_id (map described s.outs);
            inputs = apply_none_charset none_charset_id (map described s.ins);
          }),
          [],
        )
  unfolding complete_sql_describe returned
  complete_sql_describe-described none_charset_id fuel cuts h c =
      let (st, e, (k, o, i)) = after_first-Serves fuel cuts h c in
      ap (returned none_charset_id) e ∙ rw (k, o, i) refl
