-- ===== src/Wire/Status/Vector.antt =====
-- The parser of status vectors over the arguments that a server sends, whatever the stream looks like.
use mathlib.Core.Path.{subst}
use go_firebird_driver.Prelude.{
  ℕ, zero, suc, ◌*◌, ◌^◌, ◌≤◌, ◌<◌, ◌≡◌, refl, sym, ◌∙◌, ap, false, List, [], ◌∷◌, ◌++◌, none,
  arith, append_assoc, length, length-append, All, ◌⊎◌,
}
use go_firebird_driver.Prelude.Bytes.{Bytes, be32}
use go_firebird_driver.Wire.Protocol.{
  isc_arg_end, isc_arg_gds, isc_arg_string, isc_arg_cstring, isc_arg_number, isc_arg_interpreted,
  isc_arg_warning, isc_arg_sql_state,
}
use go_firebird_driver.Wire.Writer.Contents.{padded}
use go_firebird_driver.Wire.Reader.{Reader, max_wire_buffer_len, read_int32, read_string, pending}
use go_firebird_driver.Wire.Reader.Filling.{Holds}
use go_firebird_driver.Wire.Reader.Stream.{read_int32-be32, read_string-padded}
use go_firebird_driver.Wire.Status.{
  ParseState, start, on_gds, on_warning, on_text, on_number, on_sql_state, Action, action, consume,
  is_finish, parse_loop, read_status_vector_slow,
}

-- One tag with its value, as it stands in a status vector.
pub data Arg : Type 0 where
  gds warning number : ℕ → Arg
  text : ℕ → Bytes → Arg
  sql_state : Bytes → Arg

abbrev counted : Bytes → Bytes
counted s = be32 (length s) ++ padded s

unfoldable pub arg_bytes : Arg → Bytes
arg_bytes (Arg.gds c) = be32 isc_arg_gds ++ be32 c
arg_bytes (Arg.warning c) = be32 isc_arg_warning ++ be32 c
arg_bytes (Arg.number n) = be32 isc_arg_number ++ be32 n
arg_bytes (Arg.text tag s) = be32 tag ++ counted s
arg_bytes (Arg.sql_state s) = be32 isc_arg_sql_state ++ counted s

unfoldable pub args_bytes : List Arg → Bytes
args_bytes [] = []
args_bytes (x ∷ xs) = arg_bytes x ++ args_bytes xs

-- Codes and numbers have four bytes, texts have one of their three tags and are not over 64 MiB.
abbrev pub IsSendable : Arg → Type 0
IsSendable (Arg.gds c) = c < 2 ^ 32
IsSendable (Arg.warning c) = c < 2 ^ 32
IsSendable (Arg.number n) = n < 2 ^ 32
IsSendable (Arg.text tag s) =
    ((tag ≡ isc_arg_string) ⊎ ((tag ≡ isc_arg_cstring) ⊎ (tag ≡ isc_arg_interpreted)))
    × (length s ≤ max_wire_buffer_len)
IsSendable (Arg.sql_state s) = length s ≤ max_wire_buffer_len

abbrev pub effect : Arg → ParseState → ParseState
effect (Arg.gds c) st = on_gds c st
effect (Arg.warning c) st = on_warning c st
effect (Arg.number n) st = on_number n st
effect (Arg.text tag s) st = on_text s st
effect (Arg.sql_state s) st = on_sql_state s st

unfoldable pub effects : List Arg → ParseState → ParseState
effects [] st = st
effects (x ∷ xs) st = effects xs (effect x st)

parse_loop-clear :
    (fuel : ℕ) (r : Reader) (st : ParseState) (a : Action)
    → (read_int32 r).1.err ≡ none
    → action (read_int32 r).0 ≡ a
    → is_finish a ≡ false
    → (consume a (read_int32 r).1 st).1.err ≡ none
    → parse_loop (suc fuel) r st
      ≡ parse_loop fuel (consume a (read_int32 r).1 st).1 (consume a (read_int32 r).1 st).0
unfolding parse_loop
parse_loop-clear fuel r st a e t f e' = ground arith

-- What one round does with an argument at the front of the stream.
record Consumes (a : Arg) (r : Reader) (st : ParseState) (more : Bytes) : Type 0 where
  act : Action
  clear : (read_int32 r).1.err ≡ none
  acts : action (read_int32 r).0 ≡ act
  goes_on : is_finish act ≡ false
  effective : (consume act (read_int32 r).1 st).0 ≡ effect a st
  holds : Holds (consume act (read_int32 r).1 st).1 more

-- A tag with a number behind it.
number-Consumes :
    (a : Arg) (act : Action) (tag v : ℕ) (r : Reader) (st : ParseState) (more : Bytes)
    → tag < 2 ^ 32
    → v < 2 ^ 32
    → action tag ≡ act
    → is_finish act ≡ false
    → ((r' : Reader) → (read_int32 r').0 ≡ v → consume act r' st ≡ (effect a st, (read_int32 r').1))
    → Holds r ((be32 tag ++ be32 v) ++ more)
    → Consumes a r st more
number-Consumes a act tag v r st more b c t f does h =
    let (e, h') = read_int32-be32 r tag (be32 v ++ more) b h in
    let (e', h'') = read_int32-be32 (read_int32 r).1 v more c h' in
    let d = does (read_int32 r).1 e' in
    record {
      act = act;
      clear = h'.clear;
      acts = ap action e ∙ t;
      goes_on = f;
      effective = ap (λ x. x.0) d;
      holds = subst (λ x. Holds x.1 more) (sym d) h'';
    }

-- A tag with a counted text behind it.
text-Consumes :
    (a : Arg) (act : Action) (tag : ℕ) (s : Bytes) (r : Reader) (st : ParseState) (more : Bytes)
    → tag < 2 ^ 32
    → length s ≤ max_wire_buffer_len
    → action tag ≡ act
    → is_finish act ≡ false
    → ((r' : Reader)
        → (read_string r').0 ≡ s
        → consume act r' st ≡ (effect a st, (read_string r').1))
    → Holds r ((be32 tag ++ counted s) ++ more)
    → Consumes a r st more
text-Consumes a act tag s r st more b c t f does h =
    let shape : (be32 tag ++ counted s) ++ more
        ≡ be32 tag ++ (be32 (length s) ++ (padded s ++ more)) =
      refl in
    let (e, h') = read_int32-be32 r tag (be32 (length s) ++ (padded s ++ more)) b h in
    let (e', h'') = read_string-padded (read_int32 r).1 s more c h' in
    let d = does (read_int32 r).1 e' in
    record {
      act = act;
      clear = h'.clear;
      acts = ap action e ∙ t;
      goes_on = f;
      effective = ap (λ x. x.0) d;
      holds = subst (λ x. Holds x.1 more) (sym d) h'';
    }

tag_lt :
    (tag : ℕ)
    → ((tag ≡ isc_arg_string) ⊎ ((tag ≡ isc_arg_cstring) ⊎ (tag ≡ isc_arg_interpreted)))
    → tag < 2 ^ 32
tag_lt tag h = omega arith

arg-Consumes :
    (a : Arg) (r : Reader) (st : ParseState) (more : Bytes)
    → IsSendable a
    → Holds r (arg_bytes a ++ more)
    → Consumes a r st more
unfolding arg_bytes action consume
arg-Consumes (Arg.gds c) r st more s h =
    number-Consumes (Arg.gds c) Action.gds isc_arg_gds c r st more (omega arith) s refl refl
      (λ r' e. rw e refl) h
arg-Consumes (Arg.warning c) r st more s h =
    number-Consumes (Arg.warning c) Action.warning isc_arg_warning c r st more (omega arith) s refl
      refl (λ r' e. rw e refl) h
arg-Consumes (Arg.number c) r st more s h =
    number-Consumes (Arg.number c) Action.numeric isc_arg_number c r st more (omega arith) s refl
      refl (λ r' e. rw e refl) h
arg-Consumes (Arg.text tag t) r st more s h =
    text-Consumes (Arg.text tag t) Action.textual tag t r st more (tag_lt tag s.0) s.1
      (ground arith) refl (λ r' e. rw e refl) h
arg-Consumes (Arg.sql_state t) r st more s h =
    text-Consumes (Arg.sql_state t) Action.state isc_arg_sql_state t r st more (omega arith) s refl
      refl (λ r' e. rw e refl) h

parse_loop_end :
    (fuel : ℕ) (r : Reader) (st : ParseState)
    → (read_int32 r).1.err ≡ none
    → (read_int32 r).0 ≡ isc_arg_end
    → parse_loop (suc fuel) r st ≡ (st.sv, (read_int32 r).1)
unfolding parse_loop action
parse_loop_end fuel r st e t = ground arith

-- The loop applies the arguments in order up to the end tag, and reads nothing behind it.
pub parse_loop-args_bytes :
    (xs : List Arg) (fuel : ℕ) (r : Reader) (st : ParseState) (rest : Bytes)
    → length xs < fuel
    → All IsSendable xs
    → Holds r (args_bytes xs ++ (be32 isc_arg_end ++ rest))
    → ((parse_loop fuel r st).0 ≡ (effects xs st).sv) × Holds (parse_loop fuel r st).1 rest
unfolding args_bytes effects
parse_loop-args_bytes xs zero r st rest f s h = absurd (omega arith)
parse_loop-args_bytes [] (suc fuel) r st rest f s h =
    let (e, h') = read_int32-be32 r isc_arg_end rest (omega arith) h in
    rw (parse_loop_end fuel r st h'.clear e) (refl, h')
parse_loop-args_bytes (x ∷ xs) (suc fuel) r st rest f s h =
    let more = args_bytes xs ++ (be32 isc_arg_end ++ rest) in
    let c =
      arg-Consumes x r st more s.0 (
        subst (Holds r) (append_assoc (arg_bytes x) (args_bytes xs) (be32 isc_arg_end ++ rest))
          h) in
    let next = consume c.act (read_int32 r).1 st in
    let (e, h') =
      parse_loop-args_bytes xs fuel next.1 (effect x st) rest (omega arith) s.1 c.holds in
    rw (parse_loop-clear fuel r st c.act c.clear c.acts c.goes_on c.holds.clear, c.effective)
      (e, h')

length-arg_bytes : (x : Arg) → 8 ≤ length (arg_bytes x)
unfolding arg_bytes
length-arg_bytes (Arg.gds c) = omega arith
length-arg_bytes (Arg.warning c) = omega arith
length-arg_bytes (Arg.number c) = omega arith
length-arg_bytes (Arg.text tag t) = omega arith
length-arg_bytes (Arg.sql_state t) = omega arith

length-args_bytes : (xs : List Arg) → 8 * length xs ≤ length (args_bytes xs)
unfolding args_bytes arg_bytes
length-args_bytes [] = omega arith
length-args_bytes (x ∷ xs) =
    omega
      (arith, length-args_bytes xs, length-append (arg_bytes x) (args_bytes xs), length-arg_bytes x)

-- The full parser, on the arguments of a status vector with its end tag.
pub read_slow-args_bytes :
    (xs : List Arg) (r : Reader) (rest : Bytes)
    → All IsSendable xs
    → Holds r (args_bytes xs ++ (be32 isc_arg_end ++ rest))
    → ((read_status_vector_slow r).0 ≡ (effects xs start).sv)
      × Holds (read_status_vector_slow r).1 rest
unfolding read_status_vector_slow
read_slow-args_bytes xs r rest s h =
    let l1 = length-append (args_bytes xs) (be32 isc_arg_end ++ rest) in
    let l2 : length (pending r) ≡ length (args_bytes xs ++ (be32 isc_arg_end ++ rest)) =
      ap length h.left in
    parse_loop-args_bytes xs (suc (length (pending r))) r start rest
      (omega (arith, length-args_bytes xs)) s h
