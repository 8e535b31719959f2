-- ===== src/Wire/Status/Whole.antt =====
-- Whole status vectors through the parser and its fast path.
use go_firebird_driver.Prelude.{
  ℕ, ◌^◌, ◌≤◌, ◌<◌, ◌≡◌, ◌≢◌, refl, ◌∙◌, ap, false, List, [], ◌∷◌, ◌++◌, some, arith, length,
  length-append, take, All, if◌then◌else◌, map, Bool-cases, inl, inr,
}
use go_firebird_driver.Prelude.Bytes.{Bytes, be32}
use go_firebird_driver.Wire.Protocol.{isc_arg_end, isc_arg_gds, isc_arg_warning}
use go_firebird_driver.Wire.Reader.{ReadError, Reader, peek_bytes, unexpected_eof}
use go_firebird_driver.Wire.Reader.Filling.{Holds}
use go_firebird_driver.Wire.Reader.Faults.{reads_after_error}
use go_firebird_driver.Wire.Reader.Stream.{peek_bytes-Holds, peek_bytes_short}
use go_firebird_driver.Wire.Status.{
  empty_vector, start, on_gds, parse_loop, read_status_vector_slow, is_success, read_status_vector,
}
use go_firebird_driver.Wire.Status.Vector.{
  Arg, arg_bytes, args_bytes, effects, read_slow-args_bytes,
}
use go_firebird_driver.Wire.Status.Entries.{
  Entry, param_arg, state_args, entry_args, entries_args, errors_in, warnings_in, IsEntry,
  entries_effects, entries_args-IsSendable,
}

-- The three numbers of a success.
abbrev pub success : Bytes
success = be32 isc_arg_gds ++ (be32 0 ++ be32 isc_arg_end)

not_success :
    (tag code : ℕ) (more : Bytes)
    → code < 2 ^ 32
    → code ≢ 0
    → is_success (take 12 (be32 tag ++ (be32 code ++ more))) ≡ false
unfolding is_success
not_success tag code more b ne = ground arith

-- The bytes of a vector with entries begin with a tag and the first code.
front :
    (e : Entry) (es : List Entry) (rest : Bytes)
    → (tag : ℕ) × (more : Bytes) × (args_bytes (entries_args (e ∷ es)) ++ (be32 isc_arg_end ++ rest)
        ≡ be32 tag ++ (be32 e.code ++ more))
      × (4 ≤ length more)
unfolding args_bytes arg_bytes entries_args entry_args
front e es rest =
    let others = args_bytes ((map param_arg e.params ++ state_args e.state) ++ entries_args es) in
    let more = others ++ (be32 isc_arg_end ++ rest) in
    (
      if e.is_warning then isc_arg_warning else isc_arg_gds,
      more,
      elim (Bool-cases e.is_warning) [ inl w ↦ rw w refl | inr w ↦ rw w refl ],
      omega (arith, length-append others (be32 isc_arg_end ++ rest)),
    )

code_fits : (e : Entry) → IsEntry e → e.code < 2 ^ 32
unfolding entry_args
code_fits e h = ground arith

slow_after_error :
    (r : Reader) (e : ReadError) → r.err ≡ some e → read_status_vector_slow r ≡ (empty_vector, r)
unfolding read_status_vector_slow parse_loop
slow_after_error r e h = ground (arith, (reads_after_error r e 4 h (omega arith)).2)

-- Without the twelve bytes of a success the full parser runs behind the peek.
slow_path :
    (r : Reader)
    → is_success (peek_bytes r 12).0 ≡ false
    → read_status_vector r ≡ read_status_vector_slow (peek_bytes r 12).1
unfolding read_status_vector
slow_path r e = rw e

-- On the twelve bytes of a success the fast path and the full parser return the same empty
-- vector, and both read exactly these bytes.
pub fast_path-slow :
    (r : Reader) (rest : Bytes)
    → Holds r (success ++ rest)
    → ((read_status_vector r).0 ≡ empty_vector)
      × ((read_status_vector_slow r).0 ≡ empty_vector)
      × Holds (read_status_vector r).1 rest
      × Holds (read_status_vector_slow r).1 rest
unfolding read_status_vector is_success args_bytes arg_bytes effects on_gds
fast_path-slow r rest h =
    let (view, still, skipped) = peek_bytes-Holds r (success ++ rest) 12 h (omega arith) in
    let (e, h') = read_slow-args_bytes (Arg.gds 0 ∷ []) r rest (omega arith, tt) h in
    rw (ap is_success view) (refl, e, skipped, h')

-- The vector of at least one error or warning is returned as the server means it: the errors and
-- the warnings in order, each with its code, its arguments, its texts joined and its SQLSTATE;
-- and the reader stops right behind the end tag. Codes are not zero, numbers have 32 bits, and
-- texts at most 64 MiB.
pub read_status_vector-entries :
    (e : Entry) (es : List Entry) (r : Reader) (rest : Bytes)
    → All IsEntry (e ∷ es)
    → Holds r (args_bytes (entries_args (e ∷ es)) ++ (be32 isc_arg_end ++ rest))
    → ((read_status_vector r).0
        ≡ record { errors = errors_in (e ∷ es); warnings = warnings_in (e ∷ es) })
      × Holds (read_status_vector r).1 rest
read_status_vector-entries e es r rest s h =
    let bs = args_bytes (entries_args (e ∷ es)) ++ (be32 isc_arg_end ++ rest) in
    let (tag, more, shape, l) = front e es rest in
    let (view, still, skipped) = peek_bytes-Holds r bs 12 h (omega (arith, ap length shape)) in
    let slow = slow_path r (
      ap is_success view
      ∙ ap (λ x. is_success (take 12 x)) shape
      ∙ not_success tag e.code more (code_fits e s.0) s.0.0) in
    let (x, h') =
      read_slow-args_bytes (entries_args (e ∷ es)) (peek_bytes r 12).1 rest
        (entries_args-IsSendable (e ∷ es) s) still in
    rw slow (x ∙ entries_effects (e ∷ es) start s, h')

-- The shortest vector, an end tag alone, is not read at the end of the stream: the peek for
-- twelve bytes fails with io.ErrUnexpectedEOF, where the full parser returns the empty vector and
-- reads exactly these bytes.
pub short_vector :
    (r : Reader)
    → Holds r (be32 isc_arg_end)
    → ((read_status_vector r).1.err ≡ some unexpected_eof)
      × ((read_status_vector_slow r).0 ≡ empty_vector)
      × Holds (read_status_vector_slow r).1 []
unfolding args_bytes effects
short_vector r h =
    let (none_seen, e) = peek_bytes_short r (be32 isc_arg_end) 12 h (omega arith) in
    let slow = slow_path r (ap is_success none_seen ∙ unfold is_success in refl) in
    let (x, h') = read_slow-args_bytes [] r [] tt h in
    (rw (slow, slow_after_error (peek_bytes r 12).1 unexpected_eof e) e, x, h')
