-- ===== src/Wire/StackWriter/Fits.antt =====
-- The stack writer against the growing writer's encodings: which writes fit, and what the flag tells.
use go_firebird_driver.Prelude.{
  ℕ, ◌+◌, ◌≤◌, ◌<◌, ◌≡◌, refl, sym, ◌∙◌, ap, true, false, List, [], ◌∷◌, ◌++◌, arith, append-nil,
  append_assoc, length, length-append, length-replicate, ltb, Bool-cases, inl, inr, ltb→lt, map,
}
use go_firebird_driver.Prelude.Bytes.{Bytes, be32, be64}
use go_firebird_driver.Wire.Writer.{padding, zero_pad}
use go_firebird_driver.Wire.Writer.Buffer.{length-copy_at, take-copy_at}
use go_firebird_driver.Wire.Writer.Contents.{Item, encoded, encoded_all, padded}
use go_firebird_driver.Wire.StackWriter.{
  StackWriter, stack_size, new_stack_writer, reset, overflowed, put, write_int32, write_uint32,
  write_int64, write_buffer, write_string, bytes,
}

-- The writes that the stack writer offers.
pub data Call : Type 0 where
  int32 : ℕ → Call
  uint32 : ℕ → Call
  int64 : ℕ → Call
  buffer : Bytes → Call
  string : Bytes → Call

-- The item that the growing writer would write for it.
abbrev pub meant : Call → Item
meant (int32 v) = Item.int32 v
meant (uint32 v) = Item.uint32 v
meant (int64 v) = Item.int64 v
meant (buffer d) = Item.buffer d
meant (string s) = Item.string s

pub call : Call → StackWriter → StackWriter
call (int32 v) w = write_int32 w v
call (uint32 v) w = write_uint32 w v
call (int64 v) w = write_int64 w v
call (buffer d) w = write_buffer w d
call (string s) w = write_string w s

pub calls : List Call → StackWriter → StackWriter
calls [] w = w
calls (c ∷ cs) w = calls cs (call c w)

pub record IsValid (w : StackWriter) : Type 0 where
  pub sized : length w.buf ≡ stack_size
  pub within : w.n ≤ stack_size

-- What a write that fits leaves.
record Appends (w w' : StackWriter) (d : Bytes) : Type 0 where
  valid : IsValid w'
  holds : bytes w' ≡ bytes w ++ d
  moved : w'.n ≡ w.n + length d
  flag : w'.overflow ≡ w.overflow

put-Appends :
    (w : StackWriter) (d : Bytes) → IsValid w → w.n + length d ≤ stack_size → Appends w (put w d) d
unfolding put bytes
put-Appends w d v h =
    let fits : w.n + length d ≤ length w.buf = omega (arith, v.sized) in
    let l = length-copy_at w.buf w.n d fits in
    record {
      valid = record { sized = l ∙ v.sized; within = h };
      holds = take-copy_at w.buf w.n d fits;
      moved = refl;
      flag = refl;
    }

Appends-trans :
    (w w' w'' : StackWriter) (d e : Bytes)
    → Appends w w' d
    → Appends w' w'' e
    → Appends w w'' (d ++ e)
Appends-trans w w' w'' d e p q = record {
  valid = q.valid;
  holds = q.holds ∙ ap (λ x. x ++ e) p.holds ∙ append_assoc (bytes w) d e;
  moved = omega (arith, p.moved, q.moved, length-append d e);
  flag = q.flag ∙ p.flag;
}

length-padded : (d : Bytes) → length (padded d) ≡ length d + padding (length d)
length-padded d = omega (
  arith,
  length-append d (zero_pad (padding (length d))),
  length-replicate {A = ℕ} (padding (length d)) 0,
)

put_counted :
    (w : StackWriter) (d : Bytes)
    → IsValid w
    → w.n + 4 + length d + padding (length d) ≤ stack_size
    → Appends w
        (put (put (put w (be32 (length d))) d) (zero_pad (padding (length d))))
        (be32 (length d) ++ padded d)
put_counted w d v h =
    let b = be32 (length d) in
    let z = zero_pad (padding (length d)) in
    let lz : length z ≡ padding (length d) = length-replicate {A = ℕ} (padding (length d)) 0 in
    let p = put-Appends w b v (omega arith) in
    let q = put-Appends (put w b) d p.valid (omega (arith, p.moved)) in
    let r = put-Appends (put (put w b) d) z q.valid (omega (arith, p.moved, q.moved)) in
    Appends-trans _ _ _ b (d ++ z) p (Appends-trans _ _ _ d z q r)

-- A write that fits appends its item; one that does not only sets the flag.
call_fits :
    (c : Call) (w : StackWriter)
    → IsValid w
    → w.n + length (encoded (meant c)) ≤ stack_size
    → Appends w (call c w) (encoded (meant c))
unfolding call write_int32 write_uint32 write_int64 write_buffer write_string
call_fits (int32 x) w v h =
    let no_room : ltb (length w.buf) (w.n + 4) ≡ false = ground (arith, v.sized) in
    rw no_room (put-Appends w (be32 x) v h)
call_fits (uint32 x) w v h =
    let no_room : ltb (length w.buf) (w.n + 4) ≡ false = ground (arith, v.sized) in
    rw no_room (put-Appends w (be32 x) v h)
call_fits (int64 x) w v h =
    let no_room : ltb (length w.buf) (w.n + 8) ≡ false = ground (arith, v.sized) in
    rw no_room (put-Appends w (be64 x) v h)
call_fits (buffer d) w v h =
    let room : w.n + 4 + length d + padding (length d) ≤ stack_size =
      omega (arith, length-padded d) in
    let no_room : ltb (length w.buf) (w.n + 4 + length d + padding (length d)) ≡ false =
      ground (arith, v.sized) in
    rw no_room (put_counted w d v room)
call_fits (string d) w v h =
    let room : w.n + 4 + length d + padding (length d) ≤ stack_size =
      omega (arith, length-padded d) in
    let no_room : ltb (length w.buf) (w.n + 4 + length d + padding (length d)) ≡ false =
      ground (arith, v.sized) in
    rw no_room (put_counted w d v room)

call_overflows :
    (c : Call) (w : StackWriter)
    → IsValid w
    → stack_size < w.n + length (encoded (meant c))
    → call c w ≡ record w { overflow = true }
unfolding call write_int32 write_uint32 write_int64 write_buffer write_string
call_overflows (int32 x) w v h = ground (arith, v.sized)
call_overflows (uint32 x) w v h = ground (arith, v.sized)
call_overflows (int64 x) w v h = ground (arith, v.sized)
call_overflows (buffer d) w v h = ground (arith, v.sized, length-padded d)
call_overflows (string d) w v h = ground (arith, v.sized, length-padded d)

-- The flag stays set, and the writer stays valid, through any further writes.
calls_set :
    (cs : List Call) (w : StackWriter)
    → IsValid w
    → w.overflow ≡ true
    → (calls cs w).overflow ≡ true
unfolding calls
calls_set [] w v h = h
calls_set (c ∷ cs) w v h = elim (Bool-cases (ltb stack_size (w.n + length (encoded (meant c))))) [
  | inl over ↦
      let e = call_overflows c w v (ltb→lt _ _ over) in
      calls_set cs (call c w) (rw e (record { sized = v.sized; within = v.within })) (rw e refl)
  | inr fits ↦
      let a = call_fits c w v (ground arith) in calls_set cs (call c w) a.valid (a.flag ∙ h)
]

calls_flag :
    (cs : List Call) (w : StackWriter)
    → IsValid w
    → w.overflow ≡ false
    → ((calls cs w).overflow ≡ ltb stack_size (w.n + length (encoded_all (map meant cs))))
      × (w.n + length (encoded_all (map meant cs)) ≤ stack_size
          → bytes (calls cs w) ≡ bytes w ++ encoded_all (map meant cs))
unfolding calls encoded_all
calls_flag [] w v h = (h ∙ ground (arith, v.within), λ _. sym (append-nil (bytes w)))
calls_flag (c ∷ cs) w v h =
    let one = encoded (meant c) in
    let more = encoded_all (map meant cs) in
    let l = length-append one more in
    elim (Bool-cases (ltb stack_size (w.n + length one))) [
      | inl over ↦
          let e = call_overflows c w v (ltb→lt _ _ over) in
          let set =
            calls_set cs (call c w) (rw e (record { sized = v.sized; within = v.within }))
              (rw e refl) in
          (set ∙ ground (arith, l), λ k. absurd (ground arith))
      | inr fits ↦
          let a = call_fits c w v (ground arith) in
          let (flag, holds) = calls_flag cs (call c w) a.valid (a.flag ∙ h) in
          (
            flag ∙ ap (λ (x : ℕ). ltb stack_size x) (omega (arith, l, a.moved)),
            λ k.
                holds (omega (arith, l, a.moved))
                ∙ ap (λ x. x ++ more) a.holds
                ∙ append_assoc (bytes w) one more,
          )
    ]

reset-IsValid : (w : StackWriter) → IsValid w → IsValid (reset w) × ((reset w).n ≡ 0)
unfolding reset
reset-IsValid w v = (record { sized = v.sized; within = omega arith }, refl)

-- After a reset of a writer whose array has its 1024 bytes, any sequence of writes sets the
-- overflow flag exactly when their encodings together pass 1024 bytes.
pub overflowed-calls :
    (cs : List Call) (w : StackWriter)
    → IsValid w
    → overflowed (calls cs (reset w)) ≡ ltb stack_size (length (encoded_all (map meant cs)))
unfolding overflowed reset
overflowed-calls cs w v =
    (calls_flag cs (reset w) (reset-IsValid w v).0 refl).0
    ∙ ap (λ (x : ℕ). ltb stack_size x) (omega arith)

-- After a reset of a writer whose array has its 1024 bytes, writes that leave the overflow flag
-- clear buffer exactly the bytes that the growing writer would have produced for them.
pub bytes-calls :
    (cs : List Call) (w : StackWriter)
    → IsValid w
    → overflowed (calls cs (reset w)) ≡ false
    → bytes (calls cs (reset w)) ≡ encoded_all (map meant cs)
unfolding reset bytes
bytes-calls cs w v clear =
    let fits = sym (overflowed-calls cs w v) ∙ clear in
    (calls_flag cs (reset w) (reset-IsValid w v).0 refl).1 (ground arith)

pub new_stack_writer-IsValid : IsValid new_stack_writer
unfolding new_stack_writer
new_stack_writer-IsValid = record {
  sized = length-replicate {A = ℕ} stack_size 0;
  within = omega arith;
}
