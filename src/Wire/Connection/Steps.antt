-- ===== src/Wire/Connection/Steps.antt =====
-- Requests and responses in step: which responses a connection still expects, and which the stream holds.
use mathlib.Core.Path.{subst}
use go_firebird_driver.Prelude.{
  ℕ, suc, ◌≡◌, refl, sym, ◌∙◌, ap, true, false, List, [], ◌∷◌, ◌++◌, Option, none, some, inl, inr,
  arith, length, length-append, All, All-append, if◌then◌else◌, Bool-cases, Option-cases,
}
use go_firebird_driver.Prelude.Bytes.{Bytes}
use go_firebird_driver.Wire.Writer.{bytes}
use go_firebird_driver.Wire.Writer.Buffer
use go_firebird_driver.Wire.Reader.{Reader}
use go_firebird_driver.Wire.Reader.Filling.{Holds}
use go_firebird_driver.Wire.Response.{
  GenericResponse, no_response, ResponseError, refused, read_response,
}
use go_firebird_driver.Wire.Response.Message.{
  Message, message_then, IsMessage, vector, meant, is_refusal, refusal, read_response-message,
}
use go_firebird_driver.Wire.Connection.{
  WireConnection, consume_loop, consume_deferred, Reply, read_direct, read_reply,
}

-- Messages one behind the other, in front of `rest`.
unfoldable pub messages_then : List Message → Bytes → Bytes
messages_then [] rest = rest
messages_then (m ∷ ms) rest = message_then m (messages_then ms rest)

-- The reader's side: the stream holds the responses that the connection counts as deferred, then `rest`.
pub record IsDue (wc : WireConnection) (ms : List Message) (rest : Bytes) : Type 0 where
  pub holds : Holds wc.reader (messages_then ms rest)
  pub due : wc.deferred_count ≡ length ms
  pub sendable : All IsMessage ms

-- The writer's side: nothing is buffered, and the transport takes all writes.
pub record IsFlushed (wc : WireConnection) : Type 0 where
  pub valid : Buffer.IsValid wc.writer
  pub empty : bytes wc.writer ≡ []
  pub healthy : All (λ e. e ≡ none) wc.write_results

-- The first refusal among deferred responses.
unfoldable pub first_refusal : List Message → Option Message
first_refusal [] = none
first_refusal (d ∷ ds) =
    let later = first_refusal ds in if is_refusal d.entries then some d else later

-- The responses behind the first refusal; none where nothing is refused.
unfoldable pub behind_refusal : List Message → List Message
behind_refusal [] = []
behind_refusal (d ∷ ds) =
    let later = behind_refusal ds in if is_refusal d.entries then ds else later

-- The responses still due after one more was asked for: a deferred refusal ends the reading, so that the
-- own response of the request is left, too.
abbrev pub if_refused : Option Message → List Message → List Message
if_refused none ms = []
if_refused (some d) ms = ms

abbrev pub still_due : List Message → Message → List Message
still_due ds m = if_refused (first_refusal ds) (behind_refusal ds ++ m ∷ [])

abbrev pub refused_by : Message → ResponseError
refused_by m = refused (vector m.entries)

consume_loop-step :
    (n : ℕ) (r : Reader) (m : Message)
    → (read_response r).failure ≡ refusal m
    → consume_loop (suc n) r ≡ (
        if is_refusal m.entries
        then (some (refused_by m), suc n, (read_response r).reader)
        else consume_loop n (read_response r).reader)
unfolding consume_loop
consume_loop-step n r m e = ground arith

-- The responses still counted after the reading ended at a refusal, or at the end.
unfoldable count_after : Option Message → List Message → ℕ
count_after none ds = 0
count_after (some d) ds = suc (length ds)

-- What `consumeDeferred` does with the responses that are due, in front of anything.
record Consumed (x : Option ResponseError × ℕ × Reader) (ds : List Message) (after : Bytes)
    : Type 0 where
  error : x.0 ≡ elim (first_refusal ds) [ some d ↦ some (refused_by d) | none ↦ none ]
  count : x.1 ≡ count_after (first_refusal ds) (behind_refusal ds)
  holds : Holds x.2 (messages_then (behind_refusal ds) after)

at_refusal :
    (d : Message) (ds : List Message)
    → is_refusal d.entries ≡ true
    → (first_refusal (d ∷ ds) ≡ some d) × (behind_refusal (d ∷ ds) ≡ ds)
unfolding first_refusal behind_refusal
at_refusal d ds y = rw y (refl, refl)

past_answer :
    (d : Message) (ds : List Message)
    → is_refusal d.entries ≡ false
    → (first_refusal (d ∷ ds) ≡ first_refusal ds) × (behind_refusal (d ∷ ds) ≡ behind_refusal ds)
unfolding first_refusal behind_refusal
past_answer d ds y = rw y (refl, refl)

consume_loop-messages :
    (ds : List Message) (r : Reader) (after : Bytes)
    → All IsMessage ds
    → Holds r (messages_then ds after)
    → Consumed (consume_loop (length ds) r) ds after
unfolding messages_then consume_loop
consume_loop-messages [] r after s h =
    unfold first_refusal behind_refusal in
    unfold count_after in record { error = refl; count = refl; holds = h }
consume_loop-messages (d ∷ ds) r after s h =
    let (resp, e, h') = read_response-message d r (messages_then ds after) s.0 h in
    let k = consume_loop-messages ds (read_response r).reader after s.1 h' in
    let step = consume_loop-step (length ds) r d e in
    elim (Bool-cases (is_refusal d.entries)) [
      | inl y ↦
          let (a, b) = at_refusal d ds y in
          rw (step, y)
            (record {
              error = rw a refl;
              count = sym (unfold count_after in rw (a, b) refl);
              holds = rw b h';
            })
      | inr y ↦
          let (a, b) = past_answer d ds y in
          rw (step, y)
            (record { error = rw a k.error; count = let c = k.count in cc; holds = rw b k.holds })
    ]

messages_then-snoc :
    (ms : List Message) (m : Message) (rest : Bytes)
    → messages_then (ms ++ m ∷ []) rest ≡ messages_then ms (message_then m rest)
unfolding messages_then
messages_then-snoc [] m rest = refl
messages_then-snoc (x ∷ ms) m rest = ap (message_then x) (messages_then-snoc ms m rest)

behind_refusal-All : (ds : List Message) → All IsMessage ds → All IsMessage (behind_refusal ds)
unfolding behind_refusal
behind_refusal-All [] s = tt
behind_refusal-All (d ∷ ds) s = elim (Bool-cases (is_refusal d.entries)) [
  | inl y ↦ rw (at_refusal d ds y).1 s.1
  | inr y ↦ rw (past_answer d ds y).1 (behind_refusal-All ds s.1)
]

-- The connection behind `consumeDeferred`.
abbrev consumed : WireConnection → WireConnection
consumed wc = (consume_deferred wc).1

read_reply-refused :
    (wc : WireConnection) (e : ResponseError)
    → (consume_loop wc.deferred_count wc.reader).0 ≡ some e
    → read_reply wc ≡ record { response = no_response; failure = some e; wc = consumed wc }
unfolding read_reply consume_deferred
read_reply-refused wc e h = ground arith

read_reply-clear :
    (wc : WireConnection)
    → (consume_loop wc.deferred_count wc.reader).0 ≡ none
    → read_reply wc ≡ read_direct (consumed wc)
unfolding read_reply consume_deferred
read_reply-clear wc h = ground arith

-- The reply to a request in step: what fails first decides, a deferred response or its own.
abbrev pub reply_error : Option Message → Message → Option ResponseError
reply_error none m = refusal m
reply_error (some d) m = some (refused_by d)

abbrev pub reply_response : Option Message → Message → GenericResponse
reply_response none m = meant m
reply_response (some d) m = no_response

-- A reply of the connection `wc`, where `o` is the first refusal among the responses due, `left` are those
-- behind it, and `m` and then `rest` come behind them all.
pub record Replied (x : Reply) (wc : WireConnection) (o : Option Message) (left : List Message)
    (m : Message) (rest : Bytes) : Type 0 where
  pub due : IsDue x.wc (if_refused o (left ++ m ∷ [])) rest
  pub error : x.failure ≡ reply_error o m
  pub response : x.response ≡ reply_response o m
  pub sent : x.wc.sent ≡ wc.sent
  pub flushed : IsFlushed wc → IsFlushed x.wc

read_reply-refusal :
    (wc : WireConnection) (ds : List Message) (m d : Message) (rest : Bytes)
    → IsMessage m
    → All IsMessage ds
    → first_refusal ds ≡ some d
    → Consumed (consume_loop wc.deferred_count wc.reader) ds (message_then m rest)
    → Replied (read_reply wc) wc (first_refusal ds) (behind_refusal ds) m rest
unfolding consume_deferred count_after
read_reply-refusal wc ds m d rest w s f c =
    let same = read_reply-refused wc (refused_by d) (c.error ∙ rw f refl) in
    let n : (consume_loop wc.deferred_count wc.reader).1 ≡ suc (length (behind_refusal ds)) =
      c.count ∙ rw f refl in
    rw (same, f)
      (record {
        due = record {
          holds =
              subst (Holds (consumed wc).reader)
                (sym (messages_then-snoc (behind_refusal ds) m rest)) c.holds;
          due = omega (arith, length-append (behind_refusal ds) (m ∷ []));
          sendable =
              All-append IsMessage (behind_refusal ds) (m ∷ []) (behind_refusal-All ds s) (w, tt);
        };
        error = refl;
        response = refl;
        sent = refl;
        flushed = λ x. record { valid = x.valid; empty = x.empty; healthy = x.healthy };
      })

nothing_behind : (ds : List Message) → first_refusal ds ≡ none → behind_refusal ds ≡ []
unfolding first_refusal behind_refusal
nothing_behind [] f = refl
nothing_behind (d ∷ ds) f = elim (Bool-cases (is_refusal d.entries)) [
  | inl y ↦ absurd (let (a, b) = at_refusal d ds y in ground arith)
  | inr y ↦ let (a, b) = past_answer d ds y in b ∙ nothing_behind ds (sym a ∙ f)
]

read_reply-answer :
    (wc : WireConnection) (ds : List Message) (m : Message) (rest : Bytes)
    → IsMessage m
    → first_refusal ds ≡ none
    → Consumed (consume_loop wc.deferred_count wc.reader) ds (message_then m rest)
    → Replied (read_reply wc) wc (first_refusal ds) (behind_refusal ds) m rest
unfolding consume_deferred count_after messages_then
read_reply-answer wc ds m rest w f c =
    let same = read_reply-clear wc (c.error ∙ rw f refl) in
    let n : (consume_loop wc.deferred_count wc.reader).1 ≡ 0 = c.count ∙ rw f refl in
    let h : Holds (consumed wc).reader (message_then m rest) =
      subst (λ x. Holds (consumed wc).reader (messages_then x (message_then m rest)))
        (nothing_behind ds f) c.holds in
    let (a, b, h') = read_response-message m (consumed wc).reader rest w h in
    rw (same, f)
      (record {
        due = record { holds = h'; due = n; sendable = tt };
        error = b;
        response = a;
        sent = refl;
        flushed = λ x. record { valid = x.valid; empty = x.empty; healthy = x.healthy };
      })

-- `readResponse` on a connection in step: it stays in step.
pub read_reply-messages :
    (wc : WireConnection) (ds : List Message) (m : Message) (rest : Bytes)
    → IsMessage m
    → IsDue wc ds (message_then m rest)
    → Replied (read_reply wc) wc (first_refusal ds) (behind_refusal ds) m rest
read_reply-messages wc ds m rest w h =
    let c : Consumed (consume_loop wc.deferred_count wc.reader) ds (message_then m rest) =
      rw (h.due) (consume_loop-messages ds wc.reader (message_then m rest) h.sendable h.holds) in
    elim (Option-cases (first_refusal ds)) [
      | inl f ↦ read_reply-answer wc ds m rest w f c
      | inr (d, f) ↦ read_reply-refusal wc ds m d rest w h.sendable f c
    ]
