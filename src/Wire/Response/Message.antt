-- ===== src/Wire/Response/Message.antt =====
-- Responses as a server lays them out, and `ReadResponse` on them.
use go_firebird_driver.Prelude.{
  ℕ, ◌^◌, ◌≤◌, ◌<◌, ◌≡◌, refl, ◌∙◌, ap, Bool, false, not, ◌||◌, List, [], ◌∷◌, ◌++◌, Option, none,
  some, arith, length, All, if◌then◌else◌,
}
use go_firebird_driver.Prelude.Bytes.{Bytes, be32, be64}
use go_firebird_driver.Wire.Protocol.{op_response, isc_arg_end}
use go_firebird_driver.Wire.Writer.Contents.{padded}
use go_firebird_driver.Wire.Reader.{
  Reader, max_wire_buffer_len, read_int32, read_int64, read_buffer, read_opcode,
}
use go_firebird_driver.Wire.Reader.Filling.{Holds}
use go_firebird_driver.Wire.Reader.Stream.{read_int32-be32, read_int64-be64, read_buffer-padded}
use go_firebird_driver.Wire.Reader.Decode.{dummies, read_opcode-dummies}
use go_firebird_driver.Wire.Status.{StatusVector, has_error, read_status_vector}
use go_firebird_driver.Wire.Status.Vector.{args_bytes}
use go_firebird_driver.Wire.Status.Entries.{Entry, IsEntry, entries_args, errors_in, warnings_in}
use go_firebird_driver.Wire.Status.Whole.{success, fast_path-slow, read_status_vector-entries}
use go_firebird_driver.Wire.Response.{
  GenericResponse, ResponseError, refused, read_generic_response, read_response,
}

-- A response of the server, with the keep-alives that it sends first.
pub record Message : Type 0 where
  pub keep_alives : ℕ
  pub handle : ℕ
  pub blob_id : ℕ
  pub payload : Bytes
  pub entries : List Entry

-- The status vector of the entries, in front of `rest`.
unfoldable pub status_then : List Entry → Bytes → Bytes
status_then [] rest = success ++ rest
status_then (e ∷ es) rest = args_bytes (entries_args (e ∷ es)) ++ (be32 isc_arg_end ++ rest)

-- The bytes of the message, in front of `rest`.
unfoldable pub message_then : Message → Bytes → Bytes
message_then m rest =
    dummies m.keep_alives
    ++ (be32 op_response
        ++ (be32 m.handle
            ++ (be64 m.blob_id
                ++ (be32 (length m.payload) ++ (padded m.payload ++ status_then m.entries rest)))))

-- The integers have their width, the data is not over 64 MiB, the entries can be sent.
abbrev pub IsMessage : Message → Type 0
IsMessage m =
    (m.handle < 2 ^ 32)
    × (m.blob_id < 2 ^ 64)
    × (length m.payload ≤ max_wire_buffer_len)
    × All IsEntry m.entries

abbrev pub vector : List Entry → StatusVector
vector es = record { errors = errors_in es; warnings = warnings_in es }

-- The response that the message stands for.
abbrev pub meant : Message → GenericResponse
meant m = record {
  handle = m.handle;
  blob_id = m.blob_id;
  payload = m.payload;
  status = vector m.entries;
}

-- Whether an entry is an error.
unfoldable pub is_refusal : List Entry → Bool
is_refusal [] = false
is_refusal (e ∷ es) = not e.is_warning || is_refusal es

abbrev pub refusal : Message → Option ResponseError
refusal m = if is_refusal m.entries then some (refused (vector m.entries)) else none

pub has_error-vector : (es : List Entry) → All IsEntry es → has_error (vector es) ≡ is_refusal es
unfolding has_error is_refusal
has_error-vector [] h = refl
has_error-vector (e ∷ es) (h, hs) = let k = has_error-vector es hs in ground (arith, k)

read_status_vector-then :
    (es : List Entry) (r : Reader) (rest : Bytes)
    → All IsEntry es
    → Holds r (status_then es rest)
    → ((read_status_vector r).0 ≡ vector es) × Holds (read_status_vector r).1 rest
unfolding status_then
read_status_vector-then [] r rest h k = let (a, b, c, d) = fast_path-slow r rest k in (a, c)
read_status_vector-then (e ∷ es) r rest h k = read_status_vector-entries e es r rest h k

generic-clear :
    (r : Reader)
    → (read_buffer (read_int64 (read_int32 r).1).1).1.err ≡ none
    → read_generic_response r ≡ (
      record {
        handle = (read_int32 r).0;
        blob_id = (read_int64 (read_int32 r).1).0;
        payload = (read_buffer (read_int64 (read_int32 r).1).1).0;
        status = (read_status_vector (read_buffer (read_int64 (read_int32 r).1).1).1).0;
      },
      (read_status_vector (read_buffer (read_int64 (read_int32 r).1).1).1).1,
    )
unfolding read_generic_response
generic-clear r e = ground arith

-- The fields of a response behind its opcode.
abbrev pub fields_then : Message → Bytes → Bytes
fields_then m rest =
    be32 m.handle
    ++ (be64 m.blob_id
        ++ (be32 (length m.payload) ++ (padded m.payload ++ status_then m.entries rest)))

pub read_generic_response-fields :
    (m : Message) (r : Reader) (rest : Bytes)
    → IsMessage m
    → Holds r (fields_then m rest)
    → ((read_generic_response r).0 ≡ meant m) × Holds (read_generic_response r).1 rest
read_generic_response-fields m r rest (a, b, c, d) h =
    let tail = be32 (length m.payload) ++ (padded m.payload ++ status_then m.entries rest) in
    let (e1, h1) = read_int32-be32 r m.handle (be64 m.blob_id ++ tail) a h in
    let (e2, h2) = read_int64-be64 (read_int32 r).1 m.blob_id tail b h1 in
    let (e3, h3) =
      read_buffer-padded (read_int64 (read_int32 r).1).1 m.payload (status_then m.entries rest) c
        h2 in
    let (e4, h4) =
      read_status_vector-then m.entries (read_buffer (read_int64 (read_int32 r).1).1).1 rest d h3 in
    rw (generic-clear r h3.clear) (cc, h4)

-- What `ReadResponse` returns, once its opcode is read.
response-clear :
    (r : Reader)
    → (read_opcode r).1.err ≡ none
    → (read_opcode r).0 ≡ op_response
    → (read_generic_response (read_opcode r).1).1.err ≡ none
    → read_response r ≡ record {
      response = (read_generic_response (read_opcode r).1).0;
      failure =
          if has_error (read_generic_response (read_opcode r).1).0.status
          then some (refused (read_generic_response (read_opcode r).1).0.status)
          else none;
      reader = (read_generic_response (read_opcode r).1).1;
    }
unfolding read_response
response-clear r e o e' = ground arith

-- A response that the server lays out is read, behind its keep-alives, with the handle, the blob
-- identifier and the data sent; it fails, with the whole status vector, exactly where an entry of
-- the vector is an error; and the reader stops right behind it, also where it fails. The message
-- has integers of their width and at most 64 MiB of data, and the stream delivers all its bytes.
pub read_response-message :
    (m : Message) (r : Reader) (rest : Bytes)
    → IsMessage m
    → Holds r (message_then m rest)
    → ((read_response r).response ≡ meant m)
      × ((read_response r).failure ≡ refusal m)
      × Holds (read_response r).reader rest
unfolding message_then
read_response-message m r rest w h =
    let (e, h1) =
      read_opcode-dummies m.keep_alives r op_response (fields_then m rest) (omega arith)
        (λ x. absurd (omega arith)) h in
    let (e', h2) = read_generic_response-fields m (read_opcode r).1 rest w h1 in
    let f : has_error (read_generic_response (read_opcode r).1).0.status ≡ is_refusal m.entries =
      ap (λ (x : GenericResponse). has_error x.status) e' ∙ has_error-vector m.entries w.3 in
    rw (response-clear r h1.clear e h2.clear) (e', rw (f, e') refl, h2)
