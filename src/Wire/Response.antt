-- ===== src/Wire/Response.antt =====
-- internal/wire/response.go: the messages that answer a request. An integer is its bit pattern; the copy
-- of a response's data into the reader's reused buffer is the list of its bytes.
pub mod Message
use go_firebird_driver.Prelude.{ℕ, Bool, List, [], Option, none, some, ◌==◌, if◌then◌else◌}
use go_firebird_driver.Prelude.Bytes.{Bytes}
use go_firebird_driver.Wire.Protocol.{op_response}
use go_firebird_driver.Wire.Reader.{
  ReadError, Reader, read_int32, read_int64, read_buffer, read_opcode,
}
use go_firebird_driver.Wire.Status.{StatusVector, empty_vector, has_error, read_status_vector}

-- `GenericResponse`
pub record GenericResponse : Type 0 where
  pub handle : ℕ
  pub blob_id : ℕ
  pub payload : Bytes
  pub status : StatusVector

-- `GenericResponse{}`
abbrev pub no_response : GenericResponse
no_response = record { handle = 0; blob_id = 0; payload = []; status = empty_vector }

-- The errors of `ReadResponse`: the reader's, a `StatusError`, an unexpected opcode.
pub data ResponseError : Type 0 where
  broken : ReadError → ResponseError
  refused : StatusVector → ResponseError
  unexpected_opcode : ℕ → ResponseError

-- `readGenericResponse`
pub read_generic_response : Reader → GenericResponse × Reader
read_generic_response r =
    let (handle, r1) = read_int32 r in
    let (blob_id, r2) = read_int64 r1 in
    let (payload, r3) = read_buffer r2 in
    let (status, r4) = read_status_vector r3 in
    elim r3.err [
      | some e ↦
          (record { handle = handle; blob_id = blob_id; payload = []; status = empty_vector }, r3)
      | none ↦
          (record { handle = handle; blob_id = blob_id; payload = payload; status = status }, r4)
    ]

-- `FetchResponse`
pub record FetchResponse : Type 0 where
  pub status : ℕ
  pub messages : ℕ

-- `readFetchResponse` and `readSQLResponse`, whose response is the number of messages.
unfoldable pub read_fetch_response : Reader → FetchResponse × Reader
read_fetch_response r =
    let (status, r1) = read_int32 r in
    let (messages, r2) = read_int32 r1 in (record { status = status; messages = messages }, r2)

unfoldable pub read_sql_response : Reader → ℕ × Reader
read_sql_response r = read_int32 r

-- What `ReadResponse` returns, and the reader behind it.
pub record Outcome : Type 0 where
  pub response : GenericResponse
  pub failure : Option ResponseError
  pub reader : Reader

-- `ReadResponse` and `ReadLazyResponse`
pub read_response : Reader → Outcome
read_response r =
    let (op, r1) = read_opcode r in
    let (resp, r2) = read_generic_response r1 in
    elim r1.err [
      | some e ↦ record { response = no_response; failure = some (broken e); reader = r1 }
      | none ↦
          if op == op_response
          then elim r2.err [
            | some e ↦ record { response = resp; failure = some (broken e); reader = r2 }
            | none ↦
                if has_error resp.status
                then record { response = resp; failure = some (refused resp.status); reader = r2 }
                else record { response = resp; failure = none; reader = r2 }
          ]
          else record { response = no_response; failure = some (unexpected_opcode op); reader = r1 }
    ]
