-- ===== src/Tests/Readers.antt =====
-- The reader, the status parser and the response reader on concrete streams.
use go_firebird_driver.Prelude.{
  ◌-◌, ◌≤◌, ◌≡◌, refl, arith, All, inl, true, false, List, [], ◌∷◌, ◌++◌, some, length-append, map,
  ◌^◌,
}
use go_firebird_driver.Prelude.Bytes.{Bytes, be32, codes}
use go_firebird_driver.Wire.Protocol.{op_response, isc_arg_end}
use go_firebird_driver.Wire.Writer.{new_writer, bytes}
use go_firebird_driver.Wire.Writer.Contents.{Item, write_all, new_writer-IsValid}
use go_firebird_driver.Wire.Reader.{
  unexpected_eof, Reader, ensure, read_view, read_full, read_int32, read_uint32, read_int64,
  read_buffer, read_string, read_opaque, read_opcode, new_reader,
}
use go_firebird_driver.Wire.Reader.Filling.{Holds}
use go_firebird_driver.Wire.Reader.Window.{ensure_enough}
use go_firebird_driver.Wire.Reader.Faults.{with_eof, reads_after_error, read_view-with_eof}
use go_firebird_driver.Wire.Reader.Decode.{dummies, kind, ask_all, ask_all-write_all}
use go_firebird_driver.Wire.Status.{
  text, number, empty_vector, read_status_vector, read_status_vector_slow,
}
use go_firebird_driver.Wire.Status.Vector.{args_bytes, arg_bytes}
use go_firebird_driver.Wire.Status.Entries.{
  Entry, IsEntry, entry_args, entries_args, errors_in, warnings_in,
}
use go_firebird_driver.Wire.Status.Whole.{
  success, fast_path-slow, read_status_vector-entries, short_vector,
}
use go_firebird_driver.Wire.Response.{read_response}
use go_firebird_driver.Wire.Response.Message.{
  Message, message_then, meant, refusal, read_response-message,
}
use go_firebird_driver.Tests.Streams.{reader_of, reader_of-Holds}

abbrev ten : Bytes
ten = 1 ∷ 2 ∷ 3 ∷ 4 ∷ 5 ∷ 6 ∷ 7 ∷ 8 ∷ 9 ∷ 10 ∷ []

-- Ten bytes through a window of eight.
ensure_enough_example :
    ((ensure (reader_of ten) 10).0 ≡ true)
    × Holds (ensure (reader_of ten) 10).1 ten
    × (10 ≤ (ensure (reader_of ten) 10).1.end - (ensure (reader_of ten) 10).1.start)
ensure_enough_example =
    ensure_enough (reader_of ten) ten 10 (reader_of-Holds ten (omega arith)) (omega arith)

abbrev failed : Reader
failed = record (reader_of ten) { err = some unexpected_eof }

reads_after_error_example :
    (read_view failed 5 ≡ ([], failed))
    × (read_full failed 5 ≡ ([], failed))
    × (read_int32 failed ≡ (0, failed))
    × (read_uint32 failed ≡ (0, failed))
    × (read_int64 failed ≡ (0, failed))
    × (read_buffer failed ≡ ([], failed))
    × (read_string failed ≡ ([], failed))
    × (read_opaque failed 5 ≡ ([], failed))
    × (read_opcode failed ≡ (0, failed))
reads_after_error_example = reads_after_error failed unexpected_eof 5 refl (omega arith)

read_view-with_eof_example :
    ((read_view (new_reader (with_eof ten ∷ [])) 10).0 ≡ [])
    × ((read_view (new_reader (with_eof ten ∷ [])) 10).1.err ≡ some unexpected_eof)
read_view-with_eof_example = read_view-with_eof ten (omega arith) (omega arith)

-- Two keep-alives before a response.
abbrev kept_alive : Bytes
unfolding dummies
kept_alive = dummies 2 ++ (be32 op_response ++ ten)

-- An error with a text and a number, and a warning.
abbrev pub failure : Entry
failure = record {
  is_warning = false;
  code = 335544665;
  params = text (codes "INTEG_1") ∷ number 7 ∷ [];
  state = codes "23000";
}

abbrev pub warning : Entry
warning = record { is_warning = true; code = 335544344; params = []; state = [] }

pub entries-All : All IsEntry (failure ∷ warning ∷ [])
unfolding entry_args
entries-All = (
  (
    λ e. absurd (omega arith),
    (omega arith, ((inl refl, omega arith), (omega arith, (omega arith, tt)))),
  ),
  ((λ e. absurd (omega arith), (omega arith, tt)), tt),
)

abbrev vector_bytes : Bytes
vector_bytes = args_bytes (entries_args (failure ∷ warning ∷ [])) ++ (be32 isc_arg_end ++ ten)

read_status_vector-entries_example :
    ((read_status_vector (reader_of vector_bytes)).0 ≡ record {
      errors = errors_in (failure ∷ warning ∷ []);
      warnings = warnings_in (failure ∷ warning ∷ []);
    })
    × Holds (read_status_vector (reader_of vector_bytes)).1 ten
unfolding entries_args args_bytes entry_args arg_bytes
read_status_vector-entries_example =
    read_status_vector-entries failure (warning ∷ []) (reader_of vector_bytes) ten entries-All
      (reader_of-Holds vector_bytes (omega arith))

fast_path-slow_example :
    ((read_status_vector (reader_of (success ++ ten))).0 ≡ empty_vector)
    × ((read_status_vector_slow (reader_of (success ++ ten))).0 ≡ empty_vector)
    × Holds (read_status_vector (reader_of (success ++ ten))).1 ten
    × Holds (read_status_vector_slow (reader_of (success ++ ten))).1 ten
fast_path-slow_example =
    fast_path-slow (reader_of (success ++ ten)) ten (reader_of-Holds (success ++ ten) (omega arith))

short_vector_example :
    ((read_status_vector (reader_of (be32 isc_arg_end))).1.err ≡ some unexpected_eof)
    × ((read_status_vector_slow (reader_of (be32 isc_arg_end))).0 ≡ empty_vector)
    × Holds (read_status_vector_slow (reader_of (be32 isc_arg_end))).1 []
short_vector_example =
    short_vector (reader_of (be32 isc_arg_end)) (reader_of-Holds (be32 isc_arg_end) (omega arith))

-- A refusal behind two keep-alives.
abbrev pub refusing : Message
refusing = record {
  keep_alives = 2;
  handle = 5;
  blob_id = 2 ^ 40;
  payload = 1 ∷ 2 ∷ 3 ∷ [];
  entries = failure ∷ warning ∷ [];
}

read_response-message_example :
    ((read_response (reader_of (message_then refusing ten))).response ≡ meant refusing)
    × ((read_response (reader_of (message_then refusing ten))).failure ≡ refusal refusing)
    × Holds (read_response (reader_of (message_then refusing ten))).reader ten
unfolding message_then dummies
read_response-message_example =
    read_response-message refusing (reader_of (message_then refusing ten)) ten
      (omega arith, omega arith, omega arith, entries-All)
      (reader_of-Holds (message_then refusing ten) (omega arith))

-- A request with a padded buffer.
abbrev items : List Item
items = Item.int32 9 ∷ Item.buffer (1 ∷ 2 ∷ 3 ∷ []) ∷ Item.int64 (2 ^ 40) ∷ Item.opaque ten 10 ∷ []

ask_all-write_all_example :
    ((ask_all (map kind items) (reader_of (bytes (write_all items new_writer) ++ ten))).0 ≡ items)
    × Holds (ask_all (map kind items) (reader_of (bytes (write_all items new_writer) ++ ten))).1 ten
ask_all-write_all_example =
    ask_all-write_all items new_writer (reader_of (bytes (write_all items new_writer) ++ ten)) ten
      new_writer-IsValid.0 new_writer-IsValid.1
      (omega arith, (omega arith, (omega arith, (refl, tt))))
      (reader_of-Holds (bytes (write_all items new_writer) ++ ten)
        (omega (arith, length-append (bytes (write_all items new_writer)) ten)))
