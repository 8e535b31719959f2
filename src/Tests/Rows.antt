-- ===== src/Tests/Rows.antt =====
-- Rows on concrete bytes.
use go_firebird_driver.Prelude.{◌≡◌, refl, arith, List, [], ◌∷◌, ◌++◌, none, some, true}
use go_firebird_driver.Prelude.Bytes.{Bytes, be32}
use go_firebird_driver.Wire.Info.{ColumnDescriptor, blank_column}
use go_firebird_driver.Wire.Reader.Filling.{Holds}
use go_firebird_driver.Wire.Row.{null_value, int32}
use go_firebird_driver.Wire.Row.Types.{sends_long}
use go_firebird_driver.Prelude.Int.{pos}
use go_firebird_driver.Wire.Row.Layout.{SendsRow, row_null, row_value, row_end, null_bits}
use go_firebird_driver.Wire.Reader.{Reader}
use go_firebird_driver.Wire.Fetch.{fetch_rows_reuse}
use go_firebird_driver.Wire.Fetch.Rows.{SentRow, rows_then, fetch_rows_reuse-rows}
use go_firebird_driver.Wire.Response.Message.{message_then, is_refusal, vector}
use go_firebird_driver.Wire.Reader.Decode.{dummies}
use go_firebird_driver.Wire.Execute.Returning.{execute2_refused, read_returned}
use go_firebird_driver.Wire.Execute.Returning.Rows.{returned_then, read_returned-row}
use go_firebird_driver.Tests.Readers.{refusing, entries-All}
use go_firebird_driver.Tests.Streams.{reader_of, reader_of-Holds}

-- A nullable varying column and an integer.
abbrev two_columns : List ColumnDescriptor
two_columns = record blank_column { sql_type = 449 } ∷ record blank_column { sql_type = 496 } ∷ []

abbrev row_bytes : Bytes
row_bytes = 1 ∷ 0 ∷ 0 ∷ 0 ∷ be32 7

row_sent :
    SendsRow
      (null_bits (1 ∷ 0 ∷ 0 ∷ 0 ∷ []))
      0
      two_columns
      (be32 7 ++ [])
      (null_value ∷ int32 7 ∷ [])
row_sent = row_null refl (row_value refl (sends_long (pos 7) (omega arith) (omega arith)) row_end)

-- One row, and the end of the cursor.
abbrev one_row : List SentRow
one_row =
    record {
      status = 0;
      messages = 1;
      bitset = 1 ∷ 0 ∷ 0 ∷ 0 ∷ [];
      columns = be32 7 ++ [];
      values = null_value ∷ int32 7 ∷ [];
    }
    ∷ []

fetch_bytes : Bytes
fetch_bytes = be32 66 ++ (be32 0 ++ (be32 1 ++ (row_bytes ++ (be32 66 ++ (be32 100 ++ be32 0)))))

fetch_reader-Holds : Holds (reader_of fetch_bytes) (rows_then one_row 100 [])
unfolding rows_then fetch_bytes
fetch_reader-Holds = reader_of-Holds fetch_bytes (omega arith)

fetch_rows_reuse-rows_example :
    (r' : Reader) × (fetch_rows_reuse 2 two_columns 50 [] [] (reader_of fetch_bytes)
      ≡ some (record {
        failure = none;
        rows = (null_value ∷ int32 7 ∷ []) ∷ [];
        eof = true;
        reader = r';
      }))
    × Holds r' []
fetch_rows_reuse-rows_example =
    fetch_rows_reuse-rows two_columns 50 [] [] one_row 100 [] 2 (reader_of fetch_bytes)
      (omega arith) (omega arith)
      ((omega arith, omega arith, (λ e. absurd (omega (arith, e))), refl, row_sent), tt)
      (omega arith) fetch_reader-Holds

-- A row in front of a refusal.
returned_reader : Reader
returned_reader = reader_of (returned_then 1 (1 ∷ 0 ∷ 0 ∷ 0 ∷ []) (be32 7 ++ []) refusing [])

returned_reader-Holds :
    Holds returned_reader (returned_then 1 (1 ∷ 0 ∷ 0 ∷ 0 ∷ []) (be32 7 ++ []) refusing [])
unfolding returned_reader returned_then message_then dummies
returned_reader-Holds =
    reader_of-Holds (returned_then 1 (1 ∷ 0 ∷ 0 ∷ 0 ∷ []) (be32 7 ++ []) refusing []) (omega arith)

read_returned-row_example :
    (r' : Reader) × (read_returned two_columns [] returned_reader ≡ record {
      messages = 1;
      row = some (null_value ∷ int32 7 ∷ []);
      failure = some (execute2_refused (vector refusing.entries));
      reader = r';
    })
    × Holds r' []
unfolding is_refusal
read_returned-row_example =
    read_returned-row two_columns [] 1 (1 ∷ 0 ∷ 0 ∷ 0 ∷ []) (be32 7 ++ [])
      (null_value ∷ int32 7 ∷ []) refusing [] returned_reader (omega arith) (omega arith) refl
      row_sent (omega arith, omega arith, omega arith, entries-All) returned_reader-Holds
