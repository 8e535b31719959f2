-- ===== src/Lib.antt =====
-- A model of the wire protocol of a Firebird driver for Go, with the theorems that its parts are right.
--
-- The program. A `WireConnection` (internal/wire/database.go) owns a buffered XDR writer, a buffered XDR
-- reader, the number of responses that it has deferred, and a pool of statement handles. An operation
-- writes a request into the writer, flushes it, and reads the server's response: first those that are
-- still due from requests sent without waiting (lazy send), then its own. A response carries a status
-- vector, and often an info buffer. Rows are described to the server by BLR messages, the attachment by
-- a parameter buffer.
--
-- The files, with the code that each is about:
--   Prelude, Prelude/*: shared names, tests and lemmas; Prelude/Bytes has encoding/binary's integers.
--   Wire/Protocol: the constants of internal/wire/protocol.go, info.go, dpb.go and tpb.go in use here.
--   Wire/Writer: `Writer` of internal/wire/writer.go. Writer/Buffer is about its buffer, Writer/Contents
--     about the bytes that its operations append.
--   Wire/StackWriter: `StackWriter` of internal/wire/writer.go; StackWriter/Fits is about its flag.
--   Wire/Reader: `Reader` of internal/wire/reader.go. Reader/Filling and Reader/Window are about `ensure`,
--     Reader/Stream about single reads, Reader/Decode about the reader against the writer, Reader/Faults
--     about errors.
--   Wire/Status: the status vectors of internal/wire/status.go; Status/Vector is about the loop of the
--     parser, Status/Entries about errors and warnings, Status/Whole about whole vectors.
--   Wire/Response: internal/wire/response.go; Response/Message is about whole messages.
--   Wire/Info: the tagged buffers of internal/wire/info.go. Info/Items is about `ParseInfoBuffer`,
--     Info/Records about record counts and `getRowsAffected` of result.go.
--   Wire/Describe: statement descriptions, `parseSQLDescribeChunk` of internal/wire/info.go. Describe/Runs
--     is about its loop, Describe/Bounds about any bytes, Describe/Fields, /Columns, /Sections and /Chunks
--     about the parts of a reply that Describe/Server lays out, and Describe/Complete is
--     `CompleteSQLDescribe` of internal/wire/statement.go against a server that cuts its replies;
--     Describe/Meaning says what the items of a column say.
--   Wire/Blr: internal/wire/blr.go; Blr/Parse has a reference reader, Blr/Messages its round trip.
--   Wire/Tpb: `buildTPB` of transaction.go; Tpb/Options has a reference reader.
--   Wire/Dpb: `DPBBuilder` of internal/wire/dpb.go; Dpb/Decode has a reference reader, Dpb/Connect
--     `buildConnectDPB` of internal/wire/handshake.go.
--   Wire/Connection: requests and responses of internal/wire/database.go, transaction.go and
--     statement.go. Connection/Steps is about the responses due, Connection/Prepares about the bytes of
--     a preparation, Connection/Requests about operations, Connection/Refused about a refused
--     allocation, Connection/Pool about statement handles.
--   Wire/Blob: `unpackSegments` of internal/wire/blob.go; Blob/Segments is its round trip.
--   Wire/DateTime: ticks and day numbers of internal/wire/types_datetime.go; DateTime/Ticks is about ticks,
--     DateTime/Calendar about `DateToMJD` against the calendar.
--   Wire/Decimal: decimal texts of internal/wire/types_numeric.go. Decimal/Print is about printing,
--     Decimal/Digits and Decimal/Parse about digits and written numbers, Decimal/RoundTrip and
--     Decimal/Rounding about texts at a scale.
--   Wire/Int128: internal/wire/types_int128.go, with INT128 of types_decode.go; Int128/Sixteen is about
--     its bytes, Int128/RoundTrip about texts.
--   Wire/Row: `DecodeColumn` and `DecodeRow` of internal/wire/types_decode.go; Row/Types says what a server
--     sends for each SQL type, Row/Column and Types/Carried are about a column, Row/Layout about a row.
--   Wire/Fetch: `FetchRowsReuse` of internal/wire/execute.go behind its request; Fetch/Batches is about the
--     array of its rows, Fetch/Rows about a whole fetch.
--   Wire/Execute: the requests of internal/wire/execute.go, that of a fetch included; Execute/Returning is
--     `Execute2`, Returning/Rows about the row that it returns.
--   Wire/Numeric: `scaleIntegralInt64` of internal/wire/types_numeric.go; Numeric/Scale is about its range.
--   Driver/DescCache: the cache of statement descriptions of connection.go.
--   Driver/Conn: transactions of connection.go and transaction.go; Conn/Lifecycle is about sequences of them.
--   Tests/*: concrete inputs.
--
-- How code is represented. A pointer receiver is a state that goes in and comes out. A byte is a
-- number, a slice or a Go string the list of its bytes, and an int32 or an int64 its bit pattern,
-- with `% 2 ^ w` written out. An error is a value; a `Reader` keeps its first one, as in the
-- source. What is not in the repository is a parameter: the capacity that append gives and
-- strings.TrimSpace are functions, the io.Reader is a script of answers (`Source`), the io.Writer a
-- list of results with a log of what was written, and strings.ToUpper, strings.EqualFold,
-- user.Current and os.Hostname are the fields of `Host`. Which errors are the transport's is a
-- parameter, too, since isTransportError looks into errors of other packages. Text compares by its
-- bytes.
--
-- Fuel. The loops of `grow`, `ensure`, `ReadOpcode`, `readStatusVectorSlow`, `ParseInfoBuffer`,
-- `ParseRecordCounts`, `parseSQLDescribeChunk` and `unpackSegments` run on fuel. The buffer doubles
-- from at least one byte, so as many rounds as bytes are wanted are enough; a round of `ensure`
-- takes a byte; a round of the others takes bytes out of what is pending, or out of the buffer.
-- `CompleteSQLDescribe` takes a round for each reply, `FetchRowsReuse` one for each row and one
-- more. A run without enough fuel would be an error of its own, or `none`: the theorems give the
-- result itself.
--
-- Not modelled: the handshake but for the attach buffer, SRP, encryption and the big integers they
-- use; writing blobs; the conversions of Go values and the encoding of parameters, and the text of a
-- DECFLOAT; character sets, time zones and the message table, which are generated or tables; the
-- database/sql layer on top but for its description cache and its
-- transactions; locks and cancellation, since one operation runs at a time here.
pub mod Prelude
pub mod Wire
pub mod Driver
pub mod Tests
