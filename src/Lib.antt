-- ===== src/Lib.antt =====
-- adbc-driver-quack: the wire format and the connection logic of the ADBC driver for Quack servers.
--
-- The driver (driver/quack) turns ADBC calls into messages (internal/message), which it encodes with
-- a codec for DuckDB's binary serialization (internal/codec) and for logical types
-- (internal/quacktype), and posts to a server (internal/transport). The files of this library:
--
--   Base             names of the libraries, Boolean tests, list lemmas; Base/Bits: bit operations;
--                    Base/Int: integers; Base/Text: functions of Go's strings and strconv
--   Codec/Fault      internal/codec/errors.go and constants.go
--   Codec/Reader     internal/codec/binary_reader.go: BinaryReader with every read
--   Codec/Writer     internal/codec/binary_writer.go: BinaryWriter with every write
--   Codec/*          the encodings as plain functions of numbers (Leb), what a read does in front of
--                    its bytes (Reads, Optional), what a write appends (Writes), both at lists
--                    (Lists) and together (Coded, RoundTrip); Safe: what any bytes do to a reader
--   QuackType/Types  internal/quacktype/logical_type.go: LogicalType and ExtraTypeInfo
--   QuackType/Encode, Decode  internal/quacktype/codec.go
--   QuackType/Ids, Physical   logical_type_id.go, and the physical types of logical_type.go
--   QuackType/*      the wire format of types, its writer and reader, their theorems; Safe: the
--                    decoder on bytes of any kind
--   Message/Types    internal/message/messages.go; Message/Encode, Decode: message_codec.go
--   Message/HugeInt  internal/codec/hugeint.go; Message/Validity: validity.go, both with theorems
--   Message/Vector/Types, Times, Values  vectors.go; times, and single values of vector_codec.go
--   Message/Vector/Shapes, Flat, Decode  the rest of vector_codec.go: vectors computed from others,
--                    flat vectors, vectors and data chunks
--   Message/Vector/Stored, Encode        vector_encoder.go: values, then vectors and data chunks
--   Message/Vector/*  times (Clock), Decimals, Uuids, Enums, dictionaries, sequences, and typed columns
--                    with their chunks (Rows, Column, RoundTrip, Chunk)
--   Message/*        the messages that fit, their fields and bodies, the theorem
--   Driver/Connection, Statement  driver/quack/driver.go: connectionImpl and statementImpl
--   Driver/Transactions, Calls    the connection's flags against the server's transaction
--   Driver/Params    driver/quack/params.go, and quoteIdent of bulk_ingest.go
--   Driver/Session, Streaming, Draining  driver/quack/session.go: sessions, cursors and their reads
--   Driver/RecordReader, Reading  driver/quack/record_reader.go
--   Driver/Ingest/*               driver/quack/bulk_ingest.go: Arrow types, the table (Table,
--                    Modes), chunks (Chunk, Rows), the calls on the session (Execute, Effects,
--                    Isolation)
--   Driver/Markers, Quoting, Pieces  which bytes are parameter markers, how quoted text is read
--   Transport/*      internal/transport/uri.go: addresses (Uri) and their options (Options)
--   Tests            the theorems at concrete inputs
--
-- State. A reader is an offset, the bytes from there on and an error; a writer is its bytes and an
-- error; both errors are sticky, as in Go. A read is a function from a reader to its value and the
-- next reader. A connection is its two flags beside the state of its session, an argument of each
-- call; the function that runs a statement on the session is a parameter, with the law of a server
-- that takes each text, the user's too, for one that begins a transaction, ends it or does neither, and
-- the driver's BEGIN, COMMIT and ROLLBACK for what they are. The codec of messages
-- takes the codec of data chunks as a record of operations, with laws. A session takes the transport
-- as a function from a message to the answer. A record reader holds a cursor; what makes an Arrow
-- record of a chunk is its parameter. An ingest has the session's `drainPrepared` and `appendChunk` as
-- parameters, and is what `ExecuteUpdate` takes for the statements that ingest. Arrow types and arrays
-- are what bulk_ingest.go tells apart; a bound stream is its records and its last error.
--
-- Addresses. `ParseURI` takes net/url, `time.ParseDuration`, the environment and the files as records
-- of functions; strings are their bytes, and a Go map is a list in the order of a `range` over it.
--
-- Numbers. Everything is a native natural number: bytes, uint64, the 64-bit patterns of int and
-- int64. Shifts keep 64 bits by `% 2 ^ 64`, and the bound check of `ensure` wraps as it does in Go.
-- Where Go panics on a length that passes this check, the reader takes the error `panicked`.
--
-- Fuel. `DecodeLogicalType` recurses on fuel, one more than the bytes that are left: each level takes
-- at least one byte, the id of a field, so that the fuel is enough on every input. The loops of LEB128
-- have the ten rounds of the source in the reader and ten of fuel in the writer, enough for 64 bits.
-- `drainAll` has as many fetches as fuel, and `Next` as many reads of its cursor, since a server may
-- always promise more; each is enough where the server ends.
--
-- `DecodeVector` recurses on fuel of the same kind, which the flat columns of a chunk do not use up.
--
-- Vectors. The seven structs of typed vectors are one constructor with a kind. A value of an interface
-- is a constructor for its Go type; a `big.Int` is an integer, a time its seconds and nanoseconds in
-- UTC. What `make`, floats, `big.Rat` and `Sprintf` give is a record of functions (`Host`). An index
-- out of range is `none`, which ends a read with the error `panicked`.
--
-- Not modelled: metadata queries, and the loops over bound rows of driver/quack/params.go, whose
-- values come from Arrow arrays. Left aside: the calls of net/http (internal/transport/http.go), the
-- Arrow builders (driver/quack/arrow_conv.go), the C export layer (pkg/quack), the Python package. The
-- capacity that `ReadList` allocates, and what a write does when memory ends, are not in the model.
pub mod Base
pub mod Codec
pub mod QuackType
pub mod Message
pub mod Driver
pub mod Tests
pub mod Transport
