-- ===== src/Lib.antt =====
-- pcap-file reads and writes capture files of the formats pcap and pcapng. This library models its
-- parsers, readers and writers.
--
-- The parts and their files, with paths from the repository's root:
--
-- * Common holds what all modules share: Boolean tests, lists over the native numbers, and the result
--   type, which has a panic (a failed `unwrap`, slice or assertion) as a third value (src/errors.rs).
-- * ByteOrder is the endianness of src/common.rs, and the byteorder_slice crate as an interface: a
--   record of its reads and writes with the laws that its documentation states. Every definition
--   that reads or writes numbers takes it as an instance argument. ByteOrder/Standard has an
--   implementation that meets the laws, on which the tests run.
-- * ByteOrder/Steps says when a parser is stable: it does not panic, and more input changes only the
--   remainder once the parser has answered anything but `IncompleteBuffer`. ByteOrder/Calm has the
--   rules for results that are no panic or no I/O error, ByteOrder/Ends those for the remainder.
-- * DataLink is the link types and their numbers (src/common.rs); Duration and Utf8 are what the
--   program uses of the standard library.
-- * ReadBuffer is src/read_buffer.rs. A reader is the list of what its calls of `read` answer. A
--   method with a mutable buffer returns the buffer that it leaves. The loop of `parse_with` runs on
--   fuel; as each round takes a byte at least and the buffer bounds them, a round for each byte of the
--   buffer and one more are enough, and running out is a value of its own that the theorems exclude.
--   A read that fails is taken to leave the buffer alone. Parse, Opening and Next relate the
--   methods to the parser on the whole stream, for any reader; Failures says when `parse_with` reports
--   an I/O error; Steady and Drain are exact, for a reader that does not fail and a buffer that can hold the
--   stream.
-- * Pcap is src/pcap/: Header (header.rs), RawPacket and Packet (packet.rs), Parser, Writer and Reader.
--   The reader runs the parser in a ReadBuffer, and WholeFile joins the writer and the
--   parser, and Drain the writer and a client's loop over the reader.
-- * PcapNg is src/pcapng/: Options (blocks/opt_common.rs), Blocks (a module for each kind of block),
--   RawBlock and Block (blocks/block_common.rs), Parser, Writer and Reader. The parser and the writer
--   both keep the section and its interfaces. The loops over options and over the records of a name
--   resolution block run on a round for each byte and one more, since each takes four bytes at
--   least. Block/Valid says which blocks survive being written and read, from the RoundTrip modules
--   of the kinds of block; WholeFile joins the writer and the parser, and Drain the writer and a
--   client's loop over the reader, whose fuel is a round for each block and one for the end.
--
-- A field or function of the source keeps its name; the field `data` of a packet is `payload`. A text
-- is its bytes. Signed numbers are their two's complement patterns. The byte order, a type
-- parameter of the source, is an argument. A borrowed and an owned text or slice are the same, but for
-- the body of a raw block where the source panics on an owned one. `usize` has 64 bits. A writer is a `Vec<u8>`, whose writes do
-- not fail.
--
-- Not modelled: writers that fail, the messages of the errors' `Display`, the conversions that only
-- copy (`into_owned`), `Endianness::native`, which is an argument, and the tests, benchmarks and fuzz
-- targets.
pub mod Common
pub mod ByteOrder
pub mod DataLink
pub mod Pcap
pub mod Duration
pub mod ReadBuffer
pub mod Utf8
pub mod PcapNg
