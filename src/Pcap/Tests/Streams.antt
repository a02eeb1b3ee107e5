-- ===== src/Pcap/Tests/Streams.antt =====
-- The theorems of the read buffer, the reader and the writer at concrete streams.
use pcap_file.Common.{
  leb, ◌≢◌, true, ◌≤◌, ℕ, List, ◌≡◌, refl, [], ◌∷◌, ◌++◌, All, ok, err, invalid_field, take, drop,
  replicate, none, some, arith, String, inr, slice_to, slice_from,
}
use pcap_file.ByteOrder.{IsByte, big, little}
use pcap_file.ByteOrder.Standard.{standard, write, le_bytes, be_bytes}
use mathlib.Core.List.{map}
use pcap_file.Pcap.Packet.Laws.{kept}
use pcap_file.Pcap.WholeFile.{write_packets}
use pcap_file.Pcap.Drain.{read_packets, read_packets-write_packets}
use pcap_file.ByteOrder.Bytes.{is_bytes, is_bytes-IsByte}
use pcap_file.DataLink.{DataLink, unknown, to_u32, from_u32}
use pcap_file.Duration
use pcap_file.ReadBuffer as Buffer
use pcap_file.ReadBuffer.{
  ReadBuffer, IsValid as ValidBuffer, Source, chunk, fault, with_capacity, read, refilled, fill_buf,
  window, advance, advance_with_slice, has_data_left, on_value, on_fill, on_answer, parse_with,
  parsed, on_data_left, next_with,
}
use pcap_file.ReadBuffer.Fill.{
  stream, pending, with_capacity-IsValid, FillResult, fill_buf-FillResult, fill_buf_fault,
}
use pcap_file.ReadBuffer.Steady.{Answered, parse_with-Answered}
use pcap_file.ReadBuffer.Parse.{Outcome}
use pcap_file.ReadBuffer.Failures.{Excused, parse_with-Explained}
use pcap_file.DataLink.Laws.{IsNamed, to_u32-from_u32, from_u32-to_u32}
use pcap_file.Pcap.Header
use pcap_file.Pcap.Header.{PcapHeader, TsResolution, micro_second, nano_second}
use pcap_file.Pcap.RawPacket
use pcap_file.Pcap.RawPacket.{RawPcapPacket}
use pcap_file.Pcap.Packet
use pcap_file.Pcap.Packet.{PcapPacket}
use pcap_file.Pcap.Parser
use pcap_file.Pcap.Parser.{PcapParser}
use pcap_file.Pcap.Writer
use pcap_file.Pcap.Writer.Laws.{write_packet_refused}
use pcap_file.Pcap.Writer.{PcapWriter, with_header}
use pcap_file.Pcap.Reader
use pcap_file.ReadBuffer.Stateless.{stateless}
use pcap_file.Pcap.Reader.{PcapReader, open_buffer, next_packet, next_raw_packet}
use pcap_file.Pcap.Reader.Laws.{
  ReaderOutcome, OpenOutcome, next_packet-IsLawful, next_packet-ReaderOutcome,
  next_raw_packet-ReaderOutcome, open_buffer-OpenOutcome,
}
use pcap_file.Pcap.Tests.{
  header, header-IsValid, packet-IsValid, packet-Fits, packet, raw_packet, packet_bytes,
  header_bytes,
}

-- A reader that delivers the packet's bytes in two pieces.
abbrev pieces : Source
pieces = chunk (take 5 packet_bytes) ∷ chunk (drop 5 packet_bytes) ∷ []

abbrev buffer : ReadBuffer
buffer = with_capacity pieces 32

abbrev reader : PcapReader
reader = record { parser = record { header = Header.default }; reader = buffer }

buffer-IsValid : ValidBuffer buffer
buffer-IsValid = (with_capacity-IsValid pieces 32).0

buffer_bytes : All IsByte (stream buffer)
unfolding is_bytes with_capacity
buffer_bytes = is_bytes-IsByte (stream buffer) refl

next_packet-ReaderOutcome_example :
    ReaderOutcome (Parser.next_packet reader.parser) reader (next_packet reader)
next_packet-ReaderOutcome_example = next_packet-ReaderOutcome reader buffer-IsValid buffer_bytes

next_raw_packet-ReaderOutcome_example :
    ReaderOutcome (Parser.next_raw_packet reader.parser) reader (next_raw_packet reader)
next_raw_packet-ReaderOutcome_example =
    next_raw_packet-ReaderOutcome reader buffer-IsValid buffer_bytes

abbrev header_source : Source
header_source = chunk header_bytes ∷ fault ∷ chunk packet_bytes ∷ []

open_buffer-OpenOutcome_example :
    OpenOutcome Parser.new header_source 32 (open_buffer (with_capacity header_source 32))
open_buffer-OpenOutcome_example =
    open_buffer-OpenOutcome header_source 32
      (unfold is_bytes in is_bytes-IsByte (pending header_source) refl)

fill_buf-FillResult_example : FillResult buffer (fill_buf buffer)
fill_buf-FillResult_example = fill_buf-FillResult buffer buffer-IsValid

parse_with-Explained_example :
    Outcome
      (stateless (Parser.next_packet reader.parser))
      tt
      buffer
      (parse_with 33 (stateless (Parser.next_packet reader.parser)) tt buffer)
    × Excused buffer (parse_with 33 (stateless (Parser.next_packet reader.parser)) tt buffer)
parse_with-Explained_example =
    parse_with-Explained (stateless (Parser.next_packet reader.parser))
      (next_packet-IsLawful reader.parser) 33 tt buffer buffer-IsValid buffer_bytes
      (unfold with_capacity in omega arith)

-- A buffer of eight bytes of which two are consumed, over a reader that fails.
abbrev failing : ReadBuffer
failing = record {
  reader = fault ∷ [];
  buffer = 1 ∷ 2 ∷ 3 ∷ 4 ∷ 5 ∷ 6 ∷ 7 ∷ 8 ∷ [];
  pos = 2;
  len = 7;
}

fill_buf_fault_example :
    ((fill_buf failing).0 ≡ none)
    × (window (fill_buf failing).1 ≡ drop 2 (window failing) ++ take 2 (drop 5 failing.buffer))
fill_buf_fault_example =
    fill_buf_fault failing [] (record { pos-le-len = omega arith; len-le-capacity = omega arith })
      refl (omega arith)

to_u32-from_u32_example : to_u32 (from_u32 300) ≡ 300
to_u32-from_u32_example = to_u32-from_u32 300

named_small : (d : DataLink) → IsNamed d → leb (to_u32 d) 296 ≡ true
unfolding to_u32
named_small (unknown n) h = elim h [ ]
named_small _ h = refl

-- No named type has the number 300.
unnamed : (n : ℕ) → unknown 300 ≡ unknown n → (d : DataLink) → IsNamed d → to_u32 d ≢ n
unnamed n q d named e =
    let small : to_u32 d ≤ 296 = ground (arith, named_small d named) in
    let same : 300 ≡ n = cc q in omega (arith, small, same, e)

from_u32-to_u32_example : from_u32 (to_u32 (unknown 300)) ≡ unknown 300
from_u32-to_u32_example = from_u32-to_u32 (unknown 300) (λ e. cc e) unnamed

-- The reader gives the packet whose bytes came in two pieces, and then the end.
read_in_pieces :
    next_packet reader
    ≡ some (
      some (ok (record packet { timestamp = record { secs = 7; nanos = 1_000 } })),
      record reader {
        reader = record {
          reader = [];
          buffer = packet_bytes ++ replicate 13 0;
          pos = 19;
          len = 19;
        };
      },
    )
unfolding with_capacity next_packet Reader.answered next_with on_data_left has_data_left fill_buf
    read refilled parse_with on_answer on_value on_fill parsed advance_with_slice advance
    Parser.next_packet Parser.packet_in Packet.from_slice Packet.try_from_raw_packet
    Packet.check_raw RawPacket.from_slice RawPacket.take_payload slice_to slice_from Duration.new
read_in_pieces = refl

-- The constructors take their defaults.
writer_new : Writer.new big [] ≡ with_header [] (record Header.default { endianness = big })
unfolding Writer.new
writer_new = refl

raw_written : Writer.write_raw_packet (with_header [] header) raw_packet ≡ (
  ok 19,
  record (with_header [] header) {
    writer = (with_header [] header).writer ++ (RawPacket.write_to little raw_packet).0;
  },
)
unfolding Writer.write_raw_packet Writer.raw_packet_in with_header RawPacket.write_to
raw_written = refl

reader_new : (source : Source) → Reader.new source ≡ open_buffer (with_capacity source 8_000_000)
unfolding Reader.new Buffer.new
reader_new source = refl

write_packet_refused_example :
    (msg : String) × (Writer.write_packet (with_header [] header) (record packet { orig_len = 2 })
      ≡ (err (invalid_field msg), with_header [] header))
write_packet_refused_example =
    write_packet_refused (with_header [] header) (record packet { orig_len = 2 })
      (inr (inr (inr (omega arith))))

parse_with-Answered_example :
    Answered
      (stateless (Parser.next_packet reader.parser))
      tt
      buffer
      (parse_with 33 (stateless (Parser.next_packet reader.parser)) tt buffer)
parse_with-Answered_example =
    parse_with-Answered (stateless (Parser.next_packet reader.parser))
      (next_packet-IsLawful reader.parser) 33 tt buffer buffer-IsValid buffer_bytes
      (unfold with_capacity in (omega arith, (omega arith, tt)))
      (unfold with_capacity in omega arith) (unfold with_capacity in omega arith)

-- A file of one packet, as a reader delivers it in two pieces.
abbrev file_start : List ℕ
file_start =
    0xD4 ∷ 0xC3 ∷ 0xB2 ∷ 0xA1 ∷ 2 ∷ 0 ∷ 4 ∷ 0 ∷ 0 ∷ 0 ∷ 0 ∷ 0 ∷ 0 ∷ 0 ∷ 0 ∷ 0 ∷ 0xFF ∷ 0xFF ∷ 0 ∷ []

abbrev file_end : List ℕ
file_end =
    0 ∷ 1 ∷ 0 ∷ 0 ∷ 0 ∷ 7 ∷ 0 ∷ 0 ∷ 0 ∷ 1 ∷ 0 ∷ 0 ∷ 0 ∷ 3 ∷ 0 ∷ 0 ∷ 0 ∷ 3 ∷ 0 ∷ 0 ∷ 0 ∷ 1 ∷ 2 ∷ 3
    ∷ []

abbrev file_source : Source
file_source = chunk file_start ∷ chunk file_end ∷ []

abbrev written : PcapWriter
written = record (with_header [] header) { writer = file_start ++ file_end }

file_written : write_packets (with_header [] header) (packet ∷ []) ≡ ok written
unfolding write le_bytes be_bytes write_packets with_header Header.write_to Header.write_header
    Writer.write_packet Writer.packet_in Packet.write_to Packet.to_raw_packet RawPacket.write_to
    to_u32
file_written = refl

read_packets-write_packets_example :
    (r : PcapReader) × (open_buffer (with_capacity file_source 64) ≡ some (ok r))
    × (r.parser.header ≡ header)
    × (read_packets 2 r ≡ some (ok (map (kept micro_second) (packet ∷ []))))
read_packets-write_packets_example =
    read_packets-write_packets header (packet ∷ []) written file_source 64 header-IsValid
      ((packet-IsValid, packet-Fits), tt) file_written (omega arith, (omega arith, tt))
      (unfold is_bytes in is_bytes-IsByte (pending file_source) refl) (unfold with_header in refl)
      (omega arith) (unfold with_header in omega arith)
