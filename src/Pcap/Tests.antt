-- ===== src/Pcap/Tests.antt =====
-- The theorems of the pcap modules at concrete files.
mod Streams
use pcap_file.Common.{
  ℕ, ◌≡◌, refl, List, [], ◌∷◌, ◌++◌, length, All, ok, err, invalid_field, take, drop, replicate,
  none, some, arith, String, inr, slice_to, slice_from, Bool, true, ◌&&◌, ltb,
}
use mathlib.Core.List.{map}
use pcap_file.ByteOrder.Bytes.{is_bytes, is_bytes-IsByte}
use pcap_file.ByteOrder.{IsByte, big, little}
use pcap_file.ByteOrder.Steps.{Extends}
use pcap_file.ByteOrder.Standard.{standard}
use pcap_file.DataLink.{c_hdlc, to_u32, from_u32, find_link}
use pcap_file.Duration
use pcap_file.ReadBuffer as Buffer
use pcap_file.ReadBuffer.{
  ReadBuffer, IsValid as ValidBuffer, Source, chunk, fault, with_capacity, read, refilled, fill_buf,
  window, advance, advance_with_slice, has_data_left, on_value, on_fill, on_answer, parse_with,
  parsed, on_data_left, next_with,
}
use pcap_file.ReadBuffer.Fill.{
  stream, pending, with_capacity-IsValid, FillResult, fill_buf-FillResult, fill_buf_fault,
}
use pcap_file.ReadBuffer.Steady.{Answered, parse_with-Answered}
use pcap_file.ReadBuffer.Parse.{Outcome, parse_with-Outcome}
use pcap_file.DataLink.Laws.{to_u32-from_u32, from_u32-to_u32}
use pcap_file.Pcap.Header
use pcap_file.Pcap.Header.{PcapHeader, TsResolution, micro_second, nano_second}
use pcap_file.Pcap.Header.RoundTrip.{from_slice-write_to_header, from_slice_header-Extends}
use pcap_file.Pcap.Header.WriteBack.{write_to-from_slice_header}
use pcap_file.Pcap.RawPacket
use pcap_file.Pcap.RawPacket.{RawPcapPacket}
use pcap_file.Pcap.RawPacket.Laws.{from_slice-write_to_raw, write_to-from_slice_raw}
use pcap_file.Pcap.Packet
use pcap_file.Pcap.Packet.{PcapPacket}
use pcap_file.Pcap.Packet.Laws.{
  kept, Fits, from_slice-write_to_packet, write_to-from_slice_packet, from_slice-write_to_too_long,
  from_slice_packet-Extends,
}
use pcap_file.Pcap.Parser
use pcap_file.Pcap.Parser.{PcapParser}
use pcap_file.Pcap.Writer
use pcap_file.Pcap.Writer.Laws.{write_packet_refused}
use pcap_file.Pcap.Writer.{PcapWriter, with_header}
use pcap_file.Pcap.Reader
use pcap_file.ReadBuffer.Stateless.{stateless}
use pcap_file.Pcap.Reader.{PcapReader, open_buffer, next_packet, next_raw_packet}
use pcap_file.Pcap.Reader.Laws.{
  ReaderOutcome, OpenOutcome, next_packet-IsLawful, next_packet-ReaderOutcome,
  next_raw_packet-ReaderOutcome, open_buffer-OpenOutcome,
}
use pcap_file.Pcap.WholeFile.{write_packets, next_packets, next_packets-write_packets}

abbrev pub header : PcapHeader
header = record Header.default { endianness = little }

abbrev pub packet : PcapPacket
packet = record {
  timestamp = record { secs = 7; nanos = 1_500 };
  orig_len = 3;
  payload = 1 ∷ 2 ∷ 3 ∷ [];
}

abbrev pub raw_packet : RawPcapPacket
raw_packet = record {
  ts_sec = 7;
  ts_frac = 1;
  incl_len = 3;
  orig_len = 3;
  payload = 1 ∷ 2 ∷ 3 ∷ [];
}

abbrev pub packet_bytes : List ℕ
packet_bytes = 0 ∷ 0 ∷ 0 ∷ 7 ∷ 0 ∷ 0 ∷ 0 ∷ 1 ∷ 0 ∷ 0 ∷ 0 ∷ 3 ∷ 0 ∷ 0 ∷ 0 ∷ 3 ∷ 1 ∷ 2 ∷ 3 ∷ []

abbrev pub header_bytes : List ℕ
header_bytes =
    0xA1 ∷ 0xB2 ∷ 0xC3 ∷ 0xD4 ∷ 0 ∷ 2 ∷ 0 ∷ 4 ∷ 0 ∷ 0 ∷ 0 ∷ 0 ∷ 0 ∷ 0 ∷ 0 ∷ 0 ∷ 0 ∷ 0 ∷ 0xFF ∷ 0xFF
    ∷ 0 ∷ 0 ∷ 0 ∷ 1 ∷ []

packet_bytes-IsByte : All IsByte packet_bytes
packet_bytes-IsByte = unfold is_bytes in is_bytes-IsByte packet_bytes refl

header_bytes-IsByte : All IsByte header_bytes
header_bytes-IsByte = unfold is_bytes in is_bytes-IsByte header_bytes refl

pub header-IsValid : Header.IsValid header
unfolding to_u32 from_u32 find_link
header-IsValid = record {
  version_major_u16 = omega arith;
  version_minor_u16 = omega arith;
  ts_correction_i32 = omega arith;
  ts_accuracy_u32 = omega arith;
  snaplen_u32 = omega arith;
  datalink_u32 = omega arith;
  datalink_canonical = refl;
}

pub packet-IsValid : Packet.IsValid packet
packet-IsValid = record {
  timestamp_valid = record { secs_u64 = omega arith; nanos_lt = omega arith };
  orig_len_u32 = omega arith;
}

pub packet-Fits : Fits packet 65535
packet-Fits = record {
  secs_u32 = omega arith;
  payload_u32 = omega arith;
  payload-le-orig_len = omega arith;
  orig_len-le-snap_len = omega arith;
}

raw_packet-IsValid : RawPacket.IsValid raw_packet
raw_packet-IsValid = record {
  ts_sec_u32 = omega arith;
  ts_frac_u32 = omega arith;
  incl_len_u32 = omega arith;
  orig_len_u32 = omega arith;
  payload_len = refl;
}

next_packets-write_packets_example :
    (w : PcapWriter) × (rem : List ℕ) × (parser : PcapParser) × (write_packets
        (with_header [] header)
        (packet ∷ packet ∷ [])
      ≡ ok w)
    × (Parser.new w.writer ≡ ok (rem, parser))
    × (parser.header ≡ header)
    × (next_packets 2 parser rem ≡ ok ([], map (kept micro_second) (packet ∷ packet ∷ [])))
next_packets-write_packets_example =
    next_packets-write_packets header (packet ∷ packet ∷ []) header-IsValid
      ((packet-IsValid, packet-Fits), ((packet-IsValid, packet-Fits), tt))

from_slice-write_to_header_example :
    Header.from_slice ((Header.write_to header).0 ++ packet_bytes) ≡ ok (packet_bytes, header)
from_slice-write_to_header_example = from_slice-write_to_header header packet_bytes header-IsValid

from_slice-write_to_raw_example :
    RawPacket.from_slice little ((RawPacket.write_to little raw_packet).0 ++ packet_bytes)
    ≡ ok (packet_bytes, raw_packet)
from_slice-write_to_raw_example =
    from_slice-write_to_raw little raw_packet packet_bytes raw_packet-IsValid

from_slice-write_to_packet_example :
    (bytes : List ℕ) × (Packet.write_to little packet micro_second 65535 ≡ ok (bytes, length bytes))
    × ((rest : List ℕ)
        → Packet.from_slice little (bytes ++ rest) micro_second 65535
          ≡ ok (rest, kept micro_second packet))
from_slice-write_to_packet_example =
    from_slice-write_to_packet little packet micro_second 65535 packet-IsValid packet-Fits

-- A packet of five bytes in a file that keeps three.
abbrev long_packet : PcapPacket
long_packet = record packet { orig_len = 5 }

from_slice-write_to_too_long_example :
    (bytes : List ℕ) × (Packet.write_to little long_packet micro_second 3
      ≡ ok (bytes, length bytes))
    × (Packet.from_slice little (bytes ++ []) micro_second 3
        ≡ err (invalid_field "PacketHeader orig_len > snap_len"))
from_slice-write_to_too_long_example =
    from_slice-write_to_too_long little long_packet micro_second 3 []
      (record {
        timestamp_valid = record { secs_u64 = omega arith; nanos_lt = omega arith };
        orig_len_u32 = omega arith;
      })
      (record {
        secs_u32 = omega arith;
        payload_u32 = omega arith;
        payload-le-orig_len = omega arith;
        orig_len-le-snap_len = omega arith;
      })
      (omega arith) (omega arith)

header_read : Header.from_slice header_bytes ≡ ok ([], Header.default)
unfolding Header.from_slice Header.match_magic Header.init_pcap_header from_u32 find_link
header_read = refl

write_to-from_slice_header_example :
    Header.IsValid Header.default × ((Header.write_to Header.default).0 ++ [] ≡ header_bytes)
write_to-from_slice_header_example =
    write_to-from_slice_header header_bytes [] Header.default header_bytes-IsByte header_read

raw_read : RawPacket.from_slice big packet_bytes ≡ ok ([], raw_packet)
unfolding RawPacket.from_slice RawPacket.take_payload slice_to slice_from
raw_read = refl

write_to-from_slice_raw_example :
    RawPacket.IsValid raw_packet × ((RawPacket.write_to big raw_packet).0 ++ [] ≡ packet_bytes)
write_to-from_slice_raw_example =
    write_to-from_slice_raw big packet_bytes [] raw_packet packet_bytes-IsByte raw_read

abbrev read_packet : PcapPacket
read_packet = record packet { timestamp = record { secs = 7; nanos = 1_000 } }

packet_read : Packet.from_slice big packet_bytes micro_second 3 ≡ ok ([], read_packet)
unfolding Packet.from_slice Packet.try_from_raw_packet Packet.check_raw RawPacket.from_slice
    RawPacket.take_payload slice_to slice_from Duration.new
packet_read = refl

write_to-from_slice_packet_example :
    Packet.IsValid read_packet
    × Fits read_packet 3
    × ((bytes : List ℕ) × (Packet.write_to big read_packet micro_second 3
          ≡ ok (bytes, length bytes))
        × (bytes ++ [] ≡ packet_bytes))
write_to-from_slice_packet_example =
    write_to-from_slice_packet big packet_bytes [] read_packet micro_second 3 packet_bytes-IsByte
      packet_read

from_slice_header-Extends_example :
    Extends packet_bytes
      (Header.from_slice header_bytes)
      (Header.from_slice (header_bytes ++ packet_bytes))
from_slice_header-Extends_example =
    from_slice_header-Extends header_bytes packet_bytes header_bytes-IsByte

from_slice_packet-Extends_example :
    Extends header_bytes
      (Packet.from_slice big packet_bytes micro_second 3)
      (Packet.from_slice big (packet_bytes ++ header_bytes) micro_second 3)
from_slice_packet-Extends_example =
    from_slice_packet-Extends big micro_second 3 packet_bytes header_bytes packet_bytes-IsByte
