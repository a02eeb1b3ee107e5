-- ===== src/Pcap/Parser.antt =====
-- `PcapParser` of src/pcap/parser.rs.
pub mod Laws
use pcap_file.Common.{ℕ, List, Result, ok, ◌>>=◌}
use pcap_file.ByteOrder.{ByteOrder, Endianness, big, little}
use pcap_file.Pcap.Header
use pcap_file.Pcap.Header.{PcapHeader}
use pcap_file.Pcap.RawPacket
use pcap_file.Pcap.RawPacket.{RawPcapPacket}
use pcap_file.Pcap.Packet
use pcap_file.Pcap.Packet.{PcapPacket}

-- `header()` is the field.
pub record PcapParser : Type 0 where
  pub header : PcapHeader

module _ ⦃bo : ByteOrder⦄ where
  -- `PcapParser::new`
  unfoldable pub new : List ℕ → Result (List ℕ × PcapParser)
  new slice = do (src, header) ← Header.from_slice slice; ok (src, record { header = header })

  unfoldable pub packet_in : Endianness → PcapParser → List ℕ → Result (List ℕ × PcapPacket)
  packet_in big parser slice =
      Packet.from_slice big slice parser.header.ts_resolution parser.header.snaplen
  packet_in little parser slice =
      Packet.from_slice little slice parser.header.ts_resolution parser.header.snaplen

  -- `PcapParser::next_packet`
  unfoldable pub next_packet : PcapParser → List ℕ → Result (List ℕ × PcapPacket)
  unfolding packet_in
  next_packet parser slice = packet_in parser.header.endianness parser slice

  unfoldable pub raw_packet_in : Endianness → List ℕ → Result (List ℕ × RawPcapPacket)
  raw_packet_in big slice = RawPacket.from_slice big slice
  raw_packet_in little slice = RawPacket.from_slice little slice

  -- `PcapParser::next_raw_packet`
  unfoldable pub next_raw_packet : PcapParser → List ℕ → Result (List ℕ × RawPcapPacket)
  unfolding raw_packet_in
  next_raw_packet parser slice = raw_packet_in parser.header.endianness slice
