-- ===== src/Pcap/Writer.antt =====
-- `PcapWriter` of src/pcap/writer.rs. The underlying writer is a `Vec<u8>`: the bytes written so
-- far, to which writing appends and never fails.
pub mod Laws
use pcap_file.Common.{ℕ, List, ◌++◌, Result, ok, err, panic}
use pcap_file.ByteOrder.{ByteOrder, Endianness, big, little}
use pcap_file.Pcap.Header
use pcap_file.Pcap.Header.{PcapHeader, TsResolution}
use pcap_file.Pcap.RawPacket
use pcap_file.Pcap.RawPacket.{RawPcapPacket}
use pcap_file.Pcap.Packet
use pcap_file.Pcap.Packet.{PcapPacket}

-- `endianness()`, `snaplen()` and `ts_resolution()` are the fields, and `into_writer()` is `writer`.
pub record PcapWriter : Type 0 where
  pub endianness : Endianness
  pub snaplen : ℕ
  pub ts_resolution : TsResolution
  pub writer : List ℕ

-- Appends what a write produced to the writer, and returns its count.
abbrev pub emit : PcapWriter → Result (List ℕ × ℕ) → Result ℕ × PcapWriter
emit w (ok (bytes, n)) = (ok n, record w { writer = w.writer ++ bytes })
emit w (err e) = (err e, w)
emit w panic = (panic, w)

module _ ⦃bo : ByteOrder⦄ where
  -- `PcapWriter::with_header`
  unfoldable pub with_header : List ℕ → PcapHeader → PcapWriter
  with_header writer header = record {
    endianness = header.endianness;
    snaplen = header.snaplen;
    ts_resolution = header.ts_resolution;
    writer = writer ++ (Header.write_to header).0;
  }

  -- `PcapWriter::new`; `native` is `Endianness::native()`, which the build target fixes.
  unfoldable pub new : Endianness → List ℕ → PcapWriter
  unfolding with_header
  new native writer = with_header writer (record Header.default { endianness = native })

  unfoldable pub packet_in : Endianness → PcapWriter → PcapPacket → Result (List ℕ × ℕ)
  packet_in big w packet = Packet.write_to big packet w.ts_resolution w.snaplen
  packet_in little w packet = Packet.write_to little packet w.ts_resolution w.snaplen

  -- `PcapWriter::write_packet`
  unfoldable pub write_packet : PcapWriter → PcapPacket → Result ℕ × PcapWriter
  unfolding packet_in
  write_packet w packet = emit w (packet_in w.endianness w packet)

  unfoldable pub raw_packet_in : Endianness → RawPcapPacket → List ℕ × ℕ
  raw_packet_in big packet = RawPacket.write_to big packet
  raw_packet_in little packet = RawPacket.write_to little packet

  -- `PcapWriter::write_raw_packet`
  unfoldable pub write_raw_packet : PcapWriter → RawPcapPacket → Result ℕ × PcapWriter
  unfolding raw_packet_in
  write_raw_packet w packet = emit w (ok (raw_packet_in w.endianness packet))
