-- ===== src/Pcap/Reader.antt =====
-- `PcapReader` of src/pcap/reader.rs: the parser over a `ReadBuffer`.
pub mod Laws
use pcap_file.Common.{ℕ, suc, List, Option, some, none, Result, ok, err, panic, length}
use pcap_file.ByteOrder.{ByteOrder}
use pcap_file.ReadBuffer
use pcap_file.ReadBuffer.{ReadBuffer, Source, Closure, Run, NextRun, parse_with, next_with}
use pcap_file.ReadBuffer.Stateless.{stateless}
use pcap_file.Pcap.Header.{PcapHeader}
use pcap_file.Pcap.RawPacket.{RawPcapPacket}
use pcap_file.Pcap.Packet.{PcapPacket}
use pcap_file.Pcap.Parser
use pcap_file.Pcap.Parser.{PcapParser}

-- `header()` is `parser.header`, and `into_reader()` is `reader.reader`.
pub record PcapReader : Type 0 where
  pub parser : PcapParser
  pub reader : ReadBuffer

-- The reader behind an answer of `parse_with` on the header.
unfoldable pub opened : Run (Unit {0}) PcapParser → Option (Result PcapReader)
opened none = none
opened (some (ok parser, _, rb)) = some (ok (record { parser = parser; reader = rb }))
opened (some (err e, _, rb)) = some (err e)
opened (some (panic, _, rb)) = some panic

-- The reader with the buffer that a `next_*` method leaves.
unfoldable pub answered :
    {O : Type 0} → PcapReader → NextRun (Unit {0}) O → Option (Option (Result O) × PcapReader)
answered r none = none
answered r (some (o, _, rb)) = some (o, record r { reader = rb })

module _ ⦃bo : ByteOrder⦄ where
  -- `PcapReader::new`, on a buffer that is already there.
  unfoldable pub open_buffer : ReadBuffer → Option (Result PcapReader)
  unfolding opened
  open_buffer rb = opened (parse_with (suc (length rb.buffer)) (stateless Parser.new) tt rb)

  -- `PcapReader::new`
  unfoldable pub new : Source → Option (Result PcapReader)
  unfolding open_buffer
  new reader = open_buffer (ReadBuffer.new reader)

  -- `PcapReader::next_packet`
  unfoldable pub next_packet : PcapReader → Option (Option (Result PcapPacket) × PcapReader)
  unfolding answered
  next_packet r = answered r (next_with (stateless (Parser.next_packet r.parser)) tt r.reader)

  -- `PcapReader::next_raw_packet`
  pub next_raw_packet : PcapReader → Option (Option (Result RawPcapPacket) × PcapReader)
  unfolding answered
  next_raw_packet r =
      answered r (next_with (stateless (Parser.next_raw_packet r.parser)) tt r.reader)
