-- ===== src/PcapNg/Reader.antt =====
-- `PcapNgReader` of src/pcapng/reader.rs: the parser over a `ReadBuffer`.
pub mod Laws
use pcap_file.Common.{ℕ, suc, List, length, Option, some, none, Result, ok, err, panic}
use pcap_file.ByteOrder.{ByteOrder}
use pcap_file.ReadBuffer
use pcap_file.ReadBuffer.{ReadBuffer, Source, Run, NextRun, parse_with, next_with}
use pcap_file.ReadBuffer.Stateless.{stateless}
use pcap_file.PcapNg.Blocks.InterfaceDescription.{InterfaceDescriptionBlock}
use pcap_file.PcapNg.Blocks.EnhancedPacket.{EnhancedPacketBlock}
use pcap_file.PcapNg.RawBlock.{RawBlock}
use pcap_file.PcapNg.Block.{Block}
use pcap_file.PcapNg.Parser
use pcap_file.PcapNg.Parser.{PcapNgParser}

-- `section()` and `interfaces()` are `parser.section` and `parser.interfaces`; `get_ref()` and
-- `into_inner()` are `reader.reader`.
pub record PcapNgReader : Type 0 where
  pub parser : PcapNgParser
  pub reader : ReadBuffer

-- `PcapNgReader::packet_interface`
abbrev pub packet_interface : PcapNgReader → EnhancedPacketBlock → Option InterfaceDescriptionBlock
packet_interface r packet = Parser.packet_interface r.parser packet

-- The reader behind an answer of `parse_with` on the first block.
unfoldable pub opened : Run (Unit {0}) PcapNgParser → Option (Result PcapNgReader)
opened none = none
opened (some (ok parser, _, rb)) = some (ok (record { parser = parser; reader = rb }))
opened (some (err e, _, rb)) = some (err e)
opened (some (panic, _, rb)) = some panic

-- The reader with the parser's state and the buffer that a `next_*` method leaves.
unfoldable pub answered :
    {O : Type 0} → NextRun PcapNgParser O → Option (Option (Result O) × PcapNgReader)
answered none = none
answered (some (o, parser, rb)) = some (o, record { parser = parser; reader = rb })

module _ ⦃bo : ByteOrder⦄ where
  -- `PcapNgReader::new`, on a buffer that is already there.
  unfoldable pub open_buffer : ReadBuffer → Option (Result PcapNgReader)
  unfolding opened
  open_buffer rb = opened (parse_with (suc (length rb.buffer)) (stateless Parser.new) tt rb)

  -- `PcapNgReader::new`
  unfoldable pub new : Source → Option (Result PcapNgReader)
  unfolding open_buffer
  new reader = open_buffer (ReadBuffer.new reader)

  -- `PcapNgReader::next_block`
  unfoldable pub next_block : PcapNgReader → Option (Option (Result Block) × PcapNgReader)
  unfolding answered
  next_block r = answered (next_with Parser.next_block r.parser r.reader)

  -- `PcapNgReader::next_raw_block`
  unfoldable pub next_raw_block : PcapNgReader → Option (Option (Result RawBlock) × PcapNgReader)
  unfolding answered
  next_raw_block r = answered (next_with Parser.next_raw_block r.parser r.reader)
