-- ===== src/PcapNg/Block.antt =====
-- `Block` of src/pcapng/blocks/block_common.rs: the parsed blocks.
pub mod Laws
pub mod Calm
pub mod Valid
pub mod RoundTrip
use pcap_file.Common.{
  ℕ, ◌+◌, ◌-◌, ◌%◌, ◌^◌, List, ◌++◌, Option, some, none, Result, ok, err, panic, ◌>>=◌, ◌==◌,
  if◌then◌else◌,
}
use pcap_file.ByteOrder.{ByteOrder, Endianness, big, write_u32}
use pcap_file.PcapNg.Options.{pad_len, padding}
use pcap_file.PcapNg.Blocks.SectionHeader
use pcap_file.PcapNg.Blocks.SectionHeader.{SectionHeaderBlock}
use pcap_file.PcapNg.Blocks.InterfaceDescription
use pcap_file.PcapNg.Blocks.InterfaceDescription.{InterfaceDescriptionBlock}
use pcap_file.PcapNg.Blocks.Packet
use pcap_file.PcapNg.Blocks.Packet.{PacketBlock}
use pcap_file.PcapNg.Blocks.SimplePacket
use pcap_file.PcapNg.Blocks.SimplePacket.{SimplePacketBlock}
use pcap_file.PcapNg.Blocks.NameResolution
use pcap_file.PcapNg.Blocks.NameResolution.{NameResolutionBlock}
use pcap_file.PcapNg.Blocks.InterfaceStatistics
use pcap_file.PcapNg.Blocks.InterfaceStatistics.{InterfaceStatisticsBlock}
use pcap_file.PcapNg.Blocks.EnhancedPacket
use pcap_file.PcapNg.Blocks.EnhancedPacket.{EnhancedPacketBlock}
use pcap_file.PcapNg.Blocks.SystemdJournalExport
use pcap_file.PcapNg.Blocks.SystemdJournalExport.{SystemdJournalExportBlock}
use pcap_file.PcapNg.Blocks.Unknown
use pcap_file.PcapNg.Blocks.Unknown.{UnknownBlock}
use pcap_file.PcapNg.RawBlock
use pcap_file.PcapNg.RawBlock.{RawBlock, section_header_block}

abbrev pub interface_description_block : ℕ
interface_description_block = 0x00000001

abbrev pub packet_block : ℕ
packet_block = 0x00000002

abbrev pub simple_packet_block : ℕ
simple_packet_block = 0x00000003

abbrev pub name_resolution_block : ℕ
name_resolution_block = 0x00000004

abbrev pub interface_statistic_block : ℕ
interface_statistic_block = 0x00000005

abbrev pub enhanced_packet_block : ℕ
enhanced_packet_block = 0x00000006

abbrev pub systemd_journal_export_block : ℕ
systemd_journal_export_block = 0x00000009

pub data Block : Type 0 where
  section_header : SectionHeaderBlock → Block
  interface_description : InterfaceDescriptionBlock → Block
  packet : PacketBlock → Block
  simple_packet : SimplePacketBlock → Block
  name_resolution : NameResolutionBlock → Block
  interface_statistics : InterfaceStatisticsBlock → Block
  enhanced_packet : EnhancedPacketBlock → Block
  systemd_journal_export : SystemdJournalExportBlock → Block
  unknown : UnknownBlock → Block

-- The `into_` accessors of `Block`.
abbrev pub into_section_header : Block → Option SectionHeaderBlock
into_section_header (section_header b) = some b
into_section_header _ = none

abbrev pub into_interface_description : Block → Option InterfaceDescriptionBlock
into_interface_description (interface_description b) = some b
into_interface_description _ = none

abbrev pub into_packet : Block → Option PacketBlock
into_packet (packet b) = some b
into_packet _ = none

abbrev pub into_simple_packet : Block → Option SimplePacketBlock
into_simple_packet (simple_packet b) = some b
into_simple_packet _ = none

abbrev pub into_name_resolution : Block → Option NameResolutionBlock
into_name_resolution (name_resolution b) = some b
into_name_resolution _ = none

abbrev pub into_interface_statistics : Block → Option InterfaceStatisticsBlock
into_interface_statistics (interface_statistics b) = some b
into_interface_statistics _ = none

abbrev pub into_enhanced_packet : Block → Option EnhancedPacketBlock
into_enhanced_packet (enhanced_packet b) = some b
into_enhanced_packet _ = none

abbrev pub into_systemd_journal_export : Block → Option SystemdJournalExportBlock
into_systemd_journal_export (systemd_journal_export b) = some b
into_systemd_journal_export _ = none

-- The two forms of the `Cow` that is the body of a raw block.
pub data BodyForm : Type 0 where
  borrowed : BodyForm
  owned : BodyForm

-- The body that `try_from_raw_block` goes on with.
abbrev pub body_of : BodyForm → RawBlock → Result (List ℕ)
body_of borrowed raw = ok raw.body
body_of owned raw = panic

-- `let (_, block) = …::from_slice(body)?; Ok(Block::…(block))`
abbrev pub as_block : {B : Type 0} → (B → Block) → Result (List ℕ × B) → Result Block
as_block f m = do (_, b) ← m; ok (f b)

-- The type code of a block.
abbrev pub block_code : Block → ℕ
block_code (section_header _) = section_header_block
block_code (interface_description _) = interface_description_block
block_code (packet _) = packet_block
block_code (simple_packet _) = simple_packet_block
block_code (name_resolution _) = name_resolution_block
block_code (interface_statistics _) = interface_statistic_block
block_code (enhanced_packet _) = enhanced_packet_block
block_code (systemd_journal_export _) = systemd_journal_export_block
block_code (unknown b) = b.type_

module _ ⦃bo : ByteOrder⦄ where
  -- `Block::try_from_raw_block` for a borrowed body, which all that `RawBlock::from_slice` gives has.
  unfoldable pub try_from_raw_block : Endianness → RawBlock → Result Block
  try_from_raw_block e raw =
      if raw.type_ == section_header_block
      then as_block section_header (SectionHeader.from_slice raw.body)
      else if raw.type_ == interface_description_block
      then as_block interface_description (InterfaceDescription.from_slice e raw.body)
      else if raw.type_ == packet_block
      then as_block packet (Packet.from_slice e raw.body)
      else if raw.type_ == simple_packet_block
      then as_block simple_packet (SimplePacket.from_slice e raw.body)
      else if raw.type_ == name_resolution_block
      then as_block name_resolution (NameResolution.from_slice e raw.body)
      else if raw.type_ == interface_statistic_block
      then as_block interface_statistics (InterfaceStatistics.from_slice e raw.body)
      else if raw.type_ == enhanced_packet_block
      then as_block enhanced_packet (EnhancedPacket.from_slice e raw.body)
      else if raw.type_ == systemd_journal_export_block
      then as_block systemd_journal_export (SystemdJournalExport.from_slice raw.body)
      else ok (unknown (Unknown.new raw.type_ raw.initial_len raw.body))

  -- `RawBlock::try_into_block`, for a body of either form.
  unfoldable pub try_into_block : Endianness → BodyForm → RawBlock → Result Block
  unfolding try_from_raw_block
  try_into_block e form raw = do _ ← body_of form raw; try_from_raw_block e raw

  -- `Block::from_slice`
  unfoldable pub from_slice : Endianness → List ℕ → Result (List ℕ × Block)
  unfolding try_from_raw_block
  from_slice e slice = do
    (rem, raw_block) ← RawBlock.from_slice e slice
    block ← try_from_raw_block e raw_block
    ok (rem, block)

  -- The `write_to` of the block inside.
  unfoldable pub write_body : Endianness → Block → List ℕ × ℕ
  write_body e (section_header b) = SectionHeader.write_to e b
  write_body e (interface_description b) = InterfaceDescription.write_to e b
  write_body e (packet b) = Packet.write_to e b
  write_body e (simple_packet b) = SimplePacket.write_to e b
  write_body e (name_resolution b) = NameResolution.write_to e b
  write_body e (interface_statistics b) = InterfaceStatistics.write_to e b
  write_body e (enhanced_packet b) = EnhancedPacket.write_to e b
  write_body e (systemd_journal_export b) = SystemdJournalExport.write_to b
  write_body e (unknown b) = Unknown.write_to b

  -- `inner_write_to`, by the code, the bytes and the count of the body.
  unfoldable pub inner_write_to : Endianness → ℕ → List ℕ × ℕ → List ℕ × ℕ
  inner_write_to e code (bytes, data_len) =
      let block_len = data_len + pad_len data_len + 12 in
      (
        write_u32 e code
            ++ (write_u32 e (block_len % 2 ^ 32)
                ++ (bytes ++ (padding data_len ++ write_u32 e (block_len % 2 ^ 32)))),
        block_len,
      )

  -- `Block::write_to`
  unfoldable pub write_to : Endianness → Block → List ℕ × ℕ
  unfolding write_body inner_write_to
  write_to e b = inner_write_to e (block_code b) (write_body e b)
