-- ===== src/PcapNg/Block/Valid.antt =====
-- Blocks that survive being written and read, and the bodies that are written for them.
use pcap_file.Common.{
  ◌+◌, ◌%◌, ◌<◌, ◌≡◌, ◌≢◌, refl, length, ok, arith, append-nil, length-append, ne→==,
}
use pcap_file.ByteOrder.{ByteOrder, Endianness}
use pcap_file.PcapNg.Options.RoundTrip.{length-padding, no_padding}
use pcap_file.PcapNg.Blocks.SectionHeader.RoundTrip as SectionHeaderTrip
use pcap_file.PcapNg.Blocks.InterfaceDescription.RoundTrip as InterfaceDescriptionTrip
use pcap_file.PcapNg.Blocks.Packet.RoundTrip as PacketTrip
use pcap_file.PcapNg.Blocks.SimplePacket.RoundTrip as SimplePacketTrip
use pcap_file.PcapNg.Blocks.NameResolution.RoundTrip as NameResolutionTrip
use pcap_file.PcapNg.Blocks.InterfaceStatistics.RoundTrip as InterfaceStatisticsTrip
use pcap_file.PcapNg.Blocks.EnhancedPacket.RoundTrip as EnhancedPacketTrip
use pcap_file.PcapNg.Blocks.SystemdJournalExport
use pcap_file.PcapNg.Blocks.SystemdJournalExport.{SystemdJournalExportBlock}
use pcap_file.PcapNg.Blocks.Unknown
use pcap_file.PcapNg.Blocks.Unknown.{UnknownBlock}
use pcap_file.PcapNg.RawBlock.{section_header_block}
use pcap_file.PcapNg.RawBlock.Laws.{raw_of}
use pcap_file.PcapNg.Block.{
  Block, section_header, interface_description, packet, simple_packet, name_resolution,
  interface_statistics, enhanced_packet, systemd_journal_export, unknown,
  interface_description_block, packet_block, simple_packet_block, name_resolution_block,
  interface_statistic_block, enhanced_packet_block, systemd_journal_export_block, block_code,
  try_from_raw_block, write_body,
}

-- A block of none of the known types, of whole words, with the length that it has in a file.
pub record IsUnknownBlock (b : UnknownBlock) : Type 0 where
  pub type_u32 : b.type_ < 4294967296
  pub ne_section_header : b.type_ ≢ section_header_block
  pub ne_interface_description : b.type_ ≢ interface_description_block
  pub ne_packet : b.type_ ≢ packet_block
  pub ne_simple_packet : b.type_ ≢ simple_packet_block
  pub ne_name_resolution : b.type_ ≢ name_resolution_block
  pub ne_interface_statistic : b.type_ ≢ interface_statistic_block
  pub ne_enhanced_packet : b.type_ ≢ enhanced_packet_block
  pub ne_systemd_journal_export : b.type_ ≢ systemd_journal_export_block
  pub whole_words : length b.value % 4 ≡ 0
  pub value_length : b.length ≡ length b.value + 12

-- A block whose fields have their widths, whose options are valid and whose lengths agree. What is
-- padded without a length of its own is whole words.
unfoldable pub IsValid : Block → Type 0
IsValid (section_header b) = SectionHeaderTrip.IsValid b
IsValid (interface_description b) = InterfaceDescriptionTrip.IsValid b
IsValid (packet b) = PacketTrip.IsValid b
IsValid (simple_packet b) = SimplePacketTrip.IsValid b
IsValid (name_resolution b) = NameResolutionTrip.IsValid b
IsValid (interface_statistics b) = InterfaceStatisticsTrip.IsValid b
IsValid (enhanced_packet b) = EnhancedPacketTrip.IsValid b
IsValid (systemd_journal_export b) = length b.journal_entry % 4 ≡ 0
IsValid (unknown b) = IsUnknownBlock b

-- The byte orders in which a block is written and read: the same, but a section header is written in
-- its own, and can be read in any.
unfoldable pub InOrder : Endianness → Endianness → Block → Type 0
InOrder e e' (section_header b) = b.endianness ≡ e
InOrder e e' _ = e' ≡ e

pub code_u32 : (b : Block) → IsValid b → block_code b < 4294967296
unfolding IsValid
code_u32 (unknown b) v = v.type_u32
code_u32 (section_header _) v = omega arith
code_u32 (interface_description _) v = omega arith
code_u32 (packet _) v = omega arith
code_u32 (simple_packet _) v = omega arith
code_u32 (name_resolution _) v = omega arith
code_u32 (interface_statistics _) v = omega arith
code_u32 (enhanced_packet _) v = omega arith
code_u32 (systemd_journal_export _) v = omega arith

module _ ⦃bo : ByteOrder⦄ where
  -- The body of a valid block is whole words, as many bytes as are counted.
  pub length-write_body :
      (e : Endianness) (b : Block)
      → IsValid b
      → (length (write_body e b).0 ≡ (write_body e b).1) × ((write_body e b).1 % 4 ≡ 0)
  unfolding write_body IsValid SystemdJournalExport.write_to Unknown.write_to
  length-write_body e (section_header b) v = SectionHeaderTrip.length-write_to_section e b v
  length-write_body e (interface_description b) v =
      InterfaceDescriptionTrip.length-write_to_interface e b v
  length-write_body e (packet b) v = PacketTrip.length-write_to_packet_block e b v
  length-write_body e (simple_packet b) v = SimplePacketTrip.length-write_to_simple e b
  length-write_body e (name_resolution b) v = NameResolutionTrip.length-write_to_names e b v
  length-write_body e (interface_statistics b) v =
      InterfaceStatisticsTrip.length-write_to_statistics e b v
  length-write_body e (enhanced_packet b) v = EnhancedPacketTrip.length-write_to_enhanced e b v
  length-write_body e (systemd_journal_export b) v =
      (simp (length-append, length-padding), omega (arith, v))
  length-write_body e (unknown b) v = (refl, v.whole_words)

  -- The body of a valid block becomes the block again.
  pub try_from_raw_block-write_body :
      (e e' : Endianness) (b : Block)
      → IsValid b
      → InOrder e e' b
      → try_from_raw_block e' (raw_of (block_code b) (write_body e b).0) ≡ ok b
  unfolding try_from_raw_block write_body IsValid InOrder
  try_from_raw_block-write_body e e' (section_header b) v q =
      rw (← q, SectionHeaderTrip.from_slice-write_to_section b v) refl
  try_from_raw_block-write_body e e' (interface_description b) v q =
      rw (q, InterfaceDescriptionTrip.from_slice-write_to_interface e b v) refl
  try_from_raw_block-write_body e e' (packet b) v q =
      rw (q, PacketTrip.from_slice-write_to_packet_block e b v) refl
  try_from_raw_block-write_body e e' (simple_packet b) v q =
      rw (q, SimplePacketTrip.from_slice-write_to_simple e b v) refl
  try_from_raw_block-write_body e e' (name_resolution b) v q =
      rw (q, NameResolutionTrip.from_slice-write_to_names e b v) refl
  try_from_raw_block-write_body e e' (interface_statistics b) v q =
      rw (q, InterfaceStatisticsTrip.from_slice-write_to_statistics e b v) refl
  try_from_raw_block-write_body e e' (enhanced_packet b) v q =
      rw (q, EnhancedPacketTrip.from_slice-write_to_enhanced e b v) refl
  try_from_raw_block-write_body e e' (systemd_journal_export b) v q =
      unfold SystemdJournalExport.write_to in
      unfold SystemdJournalExport.from_slice in
      rw (no_padding (length b.journal_entry) v, append-nil b.journal_entry) refl
  try_from_raw_block-write_body e e' (unknown b) v q =
      unfold Unknown.write_to in
      unfold Unknown.new in
      rw
        (
          ne→== b.type_ section_header_block v.ne_section_header,
          ne→== b.type_ interface_description_block v.ne_interface_description,
          ne→== b.type_ packet_block v.ne_packet,
          ne→== b.type_ simple_packet_block v.ne_simple_packet,
          ne→== b.type_ name_resolution_block v.ne_name_resolution,
          ne→== b.type_ interface_statistic_block v.ne_interface_statistic,
          ne→== b.type_ enhanced_packet_block v.ne_enhanced_packet,
          ne→== b.type_ systemd_journal_export_block v.ne_systemd_journal_export,
          ← v.value_length,
        )
        refl
