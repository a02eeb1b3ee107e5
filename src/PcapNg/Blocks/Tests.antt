-- ===== src/PcapNg/Blocks/Tests.antt =====
-- Each kind of block, read back from what is written for one of them.
use pcap_file.Common.{◌≡◌, refl, [], ◌∷◌, ok, slice_to, slice_from, ◌≢◌}
use pcap_file.ByteOrder.{big, little}
use pcap_file.ByteOrder.Standard.{standard, write, le_bytes, be_bytes}
use pcap_file.Utf8.{is_utf8, continues, from_utf8}
use pcap_file.DataLink.{ethernet, from_u32, to_u32, find_link}
use pcap_file.PcapNg.Options.{
  opts_value, opts_round, opts_loop, opts_from_slice, write_each, write_opts_to, write_bytes_opt,
  write_u8_opt, write_u32_opt, write_u64_opt, write_custom_binary_opt, write_custom_utf8_opt,
  write_unknown_opt, custom_binary_from_slice, custom_utf8_from_slice,
}
use pcap_file.PcapNg.Blocks.SectionHeader
use pcap_file.PcapNg.Blocks.SectionHeader.{SectionHeaderBlock}
use pcap_file.PcapNg.Blocks.InterfaceDescription
use pcap_file.PcapNg.Blocks.InterfaceDescription.Tzone.{parse_option_tzone}
use pcap_file.PcapNg.Blocks.InterfaceDescription.{InterfaceDescriptionBlock}
use pcap_file.PcapNg.Blocks.InterfaceStatistics
use pcap_file.PcapNg.Blocks.InterfaceStatistics.{InterfaceStatisticsBlock}
use pcap_file.PcapNg.Blocks.NameResolution
use pcap_file.PcapNg.Blocks.NameResolution.{NameResolutionBlock}
use pcap_file.PcapNg.Blocks.Packet
use pcap_file.PcapNg.Blocks.Packet.{PacketBlock}
use pcap_file.PcapNg.Blocks.SimplePacket
use pcap_file.PcapNg.Blocks.SimplePacket.{SimplePacketBlock}
use pcap_file.PcapNg.Blocks.SystemdJournalExport
use pcap_file.PcapNg.Blocks.SystemdJournalExport.{SystemdJournalExportBlock}
use pcap_file.PcapNg.Blocks.Unknown

abbrev section : SectionHeaderBlock
section = record {
  endianness = little;
  major_version = 1;
  minor_version = 0;
  section_length = 40;
  options =
      SectionHeader.comment (104 ∷ 105 ∷ [])
      ∷ SectionHeader.hardware (120 ∷ [])
      ∷ SectionHeader.os (121 ∷ [])
      ∷ SectionHeader.user_application []
      ∷ SectionHeader.custom_utf8 (record { code = 2988; pen = 9; value = 97 ∷ [] })
      ∷ SectionHeader.custom_binary (record { code = 19373; pen = 9; value = 200 ∷ [] })
      ∷ SectionHeader.unknown (record { code = 99; length = 2; value = 1 ∷ 2 ∷ [] })
      ∷ [];
}

section_read : SectionHeader.from_slice (SectionHeader.write_to little section).0 ≡ ok ([], section)
unfolding write le_bytes be_bytes SectionHeader.from_slice SectionHeader.parse_inner
    SectionHeader.parse_option SectionHeader.write_to SectionHeader.write_option opts_value
    opts_round opts_loop opts_from_slice write_each write_opts_to write_bytes_opt
    write_custom_binary_opt write_custom_utf8_opt write_unknown_opt custom_binary_from_slice
    custom_utf8_from_slice from_utf8 is_utf8 continues slice_to slice_from
section_read = refl

abbrev interface : InterfaceDescriptionBlock
interface = record {
  linktype = ethernet;
  snaplen = 65535;
  options =
      InterfaceDescription.if_name (101 ∷ [])
      ∷ InterfaceDescription.if_ipv4_addr (10 ∷ 0 ∷ 0 ∷ 1 ∷ 255 ∷ 0 ∷ 0 ∷ 0 ∷ [])
      ∷ InterfaceDescription.if_speed 1000
      ∷ InterfaceDescription.if_ts_resol 9
      ∷ [];
}

interface_read :
    InterfaceDescription.from_slice big (InterfaceDescription.write_to big interface).0
    ≡ ok ([], interface)
unfolding write le_bytes be_bytes InterfaceDescription.from_slice InterfaceDescription.parse_option
    InterfaceDescription.write_to InterfaceDescription.write_option opts_value opts_round opts_loop
    opts_from_slice write_each write_opts_to write_bytes_opt write_u8_opt write_u64_opt from_utf8
    is_utf8 continues slice_to slice_from from_u32 to_u32 find_link
interface_read = refl

new_interface :
    InterfaceDescription.new ethernet 10
    ≡ record { linktype = ethernet; snaplen = 10; options = [] }
unfolding InterfaceDescription.new
new_interface = refl

abbrev statistics : InterfaceStatisticsBlock
statistics = record {
  interface_id = 3;
  timestamp = 5_000_000_000;
  options =
      InterfaceStatistics.isb_start_time 5_000_000_000 ∷ InterfaceStatistics.isb_if_recv 7 ∷ [];
}

statistics_read :
    InterfaceStatistics.from_slice big (InterfaceStatistics.write_to big statistics).0
    ≡ ok ([], statistics)
unfolding write le_bytes be_bytes InterfaceStatistics.from_slice InterfaceStatistics.parse_option
    InterfaceStatistics.write_to InterfaceStatistics.write_option opts_value opts_round opts_loop
    opts_from_slice write_each write_opts_to write_u64_opt slice_to slice_from
statistics_read = refl

abbrev names : NameResolutionBlock
names = record {
  records =
      NameResolution.ipv4
        (record { ip_addr = 10 ∷ 0 ∷ 0 ∷ 1 ∷ []; names = (97 ∷ []) ∷ (98 ∷ 99 ∷ []) ∷ [] })
      ∷ NameResolution.unknown (record { type_ = 7; length = 4; value = 1 ∷ 2 ∷ 3 ∷ 4 ∷ [] })
      ∷ [];
  options = NameResolution.ns_dns_name (100 ∷ []) ∷ [];
}

names_read : NameResolution.from_slice big (NameResolution.write_to big names).0 ≡ ok ([], names)
unfolding write le_bytes be_bytes NameResolution.from_slice NameResolution.parse_option
    NameResolution.write_to NameResolution.write_option NameResolution.record_value
    NameResolution.record_from_slice NameResolution.records_round NameResolution.records_loop
    NameResolution.split NameResolution.parse_names NameResolution.ipv4_from_slice
    NameResolution.ipv6_from_slice NameResolution.write_names NameResolution.ipv4_write_to
    NameResolution.ipv6_write_to NameResolution.record_write_to NameResolution.write_records
    opts_value opts_round opts_loop opts_from_slice write_each write_opts_to write_bytes_opt
    from_utf8 is_utf8 continues slice_to slice_from
names_read = refl

abbrev packet : PacketBlock
packet = record {
  interface_id = 1;
  drop_count = 2;
  timestamp = 5_000_000_000;
  captured_len = 2;
  original_len = 9;
  payload = 1 ∷ 2 ∷ [];
  options = Packet.flags 4 ∷ Packet.hash (2 ∷ 7 ∷ []) ∷ [];
}

packet_read : Packet.from_slice big (Packet.write_to big packet).0 ≡ ok ([], packet)
unfolding write le_bytes be_bytes Packet.from_slice Packet.parse_option Packet.write_to
    Packet.write_option opts_value opts_round opts_loop opts_from_slice write_each write_opts_to
    write_bytes_opt write_u32_opt slice_to slice_from
packet_read = refl

abbrev simple : SimplePacketBlock
simple = record { original_len = 9; payload = 1 ∷ 2 ∷ 3 ∷ [] }

-- The padding of a simple packet is read as data.
simple_read :
    SimplePacket.from_slice little (SimplePacket.write_to little simple).0
    ≡ ok ([], record simple { payload = 1 ∷ 2 ∷ 3 ∷ 0 ∷ [] })
unfolding write le_bytes be_bytes SimplePacket.from_slice SimplePacket.write_to
simple_read = refl

journal_read :
    SystemdJournalExport.from_slice
      (SystemdJournalExport.write_to (record { journal_entry = 1 ∷ 2 ∷ 3 ∷ 4 ∷ [] })).0
    ≡ ok ([], record { journal_entry = 1 ∷ 2 ∷ 3 ∷ 4 ∷ [] })
unfolding SystemdJournalExport.from_slice SystemdJournalExport.write_to
journal_read = refl

unknown_written : (Unknown.write_to (Unknown.new 77 16 (1 ∷ 2 ∷ 3 ∷ 4 ∷ []))).0 ≡ 1 ∷ 2 ∷ 3 ∷ 4 ∷ []
unfolding Unknown.new Unknown.write_to
unknown_written = refl

parse_option_tzone_example :
    InterfaceDescription.parse_option big 10 1 (60 ∷ []) ≢ ok (InterfaceDescription.if_tzone 60)
parse_option_tzone_example = parse_option_tzone big 1 (60 ∷ []) (InterfaceDescription.if_tzone 60)
