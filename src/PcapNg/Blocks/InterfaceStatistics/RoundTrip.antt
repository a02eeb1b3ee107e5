-- ===== src/PcapNg/Blocks/InterfaceStatistics/RoundTrip.antt =====
-- Interface statistics blocks that were written are read back.
use pcap_file.Common.{◌%◌, ◌<◌, ◌≤◌, ◌≡◌, [], length, length-append, All, ok, arith, le→ltb}
use pcap_file.ByteOrder.{ByteOrder, Endianness}
use pcap_file.ByteOrder.Laws.{read-write}
use pcap_file.PcapNg.Options.RoundTrip.{opts_from_slice-write_opts_to, length-write_opts_to}
use pcap_file.PcapNg.Options.Layouts.{write_opts_to_words}
use pcap_file.PcapNg.Blocks.InterfaceStatistics.Options.{IsValidOption, options-IsReadable}
use pcap_file.PcapNg.Blocks.InterfaceStatistics.{
  InterfaceStatisticsBlock, interface_statistics_option, from_slice, write_to,
}

-- A block with fields of their widths and valid options.
pub record IsValid (b : InterfaceStatisticsBlock) : Type 0 where
  pub interface_u32 : b.interface_id < 4294967296
  pub timestamp_u64 : b.timestamp < 18446744073709551616
  pub options_valid : All IsValidOption b.options

module _ ⦃bo : ByteOrder⦄ where
  pub length-write_to_statistics :
      (e : Endianness) (b : InterfaceStatisticsBlock)
      → IsValid b
      → (length (write_to e b).0 ≡ (write_to e b).1) × ((write_to e b).1 % 4 ≡ 0)
  unfolding write_to
  length-write_to_statistics e b v =
      let rs = options-IsReadable e b.options v.options_valid in
      let l = length-write_opts_to interface_statistics_option e b.options rs in
      let w = write_opts_to_words interface_statistics_option e b.options rs in
      (simp (length-append, bo.length-write) (omega (arith, l)), omega (arith, w))

  -- A valid interface statistics block (fields of their widths, valid options) is read back from what
  -- was written for it, with nothing left over.
  pub from_slice-write_to_statistics :
      (e : Endianness) (b : InterfaceStatisticsBlock)
      → IsValid b
      → from_slice e (write_to e b).0 ≡ ok ([], b)
  unfolding from_slice write_to
  from_slice-write_to_statistics e b v = rw (
    le→ltb _ 12 long,
    read-write 4 e b.interface_id _ (omega (arith, v.interface_u32)),
    read-write 8 e b.timestamp _ (omega (arith, v.timestamp_u64)),
    opts_from_slice-write_opts_to interface_statistics_option e b.options
        (options-IsReadable e b.options v.options_valid),
  )
    where
      long : 12 ≤ length (write_to e b).0
      long = simp (length-append, bo.length-write) (omega arith)
