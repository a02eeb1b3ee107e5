-- ===== src/PcapNg/Blocks/InterfaceDescription/RoundTrip.antt =====
-- Interface description blocks that were written are read back.
use pcap_file.Common.{◌%◌, ◌^◌, ◌<◌, ◌≤◌, ◌≡◌, [], length, length-append, All, ok, arith, le→ltb}
use pcap_file.ByteOrder.{ByteOrder, Endianness}
use pcap_file.ByteOrder.Laws.{read-write}
use pcap_file.PcapNg.Options.RoundTrip.{opts_from_slice-write_opts_to, length-write_opts_to}
use pcap_file.PcapNg.Options.Layouts.{write_opts_to_words}
use pcap_file.PcapNg.Blocks.InterfaceDescription.Options.{IsValidOption, options-IsReadable}
use pcap_file.DataLink.{from_u32, to_u32}
use pcap_file.PcapNg.Blocks.InterfaceDescription.{
  InterfaceDescriptionBlock, interface_description_option, from_slice, write_to,
}

-- A block with fields of their widths, a link type that its 16 bits can hold, and valid options.
pub record IsValid (b : InterfaceDescriptionBlock) : Type 0 where
  pub linktype_u16 : to_u32 b.linktype < 65536
  pub linktype_canonical : from_u32 (to_u32 b.linktype) ≡ b.linktype
  pub snaplen_u32 : b.snaplen < 4294967296
  pub options_valid : All IsValidOption b.options

module _ ⦃bo : ByteOrder⦄ where
  pub length-write_to_interface :
      (e : Endianness) (b : InterfaceDescriptionBlock)
      → IsValid b
      → (length (write_to e b).0 ≡ (write_to e b).1) × ((write_to e b).1 % 4 ≡ 0)
  unfolding write_to
  length-write_to_interface e b v =
      let rs = options-IsReadable e b.options v.options_valid in
      let l = length-write_opts_to interface_description_option e b.options rs in
      let w = write_opts_to_words interface_description_option e b.options rs in
      (simp (length-append, bo.length-write) (omega (arith, l)), omega (arith, w))

  -- A valid interface description block (fields of their widths, a link type of 16 bits that
  -- survives the conversion to its number and back, valid options) is read back from what was written for it,
  -- with nothing left over.
  pub from_slice-write_to_interface :
      (e : Endianness) (b : InterfaceDescriptionBlock)
      → IsValid b
      → from_slice e (write_to e b).0 ≡ ok ([], b)
  unfolding from_slice write_to
  from_slice-write_to_interface e b v = rw (
    le→ltb _ 8 long,
    read-write 2 e (to_u32 b.linktype % 2 ^ 16) _ (omega arith),
    read-write 2 e 0 _ (omega arith),
    read-write 4 e b.snaplen _ (omega (arith, v.snaplen_u32)),
    opts_from_slice-write_opts_to interface_description_option e b.options
        (options-IsReadable e b.options v.options_valid),
    small,
    v.linktype_canonical,
  )
    where
      long : 8 ≤ length (write_to e b).0
      long = simp (length-append, bo.length-write) (omega arith)

      small : to_u32 b.linktype % 2 ^ 16 ≡ to_u32 b.linktype
      small = omega (arith, v.linktype_u16)
